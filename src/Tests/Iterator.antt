-- ===== src/Tests/Iterator.antt =====
-- Two contracts that run at the same time.
use go_cosmwasm.Base.{◌<◌, ◌≡◌, refl, false, none, List, [], ◌∷◌, ◌++◌, inl, arith}
use go_cosmwasm.Base.Dict.{lookup}
use go_cosmwasm.Go.{ok, panic, bounds_error}
use go_cosmwasm.Api.Iterator.{start_contract, pop_frame, store_iterator, retrieve_iterator}
use go_cosmwasm.Api.Iterator.Laws.{retrieve_iterator_out_of_range}
use go_cosmwasm.Api.Iterator.Interleaving.{
  Calls, Event, starts, scans, finishes, start, scan, finish, Run, stop, next, boot, contains,
  Run-drains, start_contract_fresh, retrieve_iterator-Run,
}

-- Calls 1 and 2 start; 1 opens iterator 40 and 2 opens 50; 1 opens 41; 1 ends, then 2.
abbrev first : List Event
first = starts ∷ starts ∷ scans 1 40 ∷ scans 2 50 ∷ scans 1 41 ∷ []

abbrev both_open : Calls
both_open = record {
  tables = record { db_counter = 2; iterator_stack = (1, 40 ∷ 41 ∷ []) ∷ (2, 50 ∷ []) ∷ [] };
  live = 2 ∷ 1 ∷ [];
}

opened : Run first boot both_open
unfolding start_contract store_iterator
opened = next (start _ 1 _ refl) (
    next (start _ 2 _ refl) (
      next (scan _ 1 40 1 _ refl refl)
        (next (scan _ 2 50 1 _ refl refl) (next (scan _ 1 41 2 _ refl refl) stop))))

abbrev drained : Calls
drained = record { tables = record { db_counter = 2; iterator_stack = [] }; live = [] }

all_done : Run (first ++ finishes 1 ∷ finishes 2 ∷ []) boot drained
unfolding start_contract store_iterator pop_frame
all_done = next (start _ 1 _ refl) (
    next (start _ 2 _ refl) (
      next (scan _ 1 40 1 _ refl refl) (
        next (scan _ 2 50 1 _ refl refl) (
          next (scan _ 1 41 2 _ refl refl)
            (next (finish _ 1 _ _ refl refl) (next (finish _ 2 _ _ refl refl) stop))))))

Run-drains_example : drained.tables.iterator_stack ≡ []
Run-drains_example = Run-drains all_done (omega arith) refl

start_contract_fresh_example :
    (0 < 3)
    × (contains 3 both_open.live ≡ false)
    × (lookup 3 both_open.tables.iterator_stack ≡ none)
unfolding start_contract
start_contract_fresh_example =
    start_contract_fresh 3 (record both_open.tables { db_counter = 3 }) opened (omega arith) refl

-- Iterator 50 of call 2 keeps its index while call 1 opens another and ends.
retrieve_iterator-Run_example :
    retrieve_iterator 2 1 (record { db_counter = 2; iterator_stack = (2, 50 ∷ []) ∷ [] })
    ≡ (ok 50, record { db_counter = 2; iterator_stack = (2, 50 ∷ []) ∷ [] })
unfolding retrieve_iterator store_iterator pop_frame
retrieve_iterator-Run_example =
    retrieve_iterator-Run 2 1 50
      (next (scan both_open 1 42 3 _ refl refl) (next (finish _ 1 _ _ refl refl) stop)) refl refl

retrieve_iterator_out_of_range_example :
    retrieve_iterator 2 0 both_open.tables ≡ (panic bounds_error, both_open.tables)
retrieve_iterator_out_of_range_example =
    retrieve_iterator_out_of_range 2 0 both_open.tables (omega arith) (omega arith) (inl refl)
