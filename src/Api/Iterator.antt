-- ===== src/Api/Iterator.antt =====
-- api/iterator.go: a frame of open iterators for each running contract. The mutexes make each
-- operation on the tables one step.
pub mod Laws
pub mod Interleaving
use go_cosmwasm.Base.{
  ℕ, ◌+◌, ◌-◌, ◌%◌, Option, none, some, List, [], ◌∷◌, ◌++◌, length, get_elem?, u64_mod,
}
use go_cosmwasm.Base.Dict.{lookup, erase, insert}
use go_cosmwasm.Go.{Go, Outcome, ok, panic, pure, ◌>>=◌, ◌>>◌, bounds_error}
use go_cosmwasm.Api.World.{Tables, World, on_tables, on_host}
use go_cosmwasm.Api.Host.{DbIterator}

-- `frame`
abbrev pub Frame : Type 0
Frame = List ℕ

-- `iteratorStack[counter]`, which is empty for a key that the map lacks.
abbrev pub frame_of : Option Frame → Frame
frame_of none = []
frame_of (some f) = f

-- `startContract`
unfoldable pub start_contract : Go Tables ℕ
start_contract t = let c : ℕ = (t.db_counter + 1) % u64_mod in (ok c, record t { db_counter = c })

-- `popFrame`
unfoldable pub pop_frame : ℕ → Go Tables Frame
pop_frame counter t = (
  ok (frame_of (lookup counter t.iterator_stack)),
  record t { iterator_stack = erase counter t.iterator_stack },
)

-- The loop of `endContract`.
unfoldable pub close_all : {H : Type 0} → DbIterator H → Frame → Go H (Unit {0})
close_all d [] s = (ok tt, s)
close_all d (it ∷ rest) s = (do d.close it; close_all d rest) s

-- `endContract`
unfoldable pub end_contract : {H : Type 0} → DbIterator H → ℕ → Go (World H) (Unit {0})
unfolding pop_frame
end_contract d counter = do remove ← on_tables (pop_frame counter); on_host (close_all d remove)

-- `storeIterator`
unfoldable pub store_iterator : ℕ → ℕ → Go Tables ℕ
store_iterator counter it t =
    let frame : Frame = frame_of (lookup counter t.iterator_stack) ++ it ∷ [] in
    (ok (length frame), record t { iterator_stack = insert counter frame t.iterator_stack })

-- What `iteratorStack[dbCounter][index-1]` yields; an index out of range panics.
abbrev pub at_index : Option ℕ → Outcome ℕ
at_index none = panic bounds_error
at_index (some it) = ok it

-- `retrieveIterator`, with `index-1` wrapped as a uint64.
unfoldable pub retrieve_iterator : ℕ → ℕ → Go Tables ℕ
retrieve_iterator counter index t = (
  at_index
      (get_elem? (frame_of (lookup counter t.iterator_stack)) ((index + u64_mod - 1) % u64_mod)),
  t,
)
