-- ===== src/Ffi/Program/Simulates.antt =====
-- The two runs of a tree are one.
use go_cosmwasm.Base.{ℕ, ◌+◌, ◌<◌, ◌^◌, length, ◌≡◌, refl, sym, ap, ◌∙◌, none, some, u64_mod, arith}
use go_cosmwasm.Base.Dict.{lookup, Within}
use mathlib.Core.Path.{subst}
use go_cosmwasm.Go.{Outcome, ok, panic, fault, Slice, Bytes}
use go_cosmwasm.Ffi.Memory.{IsValid}
use go_cosmwasm.Ffi.Agreement.{attempt, Refines-Agrees}
use go_cosmwasm.Ffi.Storage.Refines.{metered, get-Refines, set-Refines, remove-Refines}
use go_cosmwasm.Ffi.Address.Agrees.{
  told, canonical_of, texted, canonical_address-Agrees, human_address-Agrees,
}
use go_cosmwasm.Ffi.Query.{ResultJson, query_raw}
use go_cosmwasm.Ffi.Query.Agrees.{heard}
use go_cosmwasm.Ffi.Query.Realises.{Realises, Echoes}
use go_cosmwasm.Ffi.Query.Echoing.{query_raw-Echoes}
use go_cosmwasm.Types.Queries.{Decoded, decoded, malformed}
use go_cosmwasm.Ffi.Program.{Program, Deps, run, Bounded}
use go_cosmwasm.Ffi.Program.Direct.{Local, start, asked, direct, direct-spent}
use go_cosmwasm.Ffi.Program.Mirrors.{
  Mirrors, Matches, Mirrors-start, Simulates, Simulates-bind, Agrees-Matches, Mirrors-Within,
  Echoes-Matches,
}
use go_cosmwasm.Ffi.Program.Iterators.{range-Matches, next-Matches}
use go_cosmwasm.Api.World.{World}

heard_effect :
    {E R : Type 0} (serde : ResultJson R) (o : Outcome (Decoded Slice × ℕ) × E)
    → (heard serde o).1 ≡ o.1
heard_effect serde (ok (decoded bz, gas), e) = refl
heard_effect serde (ok (malformed t, gas), e) = refl
heard_effect serde (panic p, e) = refl
heard_effect serde (fault, e) = refl

module _ {H R : Type 0} (d : Deps H R) (base : World H)
    (realised : Realises d.json d.querier d.asks)
    (fresh : lookup d.db.iterator_stack_id base.tables.iterator_stack ≡ none)
    (own : d.db.iterator_stack_id ≡ base.tables.db_counter)
    (counted : Within base.tables.db_counter base.tables.iterator_stack) where
  query-Simulates :
      (a : Bytes) (gas_limit : ℕ) (l : Local H) (w : World H)
      → length a < 2 ^ 31
      → Mirrors d.db.iterator_stack_id base l w
      → Simulates d.db.iterator_stack_id base
          (asked l (heard d.serde (d.asks a gas_limit (d.db.iterator_stack_id + l.spent) l.host)))
          (query_raw d.json d.serde (some d.querier) a gas_limit w)
  query-Simulates a gas_limit l w short m room =
      let o = d.asks a gas_limit (d.db.iterator_stack_id + l.spent) l.host in
      let same : (heard d.serde o).1.spent ≡ o.1.spent =
        ap (λ e. e.spent) (heard_effect d.serde o) in
      let counter : w.tables.db_counter ≡ d.db.iterator_stack_id + l.spent =
        ap (λ t. t.db_counter) m.same_tables ∙ ap (λ n. n + l.spent) (sym own) in
      let there : d.asks a gas_limit w.tables.db_counter w.host ≡ o =
        ap (λ n. d.asks a gas_limit n w.host) counter
        ∙ ap (d.asks a gas_limit (d.db.iterator_stack_id + l.spent)) m.same_host in
      let there_spent : (d.asks a gas_limit w.tables.db_counter w.host).1.spent ≡ o.1.spent =
        ap (λ x. x.1.spent) there in
      let fits : w.tables.db_counter + (d.asks a gas_limit w.tables.db_counter w.host).1.spent
          < u64_mod =
        omega (arith, room, same, there_spent, counter, own) in
      Echoes-Matches d.db.iterator_stack_id base l w m (heard d.serde o) _ (
        subst
          (λ x.
            Echoes w (heard d.serde x) (query_raw d.json d.serde (some d.querier) a gas_limit w))
          there
          (query_raw-Echoes d.json d.serde d.querier d.asks a gas_limit w realised
            (Mirrors-Within d.db.iterator_stack_id base l w m (omega (arith, own)) counted)
            m.grown.valid short fits))

  simulates :
      {I : Type 0} (p : Program I R) (l : Local H) (w : World H)
      → Bounded d.db.iterator_stack_id p
      → Mirrors d.db.iterator_stack_id base l w
      → Simulates d.db.iterator_stack_id base (direct d p l) (run d p w)
  unfolding run direct
  simulates (Program.finish r i) l w b m = λ room. (refl, m)
  simulates (Program.crash p) l w b m = λ room. (refl, m)
  simulates (Program.get k f) l w b m =
      Simulates-bind _ base _ _ _ _ l w
        (λ room.
          Agrees-Matches _ base l w (attempt (metered d.meter (d.db.store.get (some k)))) _ m
            (Refines-Agrees w _ _ (get-Refines d.db d.meter k w m.grown.valid b.0)))
        (λ a k. direct-spent d (f a) k) λ a k v n. simulates (f a) k v (b.1 a) n
  simulates (Program.set k x f) l w b m =
      Simulates-bind _ base _ _ _ _ l w
        (λ room.
          Agrees-Matches _ base l w (attempt (metered d.meter (d.db.store.set (some k) (some x)))) _
            m (Refines-Agrees w _ _ (set-Refines d.db d.meter k x w m.grown.valid b.0 b.1)))
        (λ a k. direct-spent d (f a) k) λ a k v n. simulates (f a) k v (b.2 a) n
  simulates (Program.remove k f) l w b m =
      Simulates-bind _ base _ _ _ _ l w
        (λ room.
          Agrees-Matches _ base l w (attempt (metered d.meter (d.db.store.delete (some k)))) _ m
            (Refines-Agrees w _ _ (remove-Refines d.db d.meter k w m.grown.valid b.0)))
        (λ a k. direct-spent d (f a) k) λ a k v n. simulates (f a) k v (b.1 a) n
  simulates (Program.range x y o f) l w b m =
      Simulates-bind _ base _ _ _ _ l w
        (λ room. range-Matches d.db base fresh l w m d.meter x y o b.0 b.1)
        (λ a k. direct-spent d (f a) k) λ a k v n. simulates (f a) k v (b.2 a) n
  simulates (Program.next i f) l w b m =
      Simulates-bind _ base _ _ _ _ l w
        (λ room. next-Matches d.db base fresh l w m d.iterators d.meter i b.0)
        (λ a k. direct-spent d (f a) k) λ a k v n. simulates (f a) k v (b.1 a) n
  simulates (Program.canonical_address x f) l w b m =
      Simulates-bind _ base _ _ _ _ l w
        (λ room.
          Agrees-Matches _ base l w (λ t. told (canonical_of d.api x t)) _ m
            (canonical_address-Agrees d.api x w m.grown.valid b.0))
        (λ a k. direct-spent d (f a) k) λ a k v n. simulates (f a) k v (b.1 a) n
  simulates (Program.human_address x f) l w b m =
      Simulates-bind _ base _ _ _ _ l w
        (λ room.
          Agrees-Matches _ base l w
            (λ t. texted d.utf8_error (told (d.api.human_address (some x) t))) _ m
            (human_address-Agrees d.utf8_error d.api x w m.grown.valid b.0))
        (λ a k. direct-spent d (f a) k) λ a k v n. simulates (f a) k v (b.1 a) n
  simulates (Program.query x gas_limit f) l w b m =
      Simulates-bind _ base _ _ _ _ l w (query-Simulates x gas_limit l w b.0 m)
        (λ a k. direct-spent d (f a) k) λ a k v n. simulates (f a) k v (b.1 a) n

-- A contract's run through src/db.rs, src/iterator.rs, src/api.rs, src/querier.rs and the callbacks
-- is its run on the application itself: the same result and the same state of the application, also
-- where the querier runs other contracts in between. The frame of the call holds the iterators that
-- the application opened, in their order, no other frame is touched, and the counter has moved on
-- by the calls in between. Beyond the blocks that were there, there is one of Rust's for each part
-- of an entry, not empty, that an iterator gave, and those that the querier leaves as `asks` says,
-- such as the message of another contract that ran out of gas. The querier answers as `asks` says.
-- The call is the last one that was counted, and its frame is free at first; no frame is above the
-- counter, which does not wrap; and the keys, values, bounds, addresses and queries of the run are
-- shorter than 2^31 bytes, and the call's counter is not 0 where it steps an iterator.
pub run-Matches :
    {H I R : Type 0} (d : Deps H R) (p : Program I R) (w : World H)
    → Realises d.json d.querier d.asks
    → lookup d.db.iterator_stack_id w.tables.iterator_stack ≡ none
    → d.db.iterator_stack_id ≡ w.tables.db_counter
    → Within w.tables.db_counter w.tables.iterator_stack
    → Bounded d.db.iterator_stack_id p
    → IsValid w.heap
    → w.tables.db_counter + (direct d p (start w.host)).1.spent < u64_mod
    → Matches d.db.iterator_stack_id w (direct d p (start w.host)) (run d p w)
run-Matches d p w realised fresh own counted b v room =
    simulates d w realised fresh own counted p (start w.host) w b (Mirrors-start _ w v) room
