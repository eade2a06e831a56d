-- ===== src/Ffi/Query/Echoing.antt =====
-- A query through the boundary, with a querier of the whole world, against what it answers on the
-- application.
use mathlib.Core.Path.{subst}
use go_cosmwasm.Base.{
  ℕ, ◌+◌, ◌<◌, ◌^◌, ◌≡◌, refl, sym, ap, ◌∙◌, none, some, List, [], ◌∷◌, length, u64_mod, arith,
}
use go_cosmwasm.Base.Dict.{Within}
use go_cosmwasm.Go.{Outcome, ok, panic, fault, Panic, Bytes, Slice}
use go_cosmwasm.Ffi.Memory.{Heap, IsValid, Buffer, from_vec, Below-suc}
use go_cosmwasm.Ffi.Memory.Grown.{Grown}
use go_cosmwasm.Ffi.Status.{GoResult, FfiError, done, failed}
use go_cosmwasm.Ffi.Storage.{call_back, fresh_slots, value_of}
use go_cosmwasm.Ffi.Storage.Exchange.{from_vec-receive_slice, value_of-consume}
use go_cosmwasm.Ffi.Storage.Refines.{panic_error}
use go_cosmwasm.Ffi.Query.{ResultJson, parse_result, query_raw}
use go_cosmwasm.Ffi.Query.Agrees.{encoded_answer, heard, value_of-consume-none}
use go_cosmwasm.Ffi.Query.Exchange.{lent_buffer, lent_heap, Taken, taken}
use go_cosmwasm.Types.Queries.{Querier, Decoded, decoded, malformed}
use go_cosmwasm.Api.World.{World}
use go_cosmwasm.Api.Memory.{allocate_rust, receive_slice}
use go_cosmwasm.Api.Callbacks.{panic_status}
use go_cosmwasm.Api.Callbacks.Query.{QueryJson, c_query_external}
use go_cosmwasm.Ffi.Query.Realises.{Effect, Asks, Follows, Echoes, Realises}

lent_heap-IsValid : (xs : Bytes) (h : Heap) → IsValid h → IsValid (lent_heap xs h)
unfolding from_vec
lent_heap-IsValid [] h v = v
lent_heap-IsValid (x ∷ xs) h v = (omega arith, Below-suc h.next h.blocks v)

from_vec-lent : (xs : Bytes) (h : Heap) → from_vec xs h ≡ (ok (lent_buffer xs h), lent_heap xs h)
unfolding from_vec
from_vec-lent [] h = refl
from_vec-lent (x ∷ xs) h = refl

module _ {H R : Type 0} (json : QueryJson) (serde : ResultJson R) (q : Querier (World H))
    (request : Bytes) (gas_limit : ℕ) (w : World H) where
  abbrev lending : World H
  lending = record w { heap = lent_heap request w.heap }

  -- The callback once its answer is known and in the heap.
  called_ok :
      (bz : Slice) (g : ℕ) (b : Buffer) (h : Heap) (u : World H)
      → receive_slice (lent_buffer request w.heap) lending.heap ≡ (ok (some request), lending.heap)
      → encoded_answer json q request gas_limit lending ≡ (ok (decoded bz, g), u)
      → allocate_rust bz u.heap ≡ (ok b, h)
      → call_back fresh_slots
          (c_query_external json (some q) gas_limit (lent_buffer request w.heap))
          lending
        ≡ (
          ok (GoResult.ok, record fresh_slots { used_gas = some g; val = some b }),
          record u { heap = h },
        )
  unfolding c_query_external call_back
  called_ok bz g b h u k e a = ground (arith, k, e, a)

  called_malformed :
      (t : Bytes) (g : ℕ) (b : Buffer) (h : Heap) (u : World H)
      → receive_slice (lent_buffer request w.heap) lending.heap ≡ (ok (some request), lending.heap)
      → encoded_answer json q request gas_limit lending ≡ (ok (malformed t, g), u)
      → allocate_rust (some t) u.heap ≡ (ok b, h)
      → call_back fresh_slots
          (c_query_external json (some q) gas_limit (lent_buffer request w.heap))
          lending
        ≡ (
          ok (GoResult.other, record fresh_slots { used_gas = some g; err_out = some b }),
          record u { heap = h },
        )
  unfolding c_query_external call_back
  called_malformed t g b h u k e a = ground (arith, k, e, a)

  called_panic :
      (p : Panic) (u : World H)
      → receive_slice (lent_buffer request w.heap) lending.heap ≡ (ok (some request), lending.heap)
      → encoded_answer json q request gas_limit lending ≡ (panic p, u)
      → call_back fresh_slots
          (c_query_external json (some q) gas_limit (lent_buffer request w.heap))
          lending
        ≡ (ok (panic_status p, fresh_slots), u)
  unfolding c_query_external call_back
  called_panic p u k e = ground (arith, k, e)

  called_fault :
      (u : World H)
      → receive_slice (lent_buffer request w.heap) lending.heap ≡ (ok (some request), lending.heap)
      → encoded_answer json q request gas_limit lending ≡ (fault, u)
      → call_back fresh_slots
          (c_query_external json (some q) gas_limit (lent_buffer request w.heap))
          lending
        ≡ (fault, u)
  unfolding c_query_external call_back
  called_fault u k e = ground (arith, k, e)

  -- What follows the callback.
  raw_none :
      (g : ℕ) (given : List Bytes) (u : World H) (x : Taken request none w.heap given u.heap)
      → call_back fresh_slots
          (c_query_external json (some q) gas_limit (lent_buffer request w.heap))
          lending
        ≡ (
          ok (GoResult.ok, record fresh_slots { used_gas = some g; val = some x.got }),
          record u { heap = x.after_answer },
        )
      → query_raw json serde (some q) request gas_limit w ≡ (
        ok (done (parse_result serde [] (serde.from_slice [])), g),
        record u { heap = x.after_take },
      )
  unfolding query_raw
  raw_none g given u x c = ground (
    arith,
    from_vec-lent request w.heap,
    c,
    x.frees,
    value_of-consume-none x.got x.after_free x.after_take x.takes,
  )

  raw_some :
      (xs : Bytes) (g : ℕ) (given : List Bytes) (u : World H)
      (x : Taken request (some xs) w.heap given u.heap)
      → call_back fresh_slots
          (c_query_external json (some q) gas_limit (lent_buffer request w.heap))
          lending
        ≡ (
          ok (GoResult.ok, record fresh_slots { used_gas = some g; val = some x.got }),
          record u { heap = x.after_answer },
        )
      → query_raw json serde (some q) request gas_limit w ≡ (
        ok (done (parse_result serde xs (serde.from_slice xs)), g),
        record u { heap = x.after_take },
      )
  unfolding query_raw
  raw_some xs g given u x c = ground (
    arith,
    from_vec-lent request w.heap,
    c,
    x.frees,
    value_of-consume x.got xs x.after_free x.after_take x.takes,
  )

  raw_malformed :
      (t : Bytes) (g : ℕ) (given : List Bytes) (u : World H)
      (x : Taken request (some t) w.heap given u.heap)
      → call_back fresh_slots
          (c_query_external json (some q) gas_limit (lent_buffer request w.heap))
          lending
        ≡ (
          ok (GoResult.other, record fresh_slots { used_gas = some g; err_out = some x.got }),
          record u { heap = x.after_answer },
        )
      → query_raw json serde (some q) request gas_limit w
        ≡ (ok (failed (FfiError.unknown (some t)), g), record u { heap = x.after_take })
  unfolding query_raw value_of
  raw_malformed t g given u x c = ground (arith, from_vec-lent request w.heap, c, x.frees, x.takes)

  raw_panic :
      (p : Panic) (given : List Bytes) (u : World H) (x : Taken request none w.heap given u.heap)
      → call_back fresh_slots
          (c_query_external json (some q) gas_limit (lent_buffer request w.heap))
          lending
        ≡ (ok (panic_status p, fresh_slots), u)
      → query_raw json serde (some q) request gas_limit w
        ≡ (ok (failed (panic_error (panic_status p)), 0), record u { heap = x.after_take })
  unfolding query_raw panic_status allocate_rust value_of
  raw_panic p given u x c =
      ground (arith, from_vec-lent request w.heap, c, x.answers, x.frees, x.takes)

  raw_fault :
      (u : World H)
      → call_back fresh_slots
          (c_query_external json (some q) gas_limit (lent_buffer request w.heap))
          lending
        ≡ (fault, u)
      → query_raw json serde (some q) request gas_limit w ≡ (fault, u)
  unfolding query_raw
  raw_fault u c = ground (arith, from_vec-lent request w.heap, c)

  left_by :
      (e : Effect H) (u : World H) (h : Heap)
      → Follows lending e u
      → Grown w.heap e.given h
      → Follows w e (record u { heap = h })
  left_by e u h f k = record { same_host = f.same_host; same_tables = f.same_tables; grown = k }

  -- A query whose answer is known.
  query-step :
      (o : Outcome (Decoded Slice × ℕ) × Effect H) (r : Outcome (Decoded Slice × ℕ)) (u : World H)
      → IsValid w.heap
      → receive_slice (lent_buffer request w.heap) lending.heap ≡ (ok (some request), lending.heap)
      → encoded_answer json q request gas_limit lending ≡ (r, u)
      → Echoes lending o (r, u)
      → Echoes w (heard serde o) (query_raw json serde (some q) request gas_limit w)
  query-step (ok (decoded none, g), e) r u v k m (same, f) =
      let x = taken request none w.heap e.given u.heap v f.grown in
      let c = called_ok none g x.got x.after_answer u k (m ∙ ap (λ a. (a, u)) same) x.answers in
      subst (Echoes w (heard serde (ok (decoded none, g), e))) (sym (raw_none g e.given u x c))
        (refl, left_by e u x.after_take f x.grown)
  query-step (ok (decoded (some bz), g), e) r u v k m (same, f) =
      let x = taken request (some bz) w.heap e.given u.heap v f.grown in
      let c =
        called_ok (some bz) g x.got x.after_answer u k (m ∙ ap (λ a. (a, u)) same) x.answers in
      subst (Echoes w (heard serde (ok (decoded (some bz), g), e)))
        (sym (raw_some bz g e.given u x c)) (refl, left_by e u x.after_take f x.grown)
  query-step (ok (malformed t, g), e) r u v k m (same, f) =
      let x = taken request (some t) w.heap e.given u.heap v f.grown in
      let c = called_malformed t g x.got x.after_answer u k (m ∙ ap (λ a. (a, u)) same) x.answers in
      subst (Echoes w (heard serde (ok (malformed t, g), e)))
        (sym (raw_malformed t g e.given u x c)) (refl, left_by e u x.after_take f x.grown)
  query-step (panic p, e) r u v k m (same, f) =
      let x = taken request none w.heap e.given u.heap v f.grown in
      let c = called_panic p u k (m ∙ ap (λ a. (a, u)) same) in
      subst (Echoes w (heard serde (panic p, e))) (sym (raw_panic p e.given u x c))
        (refl, left_by e u x.after_take f x.grown)
  query-step (fault, e) r u v k m same =
      subst (Echoes w (heard serde (fault, e)))
        (sym (raw_fault u (called_fault u k (m ∙ ap (λ a. (a, u)) same)))) refl

-- The answer that a contract gets to a query of fewer than 2^31 bytes is that of the application's
-- querier, encoded and read back, with its gas, also where the querier has run other contracts for it:
-- the calls that it counted and the bytes of their iterators are all that is left of them. The querier
-- answers as `asks` says; no frame is above the counter, and the counter does not wrap.
pub query_raw-Echoes :
    {H R : Type 0} (json : QueryJson) (serde : ResultJson R) (q : Querier (World H)) (asks : Asks H)
    (request : Bytes) (gas_limit : ℕ) (w : World H)
    → Realises json q asks
    → Within w.tables.db_counter w.tables.iterator_stack
    → IsValid w.heap
    → length request < 2 ^ 31
    → w.tables.db_counter + (asks request gas_limit w.tables.db_counter w.host).1.spent < u64_mod
    → Echoes w
        (heard serde (asks request gas_limit w.tables.db_counter w.host))
        (query_raw json serde (some q) request gas_limit w)
query_raw-Echoes json serde q asks request gas_limit w a counted v short room =
    let lent : World _ = record w { heap = lent_heap request w.heap } in
    query-step json serde q request gas_limit w (asks request gas_limit w.tables.db_counter w.host)
      _ _ v (from_vec-receive_slice request w.heap short (from_vec-lent request w.heap)) refl
      (a.answers request gas_limit lent counted (lent_heap-IsValid request w.heap v) room)
