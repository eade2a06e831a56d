-- ===== src/Ffi/Entry/Returns.antt =====
-- No panic of the machine crosses from src/lib.rs into Go.
use go_cosmwasm.Base.{ℕ, ◌≡◌, ◌∙◌, refl, ap, Bool, true, false, Option, none, some, [], arith}
use go_cosmwasm.Base.Text.{text}
use go_cosmwasm.Go.{Go, ◌>>=◌, Outcome, ok, panic, fault, Bytes}
use go_cosmwasm.Ffi.Memory.{Buffer, from_vec}
use go_cosmwasm.Ffi.Error.{RustError, VmResult, set_error, Result, success, failure, error_message}
use go_cosmwasm.Ffi.Agreement.{intact}
use go_cosmwasm.Ffi.Call.{
  CallState, in_heap, catch_unwind, calling, handle_c_error, clear_error, report_error,
}
use go_cosmwasm.Ffi.Machine.{Vm, to_extern, do_contract, do_query}
use go_cosmwasm.Ffi.Entry.{contract_entry, query_entry, finish_entry, with_cache}
use go_cosmwasm.Ffi.Entry.Contract.{started}
use go_cosmwasm.Ffi.Entry.Reporting.{from_vec-ok}
use go_cosmwasm.Api.World.{World}
use go_cosmwasm.Api.Library.{Db, ApiRef, QuerierRef}

-- A computation that ends with a value.
abbrev pub returned : {A : Type 0} → Outcome A → Bool
returned (ok a) = true
returned (panic p) = false
returned fault = false

module _ {H : Type 0} where
  handed_over : (xs : Bytes) (s : CallState H) → returned (in_heap (from_vec xs) s).0 ≡ true
  handed_over xs s = ground (arith, from_vec-ok xs s.world.heap)

  report_error-ok : (x : RustError) (s : CallState H) → (report_error x s).0 ≡ ok tt
  unfolding report_error set_error
  report_error-ok x s = ground (arith, from_vec-ok (error_message x) s.world.heap)

  handle_c_error-ok :
      (r : Result Bytes) (s : CallState H)
      → (xs : Bytes) × (t : CallState H) × (handle_c_error r s ≡ (ok xs, t))
  unfolding handle_c_error clear_error
  handle_c_error-ok (success xs) s = (xs, (clear_error s).1, refl)
  handle_c_error-ok (failure x) s = ([], (report_error x s).1, ground (arith, report_error-ok x s))

  finished-returned :
      (r : Result Bytes) (s : CallState H)
      → returned ((handle_c_error r >>= λ xs. in_heap (from_vec xs)) s).0 ≡ true
  finished-returned r s =
      let (xs, t, e) = handle_c_error-ok r s in
      ap (λ o. returned (((λ u. o) >>= λ ys. in_heap (from_vec ys)) s).0) e ∙ handed_over xs t

  caught :
      (o : Outcome (Result Bytes) × CallState H) (s : CallState H)
      → intact o.0 ≡ true
      → returned
          ((catch_unwind (λ u. o) >>= λ r. handle_c_error r >>= λ xs. in_heap (from_vec xs)) s).0
        ≡ true
  unfolding catch_unwind
  caught (ok r, t) s i = finished-returned r t
  caught (panic p, t) s i = finished-returned _ t
  caught (fault, t) s i = ground arith

  -- A body that is caught, and then reported.
  caught-returned :
      (cache : Option ℕ) (body : ℕ → Go (CallState H) (Result Bytes)) (s : CallState H)
      → ((c : ℕ) → intact (body c s).0 ≡ true)
      → returned (finish_entry (with_cache cache body) s).0 ≡ true
  unfolding finish_entry with_cache
  caught-returned none body s i = finished-returned (failure (RustError.empty_arg (text "cache"))) s
  caught-returned (some c) body s i = caught (body c s) s (i c)

  calling-returned :
      {A : Type 0} (m : Go (CallState H) A) (w : World H)
      → returned (m (started w)).0 ≡ true
      → returned (calling m w).0 ≡ true
  unfolding calling
  calling-returned m w e = ground (arith, e)

-- Instantiate, Handle, Migrate and Query of src/lib.rs return to Go with a value, whatever the machine
-- does, a panic included, as long as it does not corrupt memory.
pub entry_returned :
    {H I : Type 0} (vm : Vm H I) (call : I → Bytes → Bytes → Go (World H) (VmResult Bytes × I))
    (cache : Option ℕ) (id p m : Buffer) (db : Db H) (api : ApiRef H) (querier : QuerierRef H)
    (gas_limit : ℕ) (w : World H)
    → ((c : ℕ)
        → intact (do_contract vm call c id p m (to_extern db api querier) gas_limit (started w)).0
          ≡ true)
    → ((c : ℕ)
        → intact (do_query vm c id m (to_extern db api querier) gas_limit (started w)).0 ≡ true)
    → (returned (contract_entry vm call cache id p m db api querier gas_limit w).0 ≡ true)
      × (returned (query_entry vm cache id m db api querier gas_limit w).0 ≡ true)
unfolding contract_entry query_entry
entry_returned vm call cache id p m db api querier gas_limit w a b = (
  calling-returned
      (finish_entry
        (with_cache cache λ c. do_contract vm call c id p m (to_extern db api querier) gas_limit))
      w (caught-returned cache _ (started w) a),
  calling-returned
      (finish_entry (with_cache cache λ c. do_query vm c id m (to_extern db api querier) gas_limit))
      w (caught-returned cache _ (started w) b),
)
