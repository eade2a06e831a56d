-- ===== src/Ffi/Entry/Reporting.antt =====
-- How an entry point of src/lib.rs hands its result to Go: errno, the gas, and the two buffers.
use go_cosmwasm.Base.{ℕ, ◌≡◌, refl, ap, ◌∙◌, true, false, ◌==◌, some, [], ◌∷◌, length, arith}
use go_cosmwasm.Go.{Go, ◌>>=◌, Outcome, ok, panic, fault, Bytes}
use go_cosmwasm.Ffi.Memory.{Heap, Buffer, Ptr, from_vec}
use go_cosmwasm.Ffi.Error.{
  RustError, VmResult, vm_ok, vm_failed, of_vm, from_vm, Result, success, failure, error_message,
  errno_value, set_error,
}
use go_cosmwasm.Ffi.Call.{
  CallState, fresh_outs, catch_unwind, in_heap, calling, handle_c_error, report_error, clear_error,
}
use go_cosmwasm.Ffi.Machine.{Vm, to_extern, do_contract}
use go_cosmwasm.Ffi.Entry.{contract_entry, finish_entry, with_cache}
use go_cosmwasm.Ffi.Entry.Contract.{Runs, ending, Readable, left, started, do_contract-left}
use go_cosmwasm.Ffi.Agreement.{intact}
use go_cosmwasm.Ffi.Program.{Program, Deps, run}
use go_cosmwasm.Api.World.{World}
use go_cosmwasm.Api.Library.{Db, ApiRef, QuerierRef}
use go_cosmwasm.Api.Contract.Answers.{reporting, empty_result}

-- The buffer that a vector becomes.
abbrev vec_buffer : Bytes → Heap → Buffer
vec_buffer [] h = empty_result
vec_buffer (x ∷ xs) h = record { ptr = Ptr.at h.next; len = length (x ∷ xs); cap = length (x ∷ xs) }

pub from_vec-ok :
    (xs : Bytes) (h : Heap) → from_vec xs h ≡ (ok (vec_buffer xs h), (from_vec xs h).1)
unfolding from_vec
from_vec-ok [] h = refl
from_vec-ok (x ∷ xs) h = refl

errno_value-error : (x : RustError) → (errno_value x == 0) ≡ false
unfolding errno_value
errno_value-error RustError.out_of_gas = refl
errno_value-error (RustError.empty_arg n) = refl
errno_value-error (RustError.invalid_utf8 n) = refl
errno_value-error (RustError.vm_err n) = refl
errno_value-error (RustError.enclave_err n) = refl
errno_value-error RustError.caught_panic = refl

module _ {H : Type 0} where
  -- The state of the call with the gas that was written.
  abbrev used : ℕ → World H → CallState H
  used g t = record { world = t; outs = record fresh_outs { gas_used = some g } }

  finish_entry-success :
      (m : Go (CallState H) (Result Bytes)) (w t : World H) (g : ℕ) (xs : Bytes)
      → m (started w) ≡ (ok (success xs), used g t)
      → calling (finish_entry m) w ≡ reporting g 0 xs t
  unfolding finish_entry calling handle_c_error clear_error
  finish_entry-success m w t g xs e = ground (arith, e, from_vec-ok xs t.heap)

  handle_c_error-failure :
      (g : ℕ) (x : RustError) (t : World H)
      → handle_c_error (failure x) (used g t) ≡ (
        ok [],
        record {
          world = record t { heap = (from_vec (error_message x) t.heap).1 };
          outs = record {
            gas_used = some g;
            err = some (vec_buffer (error_message x) t.heap);
            errno = errno_value x;
          };
        },
      )
  unfolding handle_c_error report_error set_error
  handle_c_error-failure g x t = ground (arith, from_vec-ok (error_message x) t.heap)

  pub finish_entry-failure :
      (m : Go (CallState H) (Result Bytes)) (w t : World H) (g : ℕ) (x : RustError)
      → m (started w) ≡ (ok (failure x), used g t)
      → calling (finish_entry m) w ≡ reporting g (errno_value x) (error_message x) t
  unfolding finish_entry calling from_vec
  finish_entry-failure m w t g x e =
      ap (λ o. calling (finish_entry (λ u. o)) w) e
      ∙ ap (λ o. calling ((λ u. o) >>= λ xs. in_heap (from_vec xs)) w)
          (handle_c_error-failure g x t)
      ∙ ground (arith, from_vec-ok (error_message x) t.heap, errno_value-error x)

module _ {H I : Type 0} (vm : Vm H I) (cache : ℕ) where
  pub caught-reporting :
      (body : Go (CallState H) (Result Bytes)) (w t : World H) (o : Outcome (VmResult Bytes × I))
      → intact o ≡ true
      → body (started w) ≡ left vm t o
      → calling (finish_entry (with_cache (some cache) λ c. body)) w
        ≡ reporting (ending vm o).gas (ending vm o).errno (ending vm o).bytes t
  unfolding with_cache catch_unwind from_vm errno_value error_message
  caught-reporting body w t (ok (vm_ok xs, i)) y e =
      finish_entry-success _ w t (vm.used_internally i) xs (ground (arith, e))
  caught-reporting body w t (ok (vm_failed x, i)) y e =
      finish_entry-failure _ w t (vm.used_internally i) (of_vm x) (ground (arith, e))
  caught-reporting body w t (panic x) y e =
      finish_entry-failure _ w t 0 RustError.caught_panic (ground (arith, e))
  caught-reporting body w t fault y e = ground arith

module _ {H I R : Type 0} (vm : Vm H I)
    (call : I → Bytes → Bytes → Go (World H) (VmResult Bytes × I)) (d : Deps H R) (cache : ℕ)
    (id p m : Buffer) (db : Db H) (api : ApiRef H) (querier : QuerierRef H) (gas_limit : ℕ)
    (code params msg : Bytes) (prog : Program I R) where
  -- A contract call of src/lib.rs whose arguments can be read, on a machine that runs the tree `prog`,
  -- answers with the result or the error of the run and the gas of the instance; a panic of the
  -- application becomes the error `Caught Panic` without gas.
  pub contract_entry-reporting :
      (w t : World H) (o : Outcome (VmResult Bytes × I))
      → Readable id p m code params msg w.heap
      → Runs vm call cache (to_extern db api querier) gas_limit d code params msg prog
      → run d prog w ≡ (o, t)
      → intact o ≡ true
      → contract_entry vm call (some cache) id p m db api querier gas_limit w
        ≡ reporting (ending vm o).gas (ending vm o).errno (ending vm o).bytes t
  unfolding contract_entry
  contract_entry-reporting w t o b r e y =
      caught-reporting vm cache
        (do_contract vm call cache id p m (to_extern db api querier) gas_limit) w t o y
        (do_contract-left vm call d cache id p m db api querier gas_limit code params msg prog w t o
          b r e)
