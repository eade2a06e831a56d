-- ===== src/Api/Contract/Depleted.antt =====
-- Handle of a contract that runs out of gas, from end to end: the error, and the message of Rust that
-- errorWithMessage of api/lib.go does not take.
use mathlib.Core.Path.{subst}
use go_cosmwasm.Base.{ℕ, ◌≡◌, refl, none, some, List, ◌∷◌, arith}
use go_cosmwasm.Base.Text.{text}
use go_cosmwasm.Base.Dict.{lookup}
use go_cosmwasm.Go.{Go, ok, Bytes, Slice}
use go_cosmwasm.Ffi.Memory.{Buffer, from_vec, IsValid}
use go_cosmwasm.Ffi.Memory.Grown.{Grown, Grown-alloc}
use go_cosmwasm.Ffi.Error.{VmError, vm_failed, of_vm, error_message, errno_value}
use go_cosmwasm.Ffi.Machine.{Vm}
use go_cosmwasm.Ffi.Entry.{library, contract_entry}
use go_cosmwasm.Ffi.Entry.Contract.{ending}
use go_cosmwasm.Ffi.Program.{Program}
use go_cosmwasm.Types.Errors.{Error}
use go_cosmwasm.Api.World.{World}
use go_cosmwasm.Api.Host.{DbIterator}
use go_cosmwasm.Api.Iterator.{frame_of, close_all, start_contract, end_contract}
use go_cosmwasm.Api.Callbacks.{build_db_state}
use go_cosmwasm.Api.Library.{Cache, Db, Reply, ContractFn, build_db, deferring, error_with_message}
use go_cosmwasm.Api.Contract.{Returned, Environment, in_frame, read_reply, run_contract, handle}
use go_cosmwasm.Api.Contract.Lifecycle.{next_counter}
use go_cosmwasm.Api.Contract.Application.{App, environment_of}
use go_cosmwasm.Api.Contract.Sending.{sent-IsValid}
use go_cosmwasm.Api.Contract.Answers.{reporting, frame_opened, frame_closed, lent, Answered}
use go_cosmwasm.Api.Contract.Leaving.{Leaves, Leaves-state, sending-Leaves}
use go_cosmwasm.Api.Contract.Whole.{
  Running, ended, closed, finished, run_end, whole-Answered, whole_tables,
}

-- What the caller gets.
abbrev pub depleted : ℕ → Returned
depleted gas = record { bytes = none; gas_used = gas; error = some Error.out_of_gas_error }

pub in_frame-depleted :
    {H : Type 0} (d : DbIterator H) (e : ℕ → Bytes) (env : Environment H)
    (call : Db H → Go (World H) (Reply Buffer)) (gas x : ℕ) (xs : Bytes) (given : List Bytes)
    (w t : World H) (s : H)
    → call
        (build_db (some (build_db_state env.store (next_counter w))) env.gas_meter)
        (frame_opened w)
      ≡ reporting gas 2 (x ∷ xs) t
    → Grown w.heap given t.heap
    → close_all d (frame_of (lookup (next_counter w) t.tables.iterator_stack)) t.host ≡ (ok tt, s)
    → Leaves
        (depleted gas)
        ((x ∷ xs) ∷ given)
        (in_frame d e env call)
        w
        (frame_closed (next_counter w) t s)
unfolding in_frame start_contract deferring end_contract read_reply error_with_message from_vec
in_frame-depleted d e env call gas x xs given w t s run k closes = record {
  heap = _;
  grown = Grown-alloc w.heap given t.heap (x ∷ xs) k;
  ends = ground (arith, run, closes);
}

run_contract-depleted :
    {H : Type 0} (d : DbIterator H) (e : ℕ → Bytes) (f : ContractFn H) (cache : Cache)
    (code_id params msg : Slice) (env : Environment H) (gas_limit gas x : ℕ) (xs : Bytes)
    (given : List Bytes) (w t : World H) (s : H)
    → IsValid w.heap
    → Answered d f cache code_id params msg env gas_limit gas 2 (x ∷ xs) given w t s
    → Leaves
        (depleted gas)
        ((x ∷ xs) ∷ given)
        (run_contract d e f cache code_id params msg env gas_limit)
        w
        (frame_closed (next_counter w) t s)
unfolding run_contract
run_contract-depleted d e f cache code_id params msg env gas_limit gas x xs given w t s v a =
    let v1 = sent-IsValid code_id w.heap v in
    let v2 = sent-IsValid params _ v1 in
    sending-Leaves _ _ code_id _ w _ v (
      sending-Leaves _ _ params _ _ _ v1 (
        sending-Leaves _ _ msg _ _ _ v2 (
          in_frame-depleted d e env _ gas x xs given
            (record w { heap = lent code_id params msg w.heap }) t s a.ran a.grown a.closes)))

-- When the contract's run on the application itself ends out of gas, Handle returns OutOfGasError
-- with the gas of the instance and leaves the application as that run does once its iterators are
-- closed, without a frame. One block of Rust's more stays allocated than those of the iterators'
-- entries and those that the querier leaves: the message "Ran out of gas". The conditions are those
-- of `Running`, for the machine's function for Handle.
pub handle_depleted :
    {H I R : Type 0} (it : DbIterator H) (vm : Vm H I) (cache : ℕ) (app : App H R) (gas_limit : ℕ)
    (code params msg : Bytes) (prog : Program I R) (w : World H) (i : I)
    → Running it vm cache app gas_limit code params msg prog w vm.call_handle_raw
    → (ended it vm cache app gas_limit code params msg prog w).0
      ≡ ok (vm_failed VmError.gas_depletion, i)
    → Leaves
        (depleted (vm.used_internally i))
        (text "Ran out of gas" ∷ (ended it vm cache app gas_limit code params msg prog w).1.given)
        (handle it
          (library vm)
          (record { ptr = some cache })
          (some code)
          (some params)
          (some msg)
          (environment_of app)
          gas_limit)
        w
        (finished it vm cache app gas_limit code params msg prog w)
unfolding handle library of_vm errno_value error_message text
handle_depleted it vm cache app gas_limit code params msg prog w i e out =
    let (o, l) = ended it vm cache app gas_limit code params msg prog w in
    let s = (closed it vm cache app gas_limit code params msg prog w).1 in
    let t : World _ = run_end it vm cache app gas_limit code params msg prog w in
    let answered =
      subst
        (λ o'.
          Answered it (contract_entry vm vm.call_handle_raw) (record { ptr = some cache })
            (some code) (some params) (some msg) (environment_of app) gas_limit (ending vm o').gas
            (ending vm o').errno (ending vm o').bytes l.given w t s)
        out
        (whole-Answered it vm cache app gas_limit code params msg prog w vm.call_handle_raw e) in
    Leaves-state _ _ _ w (frame_closed (next_counter w) t s) _
      (whole_tables it vm cache app gas_limit code params msg prog w vm.call_handle_raw e) refl
      (run_contract-depleted it vm.errno_text (contract_entry vm vm.call_handle_raw) _ _ _ _ _
        gas_limit _ _ _ l.given w t s e.sound answered)
