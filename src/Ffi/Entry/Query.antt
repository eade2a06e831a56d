-- ===== src/Ffi/Entry/Query.antt =====
-- What a query of src/lib.rs answers: `query` and `do_query`.
use go_cosmwasm.Base.{ℕ, ◌≡◌, ap, ◌∙◌, true, some, []}
use go_cosmwasm.Base.Text.{text}
use go_cosmwasm.Go.{Go, pure, Outcome, ok, Bytes}
use go_cosmwasm.Ffi.Memory.{Buffer, read}
use go_cosmwasm.Ffi.Error.{VmResult, Result, from_vm}
use go_cosmwasm.Ffi.Agreement.{intact}
use go_cosmwasm.Ffi.Call.{CallState, ◌>>?◌, read_arg, gas_slot}
use go_cosmwasm.Ffi.Machine.{Vm, Extern, to_extern, vm_call, do_query, run_instance}
use go_cosmwasm.Ffi.Entry.{query_entry}
use go_cosmwasm.Ffi.Entry.Contract.{
  Runs, ending, left, started, continue_ok, read_arg-ok, vm_call-ok, run_instance-left,
}
use go_cosmwasm.Ffi.Entry.Reporting.{caught-reporting}
use go_cosmwasm.Ffi.Program.{Program, Deps, run}
use go_cosmwasm.Api.World.{World}
use go_cosmwasm.Api.Library.{Db, ApiRef, QuerierRef}
use go_cosmwasm.Api.Contract.Answers.{reporting}

-- The machine's function for a query, which has no environment.
abbrev pub querying :
    {H I : Type 0} → Vm H I → I → Bytes → Bytes → Go (World H) (VmResult Bytes × I)
querying vm i params msg = vm.call_query_raw i msg

module _ {H I R : Type 0} (vm : Vm H I) (d : Deps H R) (cache : ℕ) (id m : Buffer) (db : Db H)
    (api : ApiRef H) (querier : QuerierRef H) (gas_limit : ℕ) (code msg : Bytes)
    (prog : Program I R) where
  do_query-left :
      (w t : World H) (o : Outcome (VmResult Bytes × I))
      → read id w.heap ≡ (ok (some code), w.heap)
      → read m w.heap ≡ (ok (some msg), w.heap)
      → Runs vm (querying vm) cache (to_extern db api querier) gas_limit d code [] msg prog
      → run d prog w ≡ (o, t)
      → do_query vm cache id m (to_extern db api querier) gas_limit (started w) ≡ left vm t o
  unfolding do_query gas_slot from_vm
  do_query-left w t o a b r e =
      let deps : Extern H = to_extern db api querier in
      let s : CallState H = started w in
      let load : Bytes → Bytes → Go (CallState H) (Result Bytes) = λ sum m'.
        vm_call (vm.get_instance cache sum deps gas_limit)
        >>? run_instance vm (λ j. vm.call_query_raw j m') in
      let last : Bytes → Go (CallState H) (Result Bytes) =
        λ sum. read_arg (text "msg") m >>? load sum in
      let first : Bytes → Go (CallState H) (Result Bytes) =
        λ code'. pure (from_vm (vm.checksum code')) >>? last in
      continue_ok (read_arg (text "code_id") id) first s s code
        (read_arg-ok (text "code_id") id code s a)
      ∙ continue_ok (pure (from_vm (vm.checksum code))) last s s r.checksum
          (ap (λ x. (ok (from_vm x), s)) r.reads)
      ∙ continue_ok (read_arg (text "msg") m) (load r.checksum) s s msg
          (read_arg-ok (text "msg") m msg s b)
      ∙ continue_ok (vm_call (vm.get_instance cache r.checksum deps gas_limit))
          (run_instance vm (λ j. vm.call_query_raw j msg)) s s r.instance_of
          (vm_call-ok (vm.get_instance cache r.checksum deps gas_limit) r.instance_of s (r.loads w))
      ∙ run_instance-left vm (querying vm) [] msg w t o r.instance_of (r.calls w ∙ e)
          (λ j. r.recycles j t)

  -- A query of src/lib.rs whose arguments can be read, on a machine that runs the tree `prog`, answers
  -- with the result or the error of the run and the gas of the instance, or with the caught panic.
  pub query_entry-reporting :
      (w t : World H) (o : Outcome (VmResult Bytes × I))
      → read id w.heap ≡ (ok (some code), w.heap)
      → read m w.heap ≡ (ok (some msg), w.heap)
      → Runs vm (querying vm) cache (to_extern db api querier) gas_limit d code [] msg prog
      → run d prog w ≡ (o, t)
      → intact o ≡ true
      → query_entry vm (some cache) id m db api querier gas_limit w
        ≡ reporting (ending vm o).gas (ending vm o).errno (ending vm o).bytes t
  unfolding query_entry
  query_entry-reporting w t o a b r e y =
      caught-reporting vm cache (do_query vm cache id m (to_extern db api querier) gas_limit) w t o
        y (do_query-left w t o a b r e)
