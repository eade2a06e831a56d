-- ===== src/Ffi/Entry/Contract.antt =====
-- What a contract call of src/lib.rs answers, for a machine that reaches the world only through the
-- traits that it is given.
use go_cosmwasm.Base.{ℕ, ◌≡◌, ap, ◌∙◌, some, [], arith}
use go_cosmwasm.Base.Text.{text}
use go_cosmwasm.Go.{Go, pure, Outcome, ok, panic, fault, Bytes}
use go_cosmwasm.Ffi.Memory.{Heap, Buffer, read}
use go_cosmwasm.Ffi.Error.{
  VmResult, vm_ok, vm_failed, of_vm, from_vm, Result, success, error_message, errno_value,
}
use go_cosmwasm.Ffi.Call.{CallState, ◌>>?◌, fresh_outs, gas_slot, read_arg, write_gas}
use go_cosmwasm.Ffi.Machine.{Vm, Extern, to_extern, vm_call, do_contract, run_instance}
use go_cosmwasm.Ffi.Program.{Program, Deps, run}
use go_cosmwasm.Api.World.{World}
use go_cosmwasm.Api.Library.{Db, ApiRef, QuerierRef}

-- What the crate does on one call, as far as this repository relies on it: the code is known, its
-- instance is at hand without touching the world, the call is the run of a tree, and recycling the
-- instance touches nothing.
pub record Runs {H I R : Type 0} (vm : Vm H I)
    (call : I → Bytes → Bytes → Go (World H) (VmResult Bytes × I)) (cache : ℕ) (deps : Extern H)
    (gas_limit : ℕ) (d : Deps H R) (code params msg : Bytes) (p : Program I R) : Type 0 where
  pub checksum : Bytes
  pub instance_of : I
  pub reads : vm.checksum code ≡ vm_ok checksum
  pub loads :
      (w : World H) → vm.get_instance cache checksum deps gas_limit w ≡ (ok (vm_ok instance_of), w)
  pub calls : (w : World H) → call instance_of params msg w ≡ run d p w
  pub recycles : (i : I) (w : World H) → vm.recycle i w ≡ (ok tt, w)

-- The gas, errno and bytes that go back to Go.
pub record Ending : Type 0 where
  pub gas : ℕ
  pub errno : ℕ
  pub bytes : Bytes

abbrev pub ending : {H I : Type 0} → Vm H I → Outcome (VmResult Bytes × I) → Ending
ending vm (ok (vm_ok xs, i)) = record { gas = vm.used_internally i; errno = 0; bytes = xs }
ending vm (ok (vm_failed e, i)) = record {
  gas = vm.used_internally i;
  errno = errno_value (of_vm e);
  bytes = error_message (of_vm e);
}
ending vm (panic p) = record { gas = 0; errno = 1; bytes = text "Caught Panic" }
ending vm fault = record { gas = 0; errno = 0; bytes = [] }

-- The three arguments can be read.
pub record Readable (id p m : Buffer) (code params msg : Bytes) (h : Heap) : Type 0 where
  pub id_read : read id h ≡ (ok (some code), h)
  pub params_read : read p h ≡ (ok (some params), h)
  pub msg_read : read m h ≡ (ok (some msg), h)

-- A step of a `Result` that succeeds.
pub continue_ok :
    {S A B : Type 0} (m : Go S (Result A)) (f : A → Go S (Result B)) (s t : S) (a : A)
    → m s ≡ (ok (success a), t)
    → (m >>? f) s ≡ f a t
continue_ok m f s t a e = ap (λ o. ((λ u. o) >>? f) s) e

pub read_arg-ok :
    {H : Type 0} (name : Bytes) (b : Buffer) (xs : Bytes) (s : CallState H)
    → read b s.world.heap ≡ (ok (some xs), s.world.heap)
    → read_arg name b s ≡ (ok (success xs), s)
unfolding read_arg
read_arg-ok name b xs s e = ground (arith, e)

pub vm_call-ok :
    {H A : Type 0} (m : Go (World H) (VmResult A)) (a : A) (s : CallState H)
    → m s.world ≡ (ok (vm_ok a), s.world)
    → vm_call m s ≡ (ok (success a), s)
unfolding from_vm
vm_call-ok m a s e = ground (arith, e)

abbrev pub started : {H : Type 0} → World H → CallState H
started w = record { world = w; outs = fresh_outs }

-- What the closure of an entry point leaves, whether its panic is caught or not.
abbrev pub left :
    {H I : Type 0}
    → Vm H I
    → World H
    → Outcome (VmResult Bytes × I)
    → Outcome (Result Bytes) × CallState H
left vm t (ok (r, i)) = (
  ok (from_vm r),
  record { world = t; outs = record fresh_outs { gas_used = some (vm.used_internally i) } },
)
left vm t (panic x) = (panic x, started t)
left vm t fault = (fault, started t)

module _ {H I : Type 0} (vm : Vm H I) (call : I → Bytes → Bytes → Go (World H) (VmResult Bytes × I))
    (params msg : Bytes) where
  pub run_instance-left :
      (w t : World H) (o : Outcome (VmResult Bytes × I)) (i : I)
      → (call i params msg w ≡ (o, t))
      → ((j : I) → vm.recycle j t ≡ (ok tt, t))
      → run_instance vm (λ j. call j params msg) i (started w) ≡ left vm t o
  unfolding run_instance write_gas
  run_instance-left w t (ok (x, j)) i e r = ground (arith, e, r j)
  run_instance-left w t (panic x) i e r = ground (arith, e)
  run_instance-left w t fault i e r = ground (arith, e)

module _ {H I R : Type 0} (vm : Vm H I)
    (call : I → Bytes → Bytes → Go (World H) (VmResult Bytes × I)) (d : Deps H R) (cache : ℕ)
    (id p m : Buffer) (db : Db H) (api : ApiRef H) (querier : QuerierRef H) (gas_limit : ℕ)
    (code params msg : Bytes) (prog : Program I R) where
  pub do_contract-left :
      (w t : World H) (o : Outcome (VmResult Bytes × I))
      → Readable id p m code params msg w.heap
      → Runs vm call cache (to_extern db api querier) gas_limit d code params msg prog
      → run d prog w ≡ (o, t)
      → do_contract vm call cache id p m (to_extern db api querier) gas_limit (started w)
        ≡ left vm t o
  unfolding do_contract gas_slot from_vm
  do_contract-left w t o b r e =
      let deps : Extern H = to_extern db api querier in
      let s : CallState H = record { world = w; outs = fresh_outs } in
      let load : Bytes → Bytes → Bytes → Go (CallState H) (Result Bytes) = λ sum p' m'.
        vm_call (vm.get_instance cache sum deps gas_limit)
        >>? run_instance vm (λ j. call j p' m') in
      let last : Bytes → Bytes → Go (CallState H) (Result Bytes) =
        λ sum p'. read_arg (text "msg") m >>? load sum p' in
      let middle : Bytes → Go (CallState H) (Result Bytes) =
        λ sum. read_arg (text "params") p >>? last sum in
      let first : Bytes → Go (CallState H) (Result Bytes) =
        λ code'. pure (from_vm (vm.checksum code')) >>? middle in
      continue_ok (read_arg (text "code_id") id) first s s code
        (read_arg-ok (text "code_id") id code s b.id_read)
      ∙ continue_ok (pure (from_vm (vm.checksum code))) middle s s r.checksum
          (ap (λ x. (ok (from_vm x), s)) r.reads)
      ∙ continue_ok (read_arg (text "params") p) (last r.checksum) s s params
          (read_arg-ok (text "params") p params s b.params_read)
      ∙ continue_ok (read_arg (text "msg") m) (load r.checksum params) s s msg
          (read_arg-ok (text "msg") m msg s b.msg_read)
      ∙ continue_ok (vm_call (vm.get_instance cache r.checksum deps gas_limit))
          (run_instance vm (λ j. call j params msg)) s s r.instance_of
          (vm_call-ok (vm.get_instance cache r.checksum deps gas_limit) r.instance_of s (r.loads w))
      ∙ run_instance-left vm call params msg w t o r.instance_of (r.calls w ∙ e)
          (λ j. r.recycles j t)
