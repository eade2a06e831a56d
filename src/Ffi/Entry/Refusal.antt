-- ===== src/Ffi/Entry/Refusal.antt =====
-- The arguments of a contract call that src/lib.rs turns down, before any contract runs.
use go_cosmwasm.Base.{ℕ, ◌≡◌, refl, ap, ◌∙◌, Option, none, some, arith}
use go_cosmwasm.Base.Text.{text}
use go_cosmwasm.Go.{Go, ok, pure, Bytes, Slice}
use go_cosmwasm.Ffi.Memory.{Heap, Buffer, read}
use go_cosmwasm.Ffi.Error.{
  RustError, VmResult, vm_ok, vm_failed, of_vm, from_vm, Result, success, failure, error_message,
  errno_value,
}
use go_cosmwasm.Ffi.Call.{CallState, ◌>>?◌, read_arg, gas_slot, catch_unwind}
use go_cosmwasm.Ffi.Machine.{Vm, Extern, to_extern, vm_call, do_contract, run_instance}
use go_cosmwasm.Ffi.Entry.{contract_entry, with_cache}
use go_cosmwasm.Ffi.Entry.Contract.{started, continue_ok}
use go_cosmwasm.Ffi.Entry.Reporting.{finish_entry-failure}
use go_cosmwasm.Api.World.{World}
use go_cosmwasm.Api.Library.{Db, ApiRef, QuerierRef}
use go_cosmwasm.Api.Contract.Answers.{reporting}

-- The reason, in the order in which the arguments are looked at.
abbrev missing : Slice → Slice → Option RustError
missing none msg = some (RustError.empty_arg (text "params"))
missing (some p) none = some (RustError.empty_arg (text "msg"))
missing (some p) (some m) = none

abbrev pub refusal : {H I : Type 0} → Vm H I → Option ℕ → Slice → Slice → Slice → Option RustError
refusal vm none code params msg = some (RustError.empty_arg (text "cache"))
refusal vm (some c) none params msg = some (RustError.empty_arg (text "code_id"))
refusal vm (some c) (some xs) params msg = elim (vm.checksum xs) [
  | vm_failed e ↦ some (of_vm e)
  | vm_ok sum ↦ missing params msg
]

-- The three arguments, each of which may be nil.
pub record Arguments (id p m : Buffer) (code params msg : Slice) (h : Heap) : Type 0 where
  pub id_read : read id h ≡ (ok code, h)
  pub params_read : read p h ≡ (ok params, h)
  pub msg_read : read m h ≡ (ok msg, h)

abbrev argument : Bytes → Slice → Result Bytes
argument name none = failure (RustError.empty_arg name)
argument name (some xs) = success xs

read_arg-argument :
    {H : Type 0} (name : Bytes) (b : Buffer) (x : Slice) (s : CallState H)
    → read b s.world.heap ≡ (ok x, s.world.heap)
    → read_arg name b s ≡ (ok (argument name x), s)
unfolding read_arg
read_arg-argument name b none s e = ground (arith, e)
read_arg-argument name b (some xs) s e = ground (arith, e)

continue_failed :
    {S A B : Type 0} (m : Go S (Result A)) (f : A → Go S (Result B)) (s t : S) (x : RustError)
    → m s ≡ (ok (failure x), t)
    → (m >>? f) s ≡ (ok (failure x), t)
continue_failed m f s t x e = ap (λ o. ((λ u. o) >>? f) s) e

module _ {H I : Type 0} (vm : Vm H I) (call : I → Bytes → Bytes → Go (World H) (VmResult Bytes × I))
    (cache : ℕ) (id p m : Buffer) (deps : Extern H) (gas_limit : ℕ) (w : World H) where
  abbrev load : Bytes → Bytes → Bytes → Go (CallState H) (Result Bytes)
  load sum p' m' =
      vm_call (vm.get_instance cache sum deps gas_limit) >>? run_instance vm (λ j. call j p' m')

  abbrev last : Bytes → Bytes → Go (CallState H) (Result Bytes)
  last sum p' = read_arg (text "msg") m >>? load sum p'

  abbrev middle : Bytes → Go (CallState H) (Result Bytes)
  middle sum = read_arg (text "params") p >>? last sum

  abbrev first : Bytes → Go (CallState H) (Result Bytes)
  first code = pure (from_vm (vm.checksum code)) >>? middle

  middle-refused :
      (sum : Bytes) (params msg : Slice) (x : RustError)
      → read p w.heap ≡ (ok params, w.heap)
      → read m w.heap ≡ (ok msg, w.heap)
      → missing params msg ≡ some x
      → middle sum (started w) ≡ (ok (failure x), started w)
  middle-refused sum none msg x a b y =
      continue_failed (read_arg (text "params") p) (last sum) (started w) (started w) x
        (read_arg-argument (text "params") p none (started w) a ∙ ground (arith, y))
  middle-refused sum (some ps) none x a b y =
      continue_ok (read_arg (text "params") p) (last sum) (started w) (started w) ps
        (read_arg-argument (text "params") p (some ps) (started w) a)
      ∙ continue_failed (read_arg (text "msg") m) (load sum ps) (started w) (started w) x
          (read_arg-argument (text "msg") m none (started w) b ∙ ground (arith, y))
  middle-refused sum (some ps) (some ms) x a b y = ground arith

  first-refused :
      (code : Bytes) (params msg : Slice) (x : RustError) (r : VmResult Bytes)
      → vm.checksum code ≡ r
      → read p w.heap ≡ (ok params, w.heap)
      → read m w.heap ≡ (ok msg, w.heap)
      → refusal vm (some cache) (some code) params msg ≡ some x
      → first code (started w) ≡ (ok (failure x), started w)
  unfolding from_vm
  first-refused code params msg x (vm_failed e) c a b y =
      continue_failed (pure (from_vm (vm.checksum code))) middle (started w) (started w) x
        (ground (arith, c, y))
  first-refused code params msg x (vm_ok sum) c a b y =
      continue_ok (pure (from_vm (vm.checksum code))) middle (started w) (started w) sum
        (ap (λ q. (ok (from_vm q), started w)) c)
      ∙ middle-refused sum params msg x a b (ground (arith, c, y))

  do_contract-refused :
      (code params msg : Slice) (x : RustError)
      → Arguments id p m code params msg w.heap
      → refusal vm (some cache) code params msg ≡ some x
      → do_contract vm call cache id p m deps gas_limit (started w) ≡ (ok (failure x), started w)
  unfolding do_contract gas_slot
  do_contract-refused none params msg x a y =
      continue_failed (read_arg (text "code_id") id) first (started w) (started w) x
        (read_arg-argument (text "code_id") id none (started w) a.id_read ∙ ground (arith, y))
  do_contract-refused (some code) params msg x a y =
      continue_ok (read_arg (text "code_id") id) first (started w) (started w) code
        (read_arg-argument (text "code_id") id (some code) (started w) a.id_read)
      ∙ first-refused code params msg x (vm.checksum code) refl a.params_read a.msg_read y

-- A contract call with a null cache, a null argument or a code id that is no checksum answers with the
-- error for the first of these, and the world is as it was.
pub contract_entry-refused :
    {H I : Type 0} (vm : Vm H I) (call : I → Bytes → Bytes → Go (World H) (VmResult Bytes × I))
    (cache : Option ℕ) (id p m : Buffer) (db : Db H) (api : ApiRef H) (querier : QuerierRef H)
    (gas_limit : ℕ) (code params msg : Slice) (x : RustError) (w : World H)
    → Arguments id p m code params msg w.heap
    → refusal vm cache code params msg ≡ some x
    → contract_entry vm call cache id p m db api querier gas_limit w
      ≡ reporting 0 (errno_value x) (error_message x) w
unfolding contract_entry with_cache catch_unwind
contract_entry-refused vm call none id p m db api querier gas_limit code params msg x w a y =
    finish_entry-failure (λ f. (ok (failure (RustError.empty_arg (text "cache"))), f)) w w 0 x
      (ground (arith, y))
contract_entry-refused vm call (some c) id p m db api querier gas_limit code params msg x w a y =
    finish_entry-failure
      (catch_unwind (do_contract vm call c id p m (to_extern db api querier) gas_limit)) w w 0 x
      (ap (λ o. catch_unwind (λ u. o) (started w))
        (do_contract-refused vm call c id p m (to_extern db api querier) gas_limit w code params msg
          x a y))
