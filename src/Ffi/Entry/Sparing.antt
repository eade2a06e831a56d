-- ===== src/Ffi/Entry/Sparing.antt =====
-- The contract functions of src/lib.rs leave malloc's heap alone if the machine does.
use go_cosmwasm.Base.{ℕ, ◌≡◌, refl, Option, none, some, inl, inr, [], arith}
use go_cosmwasm.Base.Text.{text}
use go_cosmwasm.Go.{Go, Outcome, ok, panic, fault, pure, ◌>>=◌, Bytes, Slice}
use go_cosmwasm.Ffi.Memory.{Heap, IsValid, Buffer, read, from_vec}
use go_cosmwasm.Ffi.Error.{
  RustError, Result, success, failure, VmResult, vm_ok, vm_failed, from_vm, set_error,
  error_message, errno_value,
}
use go_cosmwasm.Ffi.Call.{
  CallState, ◌>>?◌, in_world, in_heap, read_arg, gas_slot, write_gas, clear_error, report_error,
  handle_c_error, catch_unwind, calling, fresh_outs,
}
use go_cosmwasm.Ffi.Machine.{Vm, Extern, to_extern, vm_call, run_instance, do_contract}
use go_cosmwasm.Ffi.Entry.{library, contract_entry, finish_entry, with_cache}
use go_cosmwasm.Ffi.Query.Sparing.{SparingQuerier}
use go_cosmwasm.Api.Host.{DbIterator}
use go_cosmwasm.Api.Library.{Cache}
use go_cosmwasm.Api.Contract.{Environment, instantiate, handle, migrate}
use go_cosmwasm.Api.World.{World, on_heap}
use go_cosmwasm.Api.Contract.Buffers.{LeavesMalloc, contract_buffers_freed}
use go_cosmwasm.Api.Contract.Lent.{Keeps, raw_parts-heap}
use go_cosmwasm.Api.Contract.Sparing.{
  whole, world_heap, Spared, SparesIn, SparesIn-const, SparesIn-bind, later, from_vec-Spares,
  reading-Spares, on_heap-Spares,
}

-- What is relied on of the machine: it leaves malloc's heap alone as long as the querier that an
-- instance was made with does.
pub record SparingVm {H I : Type 0} (vm : Vm H I)
    (call : I → Bytes → Bytes → Go (World H) (VmResult Bytes × I)) : Type 0 where
  pub loads :
      (cache : ℕ) (checksum : Bytes) (deps : Extern H) (gas_limit : ℕ)
      → SparingQuerier deps.querier.state
      → SparesIn world_heap (vm.get_instance cache checksum deps gas_limit)
  pub calls :
      (cache : ℕ) (checksum : Bytes) (deps : Extern H) (gas_limit : ℕ) (i : I) (w u : World H)
      (params msg : Bytes)
      → SparingQuerier deps.querier.state
      → vm.get_instance cache checksum deps gas_limit w ≡ (ok (vm_ok i), u)
      → SparesIn world_heap (call i params msg)
  pub recycles : (i : I) → SparesIn world_heap (vm.recycle i)

abbrev state_heap : {H : Type 0} → CallState H → Heap
state_heap f = f.world.heap

read-heap : (b : Buffer) (h : Heap) → (read b h).1 ≡ h
unfolding read
read-heap b h = ground (arith, raw_parts-heap b.ptr b.len h)

set_error-Spares : (e : RustError) → SparesIn whole (set_error e)
unfolding set_error
set_error-Spares e =
    SparesIn-bind whole (from_vec (error_message e)) _ (from_vec-Spares (error_message e))
      λ b. SparesIn-const whole (ok (errno_value e, b))

module _ {H : Type 0} where
  placed :
      {A : Type 0} (f : CallState H) (o : Outcome A × World H)
      → Spared world_heap f.world o
      → Spared state_heap f (o.0, record f { world = o.1 })
  placed f (ok a, w) x = x
  placed f (panic p, w) x = x
  placed f (fault, w) x = tt

  in_world-Spares :
      {A : Type 0} (m : Go (World H) A)
      → SparesIn world_heap m
      → SparesIn (state_heap {H = H}) (in_world m)
  in_world-Spares m x = record { spares = λ f v. placed f (m f.world) (x.spares f.world v) }

  heap-Spares :
      {A : Type 0} (m : Go Heap A) → SparesIn whole m → SparesIn (state_heap {H = H}) (in_heap m)
  heap-Spares m x = in_world-Spares (on_heap m) (on_heap-Spares m x)

  -- The operator `?`.
  try-Spares :
      {A B : Type 0} (m : Go (CallState H) (Result A)) (f : A → Go (CallState H) (Result B))
      → SparesIn state_heap m
      → ((a : A) → SparesIn state_heap (f a))
      → SparesIn state_heap (m >>? f)
  try-Spares m f x k =
      SparesIn-bind state_heap m (λ r. elim r [ success a ↦ f a | failure e ↦ pure (failure e) ]) x
        λ r.
          elim r
            as (λ r.
              SparesIn state_heap (elim r [ success a ↦ f a | failure e ↦ pure (failure e) ])) [
                | success a ↦ k a
                | failure e ↦ SparesIn-const state_heap (ok (failure e))
              ]

  read_arg-Spares : (name : Bytes) (b : Buffer) → SparesIn (state_heap {H = H}) (read_arg name b)
  unfolding read_arg
  read_arg-Spares name b =
      SparesIn-bind state_heap (in_heap (read b)) _
        (heap-Spares (read b) (reading-Spares (read b) (read-heap b)))
        λ r. SparesIn-const state_heap _

  slot :
      (o : Option ℕ) (f : CallState H)
      → IsValid f.world.heap
      → Spared state_heap {A = Result (Unit {0})} f (elim o [
        | none ↦ (ok (failure (RustError.empty_arg (text "gas_used"))), f)
        | some g ↦ (ok (success tt), f)
      ])
  slot none f v = (v, λ n. refl)
  slot (some g) f v = (v, λ n. refl)

  gas_slot-Spares : SparesIn (state_heap {H = H}) gas_slot
  unfolding gas_slot
  gas_slot-Spares = record { spares = λ f v. slot f.outs.gas_used f v }

  report_error-at :
      (e : RustError) (o : Option Buffer) (f : CallState H)
      → IsValid f.world.heap
      → Spared state_heap {A = Unit {0}} f (elim o [
        | none ↦ (ok tt, record f { outs = record f.outs { errno = errno_value e } })
        | some old ↦
            (do
              (n, msg) ← in_heap (set_error e)
              λ g. (ok tt, record g { outs = record g.outs { errno = n; err = some msg } }))
              f
      ])
  report_error-at e none f v = (v, λ n. refl)
  report_error-at e (some old) f v =
      (SparesIn-bind state_heap (in_heap (set_error e))
          (λ r g. (ok tt, record g { outs = record g.outs { errno = r.0; err = some r.1 } }))
          (heap-Spares (set_error e) (set_error-Spares e))
          λ r. record { spares = λ g u. (u, λ n. refl) }).spares
        f v

  report_error-Spares : (e : RustError) → SparesIn (state_heap {H = H}) (report_error e)
  unfolding report_error
  report_error-Spares e = record { spares = λ f v. report_error-at e f.outs.err f v }

  handle_c_error-Spares : (r : Result Bytes) → SparesIn (state_heap {H = H}) (handle_c_error r)
  unfolding handle_c_error clear_error
  handle_c_error-Spares (success xs) = record { spares = λ f v. (v, λ n. refl) }
  handle_c_error-Spares (failure e) =
      SparesIn-bind state_heap (report_error e) _ (report_error-Spares e)
        λ u. SparesIn-const state_heap (ok [])

  finish_entry-Spares :
      (m : Go (CallState H) (Result Bytes))
      → SparesIn state_heap m
      → SparesIn state_heap (finish_entry m)
  unfolding finish_entry
  finish_entry-Spares m x = SparesIn-bind state_heap m _ x λ r.
      SparesIn-bind state_heap (handle_c_error r) _ (handle_c_error-Spares r)
        λ xs. heap-Spares (from_vec xs) (from_vec-Spares xs)

  caught :
      {A : Type 0} (f : CallState H) (o : Outcome (Result A) × CallState H)
      → Spared state_heap f o
      → Spared state_heap f (catch_unwind (λ u. o) f)
  unfolding catch_unwind
  caught f (ok a, g) x = x
  caught f (panic p, g) x = x
  caught f (fault, g) x = tt

  with_cache-Spares :
      {A : Type 0} (cache : Option ℕ) (body : ℕ → Go (CallState H) (Result A))
      → ((c : ℕ) → SparesIn state_heap (body c))
      → SparesIn state_heap (with_cache cache body)
  unfolding with_cache catch_unwind
  with_cache-Spares none body x = SparesIn-const state_heap _
  with_cache-Spares (some c) body x = record {
    spares = λ f v. caught f (body c f) ((x c).spares f v);
  }

  left :
      {A : Type 0} (w : World H) (o : Outcome A × CallState H)
      → Spared state_heap (record { world = w; outs = fresh_outs }) o
      → Keeps (calling (λ u. o)) w
  unfolding calling
  left w (ok a, f) (v, same) = record { kept = inr same }
  left w (panic p, f) x = record { kept = inl refl }
  left w (fault, f) x = record { kept = inl refl }

module _ {H I : Type 0} (vm : Vm H I) (call : I → Bytes → Bytes → Go (World H) (VmResult Bytes × I))
    (s : SparingVm vm call) where
  run_instance-Spares :
      (i : I) (p m : Bytes)
      → SparesIn world_heap (call i p m)
      → SparesIn state_heap (run_instance vm (λ j. call j p m) i)
  unfolding run_instance write_gas
  run_instance-Spares i p m x =
      SparesIn-bind state_heap (in_world (call i p m)) _ (in_world-Spares (call i p m) x) λ r.
        SparesIn-bind state_heap (write_gas (vm.used_internally r.1)) _
          (record { spares = λ f v. (v, λ n. refl) })
          λ u.
            SparesIn-bind state_heap (in_world (vm.recycle r.1)) _
              (in_world-Spares (vm.recycle r.1) (s.recycles r.1))
              λ u. SparesIn-const state_heap (ok (from_vm r.0))

  -- What follows the machine's answer to the request for an instance.
  loaded :
      (c : ℕ) (sum : Bytes) (deps : Extern H) (gas_limit : ℕ) (p m : Bytes) (f : CallState H)
      (o : Outcome (VmResult I) × World H)
      → SparingQuerier deps.querier.state
      → vm.get_instance c sum deps gas_limit f.world ≡ o
      → Spared state_heap f (o.0, record f { world = o.1 })
      → Spared state_heap f (
          (((λ g. (o.0, record g { world = o.1 })) >>= λ r. pure (from_vm r))
              >>? run_instance vm (λ i. call i p m))
            f)
  unfolding from_vm
  loaded c sum deps gas_limit p m f (ok (vm_ok i), u) q e (v, same) =
      later state_heap f (record f { world = u }) _ same
        ((run_instance-Spares i p m (s.calls c sum deps gas_limit i f.world u p m q e)).spares
          (record f { world = u }) v)
  loaded c sum deps gas_limit p m f (ok (vm_failed x), u) q e y = y
  loaded c sum deps gas_limit p m f (panic x, u) q e y = y
  loaded c sum deps gas_limit p m f (fault, u) q e y = tt

  instance-Spares :
      (c : ℕ) (sum : Bytes) (deps : Extern H) (gas_limit : ℕ) (p m : Bytes)
      → SparingQuerier deps.querier.state
      → SparesIn state_heap
          (vm_call (vm.get_instance c sum deps gas_limit) >>? run_instance vm (λ i. call i p m))
  instance-Spares c sum deps gas_limit p m q = record {
    spares = λ f v.
        let o = vm.get_instance c sum deps gas_limit f.world in
        loaded c sum deps gas_limit p m f o q refl
          (placed f o ((s.loads c sum deps gas_limit q).spares f.world v));
  }

  do_contract-Spares :
      (c : ℕ) (code_id params msg : Buffer) (deps : Extern H) (gas_limit : ℕ)
      → SparingQuerier deps.querier.state
      → SparesIn state_heap (do_contract vm call c code_id params msg deps gas_limit)
  unfolding do_contract
  do_contract-Spares c code_id params msg deps gas_limit q =
      try-Spares gas_slot _ gas_slot-Spares λ slot.
        try-Spares (read_arg (text "code_id") code_id) _ (read_arg-Spares (text "code_id") code_id)
          λ id.
            try-Spares (pure (from_vm (vm.checksum id))) _
              (SparesIn-const state_heap (ok (from_vm (vm.checksum id))))
              λ sum.
                try-Spares (read_arg (text "params") params) _
                  (read_arg-Spares (text "params") params)
                  λ p.
                    try-Spares (read_arg (text "msg") msg) _ (read_arg-Spares (text "msg") msg)
                      λ m. instance-Spares c sum deps gas_limit p m q

  -- The function that Go calls neither frees a block of malloc's nor makes one, or corrupts memory.
  pub contract_entry-LeavesMalloc : LeavesMalloc (contract_entry vm call)
  unfolding contract_entry
  contract_entry-LeavesMalloc cache code_id params msg db api querier gas_limit w q v =
      let deps : Extern H = to_extern db api querier in
      let body : Go (CallState H) (Result Bytes) =
        with_cache cache λ c. do_contract vm call c code_id params msg deps gas_limit in
      let spared =
        finish_entry-Spares body (
          with_cache-Spares cache _
            λ c. do_contract-Spares c code_id params msg deps gas_limit q) in
      let start : CallState H = record { world = w; outs = fresh_outs } in
      record { kept = (left w (finish_entry body start) (spared.spares start v)).kept }

-- From a valid heap, Instantiate, Handle and Migrate, together with src/lib.rs, neither free a
-- block of malloc's that was there nor leave one of their own: each buffer that they lend is freed,
-- on every path, an error or a panic included, or memory is corrupted. The machine leaves malloc's
-- heap alone as long as the querier of its instance does, as `SparingVm` says, and the
-- application's querier does.
pub library_buffers_freed :
    {H I : Type 0} (d : DbIterator H) (vm : Vm H I) (cache : Cache) (code_id params msg : Slice)
    (env : Environment H) (gas_limit : ℕ) (w : World H)
    → SparingVm vm vm.call_init_raw
    → SparingVm vm vm.call_handle_raw
    → SparingVm vm vm.call_migrate_raw
    → SparingQuerier env.querier
    → IsValid w.heap
    → Keeps (instantiate d (library vm) cache code_id params msg env gas_limit) w
      × Keeps (handle d (library vm) cache code_id params msg env gas_limit) w
      × Keeps (migrate d (library vm) cache code_id params msg env gas_limit) w
unfolding library
library_buffers_freed d vm cache code_id params msg env gas_limit w i h m q v =
    contract_buffers_freed d (library vm) cache code_id params msg env gas_limit w
      (contract_entry-LeavesMalloc vm vm.call_init_raw i)
      (contract_entry-LeavesMalloc vm vm.call_handle_raw h)
      (contract_entry-LeavesMalloc vm vm.call_migrate_raw m) q v
