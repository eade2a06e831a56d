-- ===== src/Tests/Buffers.antt =====
-- A machine whose contract asks the querier that its instance was made with, between the buffers of a
-- call.
use mathlib.Core.Path.{subst}
use go_cosmwasm.Base.{refl, ap, Option, none, some, [], ◌∷◌}
use go_cosmwasm.Go.{Go, Outcome, ok, pure, ◌>>=◌, Bytes}
use go_cosmwasm.Ffi.Error.{VmResult, vm_ok}
use go_cosmwasm.Ffi.Machine.{Vm}
use go_cosmwasm.Ffi.Entry.{library}
use go_cosmwasm.Ffi.Entry.Sparing.{SparingVm, library_buffers_freed}
use go_cosmwasm.Ffi.Query.{query_raw}
use go_cosmwasm.Ffi.Query.Agrees.{outside}
use go_cosmwasm.Ffi.Query.Sparing.{SparingQuerier, query_raw-Spares}
use go_cosmwasm.Types.Queries.{Querier}
use go_cosmwasm.Api.World.{World, on_host}
use go_cosmwasm.Api.Contract.{Environment, instantiate, handle, migrate}
use go_cosmwasm.Api.Contract.Lent.{Keeps}
use go_cosmwasm.Api.Contract.Sparing.{
  world_heap, Spared-ended, SparesIn, SparesIn-const, SparesIn-bind,
}
use go_cosmwasm.Tests.Mock.{Mock, mock_world, mock_iterators}
use go_cosmwasm.Tests.Contract.{mock_cache, mock_environment, one_byte}
use go_cosmwasm.Tests.Program.{mock_querier, mock_json, mock_app, machine}

abbrev Asker : Type 0
Asker = Option (Querier (World Mock))

abbrev asking : Asker → Bytes → Bytes → Go (World Mock) (VmResult Bytes × Asker)
asking q params msg = do
  r ← query_raw mock_json mock_app.serde q (8 ∷ []) 50
  pure (vm_ok (8 ∷ []), q)

abbrev asking_vm : Vm Mock Asker
asking_vm = machine (λ deps gas. deps.querier.state) asking (λ q. 5)

asking-Spares :
    (q : Asker) (params msg : Bytes) → SparingQuerier q → SparesIn world_heap (asking q params msg)
asking-Spares q params msg x =
    SparesIn-bind world_heap (query_raw mock_json mock_app.serde q (8 ∷ []) 50)
      (λ r. pure (vm_ok (8 ∷ []), q)) (query_raw-Spares mock_json mock_app.serde q (8 ∷ []) 50 x)
      λ r. SparesIn-const world_heap (ok (vm_ok (8 ∷ []), q))

abbrev instance_in : Outcome (VmResult Asker) × World Mock → Asker
instance_in (ok (vm_ok q), w) = q
instance_in o = none

asking_vm-SparingVm : SparingVm asking_vm asking
asking_vm-SparingVm = record {
  loads = λ cache sum deps gas x. SparesIn-const world_heap (ok (vm_ok deps.querier.state));
  calls = λ cache sum deps gas q w u params msg x e.
      subst (λ q. SparesIn world_heap (asking q params msg)) (ap instance_in e)
        (asking-Spares deps.querier.state params msg x);
  recycles = λ q. SparesIn-const world_heap (ok tt);
}

abbrev asking_environment : Environment Mock
asking_environment = record mock_environment { querier = some (outside mock_querier) }

on_host-Spares : {A : Type 0} (m : Go Mock A) → SparesIn world_heap (on_host m)
on_host-Spares m = record {
  spares = λ w v. Spared-ended world_heap w (on_host m w).1 (on_host m w).0 (v, λ n. refl);
}

library_buffers_freed_example :
    Keeps
      (instantiate mock_iterators
        (library asking_vm)
        mock_cache
        one_byte
        one_byte
        one_byte
        asking_environment
        100)
      mock_world
    × Keeps
        (handle mock_iterators
          (library asking_vm)
          mock_cache
          one_byte
          one_byte
          one_byte
          asking_environment
          100)
        mock_world
    × Keeps
        (migrate mock_iterators
          (library asking_vm)
          mock_cache
          one_byte
          one_byte
          one_byte
          asking_environment
          100)
        mock_world
library_buffers_freed_example =
    library_buffers_freed mock_iterators asking_vm mock_cache one_byte one_byte one_byte
      asking_environment 100 mock_world asking_vm-SparingVm asking_vm-SparingVm asking_vm-SparingVm
      (
        λ request gas. on_host-Spares (mock_querier.query request gas),
        on_host-Spares mock_querier.gas_consumed,
      )
      tt
