-- ===== src/Tests/Storage.antt =====
-- The storage calls of a contract against the mock store.
use go_cosmwasm.Base.{some, [], ◌∷◌, arith}
use go_cosmwasm.Go.{ok}
use go_cosmwasm.Ffi.Storage.{get, set, remove}
use go_cosmwasm.Ffi.Storage.Refines.{Refines, metered, get-Refines, set-Refines, remove-Refines}
use go_cosmwasm.Tests.Mock.{mock_db, mock_meter, mock_world}

get-Refines_example :
    Refines mock_world
      (ok (some (9 ∷ []), 99000), record mock_world.host { consumed = 100000 })
      (get mock_db mock_meter (1 ∷ 2 ∷ []) mock_world)
get-Refines_example = get-Refines mock_db mock_meter (1 ∷ 2 ∷ []) mock_world tt (omega arith)

set-Refines_example :
    Refines mock_world
      (metered mock_meter (mock_db.store.set (some (4 ∷ [])) (some [])) mock_world.host)
      (set mock_db mock_meter (4 ∷ []) [] mock_world)
set-Refines_example =
    set-Refines mock_db mock_meter (4 ∷ []) [] mock_world tt (omega arith) (omega arith)

remove-Refines_example :
    Refines mock_world
      (metered mock_meter (mock_db.store.delete (some (4 ∷ []))) mock_world.host)
      (remove mock_db mock_meter (4 ∷ []) mock_world)
remove-Refines_example = remove-Refines mock_db mock_meter (4 ∷ []) mock_world tt (omega arith)
