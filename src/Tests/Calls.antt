-- ===== src/Tests/Calls.antt =====
-- The calls for stored code.
use go_cosmwasm.Base.{refl, [], ◌∷◌, arith}
use go_cosmwasm.Api.Calls.{get_code}
use go_cosmwasm.Api.Calls.Laws.{Gives, get_code_clean}
use go_cosmwasm.Tests.Mock.{mock_world}
use go_cosmwasm.Tests.Contract.{mock_library, mock_cache, one_byte}

get_code_clean_example :
    Gives (7 ∷ 8 ∷ []) (get_code mock_library mock_cache one_byte) mock_world mock_world
get_code_clean_example =
    get_code_clean mock_library mock_cache one_byte (7 ∷ 8 ∷ []) mock_world mock_world tt
      (omega arith) refl
