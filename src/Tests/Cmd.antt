-- ===== src/Tests/Cmd.antt =====
-- The demo command against the library of Tests/Contract, on a file of three bytes.
use go_cosmwasm.Base.{◌≡◌, refl, none, some, [], ◌∷◌}
use go_cosmwasm.Go.{ok, panic, pure, bounds_error}
use go_cosmwasm.Cmd.{Os, main}
use go_cosmwasm.Tests.Mock.{Mock, mock_world}
use go_cosmwasm.Tests.Contract.{mock_library}

abbrev mock_os : Os Mock
mock_os = record {
  args = (1 ∷ []) ∷ (2 ∷ []) ∷ [];
  read_file = λ name. pure (record { value = some (1 ∷ 2 ∷ 3 ∷ []); error = none });
  mkdir_all = λ name mode. pure none;
  print = λ t. pure tt;
  hex = λ id. [];
}

-- The command returns, and leaves no block.
main_runs :
    ((main mock_library mock_os mock_world).0 ≡ ok tt)
    × ((main mock_library mock_os mock_world).1.heap.blocks ≡ [])
unfolding main go_cosmwasm.Wasmer.new_wasmer go_cosmwasm.Wasmer.create go_cosmwasm.Wasmer.cleanup
    go_cosmwasm.Api.Calls.init_cache go_cosmwasm.Api.Calls.create
    go_cosmwasm.Api.Calls.release_cache go_cosmwasm.Api.Contract.sending
    go_cosmwasm.Api.Memory.send_slice go_cosmwasm.Api.Memory.free_after_send
    go_cosmwasm.Api.Memory.receive_vector go_cosmwasm.Api.Calls.finish
    go_cosmwasm.Api.Calls.finish_bytes go_cosmwasm.Ffi.Memory.from_vec
main_runs = (refl, refl)

-- Without an argument it panics.
main_without_file :
    main mock_library (record mock_os { args = (1 ∷ []) ∷ [] }) mock_world
    ≡ (panic bounds_error, mock_world)
unfolding main
main_without_file = refl
