-- ===== src/Tests/Refused.antt =====
-- Calls that src/lib.rs turns down or catches a panic of.
use go_cosmwasm.Base.{ℕ, ◌≡◌, refl, true, none, some, [], ◌∷◌, arith}
use go_cosmwasm.Base.Text.{text}
use go_cosmwasm.Go.{Go, throw, string_panic, Bytes}
use go_cosmwasm.Ffi.Memory.{Buffer, Ptr, malloced}
use go_cosmwasm.Ffi.Error.{RustError, VmError, VmResult, vm_ok, vm_failed}
use go_cosmwasm.Ffi.Machine.{Vm, EnclaveResult, enclave_ok, enclave_failed}
use go_cosmwasm.Ffi.Entry.{library, contract_entry, query_entry}
use go_cosmwasm.Types.Errors.{Error}
use go_cosmwasm.Api.World.{World}
use go_cosmwasm.Api.Contract.{handle, instantiate, migrate}
use go_cosmwasm.Ffi.Entry.Returns.{returned, entry_returned}
use go_cosmwasm.Api.Contract.Sending.{Ends}
use go_cosmwasm.Api.Contract.Application.{environment_of}
use go_cosmwasm.Api.Contract.Refused.{Refused, contract_refused}
use go_cosmwasm.Tests.Mock.{Mock, mock_world, mock_iterators}
use go_cosmwasm.Tests.Program.{mock_app, mock_vm, arg}

-- A code id without bytes is no checksum.
abbrev bad_checksum : RustError
bad_checksum = RustError.vm_err (text "bad checksum")

mock_vm-Refused :
    Refused mock_iterators mock_vm
      (record { ptr = some 1 })
      (environment_of mock_app)
      100
      (some [])
      (some arg)
      none
      bad_checksum
      mock_world
unfolding go_cosmwasm.Ffi.Error.of_vm go_cosmwasm.Ffi.Error.errno_value
    go_cosmwasm.Ffi.Error.error_message text
mock_vm-Refused = record {
  sound = tt;
  fresh = refl;
  refused = refl;
  not_gas = refl;
  small = omega arith;
}

contract_refused_example :
    Ends
      (record {
        bytes = none;
        gas_used = 0;
        error = some (Error.other (text "Execution error: bad checksum"));
      })
      (instantiate mock_iterators
        (library mock_vm)
        (record { ptr = some 1 })
        (some [])
        (some arg)
        none
        (environment_of mock_app)
        100)
      mock_world
      (record mock_world { tables = record mock_world.tables { db_counter = 2 } })
    × Ends
        (record {
          bytes = none;
          gas_used = 0;
          error = some (Error.other (text "Execution error: bad checksum"));
        })
        (handle mock_iterators
          (library mock_vm)
          (record { ptr = some 1 })
          (some [])
          (some arg)
          none
          (environment_of mock_app)
          100)
        mock_world
        (record mock_world { tables = record mock_world.tables { db_counter = 2 } })
    × Ends
        (record {
          bytes = none;
          gas_used = 0;
          error = some (Error.other (text "Execution error: bad checksum"));
        })
        (migrate mock_iterators
          (library mock_vm)
          (record { ptr = some 1 })
          (some [])
          (some arg)
          none
          (environment_of mock_app)
          100)
        mock_world
        (record mock_world { tables = record mock_world.tables { db_counter = 2 } })
unfolding go_cosmwasm.Ffi.Error.errno_value go_cosmwasm.Ffi.Error.error_message text
contract_refused_example =
    contract_refused mock_iterators mock_vm (record { ptr = some 1 }) (environment_of mock_app) 100
      (some []) (some arg) none bad_checksum mock_world mock_vm-Refused

-- The arguments are one block of malloc's, and the machine panics on every call.
abbrev lent_world : World Mock
lent_world = record mock_world {
  heap = record { next = 1; blocks = (0, record { owner = malloced; bytes = arg }) ∷ [] };
}

abbrev lent_buffer : Buffer
lent_buffer = record { ptr = Ptr.at 0; len = 1; cap = 1 }

abbrev panicking : ℕ → Bytes → Bytes → Go (World Mock) (VmResult Bytes × ℕ)
panicking i params msg = throw string_panic

abbrev panicking_vm : Vm Mock ℕ
panicking_vm = record mock_vm { call_query_raw = λ i m. throw string_panic }

entry_returned_example :
    (returned
        (contract_entry panicking_vm panicking
          (some 1)
          lent_buffer
          lent_buffer
          lent_buffer
          (record { gas_meter = none; state = none })
          (record { state = none })
          (record { state = none })
          100
          lent_world).0
      ≡ true)
    × (returned
          (query_entry panicking_vm
            (some 1)
            lent_buffer
            lent_buffer
            (record { gas_meter = none; state = none })
            (record { state = none })
            (record { state = none })
            100
            lent_world).0
        ≡ true)
unfolding go_cosmwasm.Ffi.Machine.do_contract go_cosmwasm.Ffi.Machine.do_query
    go_cosmwasm.Ffi.Call.gas_slot go_cosmwasm.Ffi.Call.read_arg go_cosmwasm.Ffi.Memory.read
    go_cosmwasm.Ffi.Error.from_vm go_cosmwasm.Ffi.Machine.run_instance
entry_returned_example =
    entry_returned panicking_vm panicking (some 1) lent_buffer lent_buffer lent_buffer
      (record { gas_meter = none; state = none }) (record { state = none })
      (record { state = none }) 100 lent_world (λ c. refl) (λ c. refl)
