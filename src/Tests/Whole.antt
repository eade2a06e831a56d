-- ===== src/Tests/Whole.antt =====
-- Whole calls of the contract of Tests/Program, and of one that runs out of gas.
use go_cosmwasm.Base.{ℕ, refl, none, some, [], ◌∷◌, ◌++◌, arith}
use go_cosmwasm.Base.Text.{text}
use go_cosmwasm.Go.{Bytes}
use go_cosmwasm.Ffi.Error.{VmError, vm_ok, vm_failed}
use go_cosmwasm.Ffi.Machine.{Vm}
use go_cosmwasm.Ffi.Entry.{library}
use go_cosmwasm.Ffi.Program.{Program, run}
use go_cosmwasm.Ffi.Program.Direct.{direct}
use go_cosmwasm.Ffi.Query.{query_raw}
use go_cosmwasm.Types.Queries.{Querier, decoded}
use go_cosmwasm.Api.World.{World}
use go_cosmwasm.Api.Iterator.{close_all}
use go_cosmwasm.Api.Contract.{handle, query}
use go_cosmwasm.Api.Contract.Asked.{query_whole}
use go_cosmwasm.Ffi.Entry.Query.{querying}
use go_cosmwasm.Api.Contract.Leaving.{Leaves}
use go_cosmwasm.Api.Contract.Application.{environment_of, deps_of}
use go_cosmwasm.Api.Contract.Whole.{Running, Expected, handle_whole}
use go_cosmwasm.Api.Contract.Depleted.{depleted, handle_depleted}
use go_cosmwasm.Wasmer.{execute, instantiate}
use go_cosmwasm.Wasmer.Whole.{execute_whole, instantiate_answered}
use go_cosmwasm.Tests.Mock.{Mock, mock_world, mock_iterators}
use go_cosmwasm.Tests.Wasmer.{mock_env, answering, empty_response, empty_init}
use go_cosmwasm.Tests.Contract.{zeros}
use go_cosmwasm.Tests.Program.{
  mock_app, mock_app-Realises, mock_program, mock_program-Bounded, running, mock_vm, arg, charged,
  listing, listing-Bounded, reading_iterators,
}

mock_vm-Expected :
    Expected mock_iterators mock_vm 1 mock_app 100 arg arg arg mock_program mock_world running
unfolding direct close_all go_cosmwasm.Api.Callbacks.build_db_state
    go_cosmwasm.Types.Queries.rust_query go_cosmwasm.Ffi.Query.parse_result
mock_vm-Expected = record {
  running = record {
    sound = tt;
    fresh = refl;
    realised = mock_app-Realises;
    counted = (omega arith, tt);
    room = omega arith;
    bounded = mock_program-Bounded;
    runs = record {
      checksum = arg;
      instance_of = 0;
      reads = refl;
      loads = λ w. refl;
      calls = λ w. refl;
      recycles = λ i w. refl;
    };
    undamaged = refl;
    closes = refl;
  };
  enough_gas = refl;
  small = omega arith;
}

abbrev after_run : World Mock
after_run = record mock_world {
  tables = record mock_world.tables { db_counter = 2 };
  host = charged;
}

-- A machine whose contract steps an iterator.
abbrev listing_vm : Vm Mock ℕ
listing_vm = record mock_vm {
  call_handle_raw = λ i params msg. run (deps_of reading_iterators mock_app 2) listing;
}

listing_vm-Expected :
    Expected reading_iterators listing_vm 1 mock_app 100 arg arg arg listing mock_world
      listing_vm.call_handle_raw
unfolding direct close_all go_cosmwasm.Api.Callbacks.build_db_state go_cosmwasm.Ffi.Scan.with_value
listing_vm-Expected = record {
  running = record {
    sound = tt;
    fresh = refl;
    realised = mock_app-Realises;
    counted = (omega arith, tt);
    room = omega arith;
    bounded = listing-Bounded;
    runs = record {
      checksum = arg;
      instance_of = 0;
      reads = refl;
      loads = λ w. refl;
      calls = λ w. refl;
      recycles = λ i w. refl;
    };
    undamaged = refl;
    closes = refl;
  };
  enough_gas = refl;
  small = omega arith;
}

-- The iterator is closed, for 5 of the gas, and the two parts of its entry are left to Rust.
handle_whole_example :
    Leaves
      (record { bytes = some (1 ∷ 2 ∷ 9 ∷ []); gas_used = 7; error = none })
      ((9 ∷ []) ∷ (1 ∷ 2 ∷ []) ∷ [])
      (handle reading_iterators
        (library listing_vm)
        (record { ptr = some 1 })
        (some arg)
        (some arg)
        (some arg)
        (environment_of mock_app)
        100)
      mock_world
      (record mock_world {
        tables = record mock_world.tables { db_counter = 2 };
        host = record mock_world.host { consumed = 262005 };
      })
unfolding direct close_all go_cosmwasm.Api.Callbacks.build_db_state go_cosmwasm.Ffi.Scan.with_value
handle_whole_example =
    handle_whole reading_iterators listing_vm 1 mock_app 100 arg arg arg listing mock_world
      listing_vm-Expected

-- The environment is encoded as the byte 6, and every answer decodes to an empty response.
execute_whole_example :
    Leaves
      (record { response = some empty_response; gas_used = 7; error = none })
      []
      (execute mock_iterators
        (library mock_vm)
        (answering (some empty_response))
        (record { cache = record { ptr = some 1 } })
        (some arg)
        mock_env
        (some arg)
        (environment_of mock_app)
        100)
      mock_world
      after_run
unfolding direct close_all go_cosmwasm.Api.Callbacks.build_db_state
    go_cosmwasm.Types.Queries.rust_query go_cosmwasm.Ffi.Query.parse_result
    go_cosmwasm.Wasmer.after_call go_cosmwasm.Wasmer.respond_handle
execute_whole_example =
    execute_whole mock_iterators mock_vm (answering (some empty_response)) 1 mock_app 100 arg arg
      arg mock_env mock_program mock_world refl mock_vm-Expected

mock_vm-Asked :
    Expected mock_iterators mock_vm 1 mock_app 100 arg [] arg mock_program mock_world
      (querying mock_vm)
unfolding direct close_all go_cosmwasm.Api.Callbacks.build_db_state
    go_cosmwasm.Types.Queries.rust_query go_cosmwasm.Ffi.Query.parse_result
mock_vm-Asked = record {
  running = record {
    sound = tt;
    fresh = refl;
    realised = mock_app-Realises;
    counted = (omega arith, tt);
    room = omega arith;
    bounded = mock_program-Bounded;
    runs = record {
      checksum = arg;
      instance_of = 0;
      reads = refl;
      loads = λ w. refl;
      calls = λ w. refl;
      recycles = λ i w. refl;
    };
    undamaged = refl;
    closes = refl;
  };
  enough_gas = refl;
  small = omega arith;
}

query_whole_example :
    Leaves
      (record { bytes = some (9 ∷ 4 ∷ []); gas_used = 7; error = none })
      []
      (query mock_iterators
        (library mock_vm)
        (record { ptr = some 1 })
        (some arg)
        (some arg)
        (environment_of mock_app)
        100)
      mock_world
      after_run
unfolding direct close_all go_cosmwasm.Api.Callbacks.build_db_state
    go_cosmwasm.Types.Queries.rust_query go_cosmwasm.Ffi.Query.parse_result
query_whole_example =
    query_whole mock_iterators mock_vm 1 mock_app 100 arg arg mock_program mock_world mock_vm-Asked

-- A contract that runs out of gas after it has read a value.
abbrev depleting : Program ℕ Bytes
depleting = Program.get (1 ∷ 2 ∷ []) (λ r. Program.finish (vm_failed VmError.gas_depletion) 9)

abbrev depleting_vm : Vm Mock ℕ
depleting_vm = record mock_vm {
  call_handle_raw = λ i params msg. run (deps_of mock_iterators mock_app 2) depleting;
}

depleting_vm-Running :
    Running mock_iterators depleting_vm 1 mock_app 100 arg arg arg depleting mock_world
      depleting_vm.call_handle_raw
unfolding direct close_all go_cosmwasm.Api.Callbacks.build_db_state
depleting_vm-Running = record {
  sound = tt;
  fresh = refl;
  realised = mock_app-Realises;
  counted = (omega arith, tt);
  room = omega arith;
  bounded = (omega arith, λ r. tt);
  runs = record {
    checksum = arg;
    instance_of = 0;
    reads = refl;
    loads = λ w. refl;
    calls = λ w. refl;
    recycles = λ i w. refl;
  };
  undamaged = refl;
  closes = refl;
}

handle_depleted_example :
    Leaves
      (depleted 9)
      (text "Ran out of gas" ∷ [])
      (handle mock_iterators
        (library depleting_vm)
        (record { ptr = some 1 })
        (some arg)
        (some arg)
        (some arg)
        (environment_of mock_app)
        100)
      mock_world
      (record mock_world {
        tables = record mock_world.tables { db_counter = 2 };
        host = record mock_world.host { consumed = 100000 };
      })
unfolding direct close_all go_cosmwasm.Api.Callbacks.build_db_state
handle_depleted_example =
    handle_depleted mock_iterators depleting_vm 1 mock_app 100 arg arg arg depleting mock_world 9
      depleting_vm-Running refl

-- A contract that stores a byte, and answers with 64 bytes for the key and one of a response.
abbrev founding : Program ℕ Bytes
founding = Program.set (3 ∷ []) (5 ∷ []) (λ r. Program.finish (vm_ok (zeros 64 ++ 8 ∷ [])) 7)

abbrev founding_vm : Vm Mock ℕ
founding_vm = record mock_vm {
  call_init_raw = λ i params msg. run (deps_of mock_iterators mock_app 2) founding;
}

founding_vm-Expected :
    Expected mock_iterators founding_vm 1 mock_app 100 arg arg arg founding mock_world
      founding_vm.call_init_raw
unfolding direct close_all go_cosmwasm.Api.Callbacks.build_db_state
founding_vm-Expected = record {
  running = record {
    sound = tt;
    fresh = refl;
    realised = mock_app-Realises;
    counted = (omega arith, tt);
    room = omega arith;
    bounded = (omega arith, omega arith, λ r. tt);
    runs = record {
      checksum = arg;
      instance_of = 0;
      reads = refl;
      loads = λ w. refl;
      calls = λ w. refl;
      recycles = λ i w. refl;
    };
    undamaged = refl;
    closes = refl;
  };
  enough_gas = refl;
  small = omega arith;
}

instantiate_answered_example :
    Leaves
      (record { response = some empty_init; gas_used = 7; error = none }, some (zeros 64))
      []
      (instantiate mock_iterators
        (library founding_vm)
        (answering (some empty_response))
        (record { cache = record { ptr = some 1 } })
        (some arg)
        mock_env
        (some arg)
        (environment_of mock_app)
        100)
      mock_world
      (record mock_world {
        tables = record mock_world.tables { db_counter = 2 };
        host = record mock_world.host {
          consumed = 188000;
          pairs = (3 ∷ [], 5 ∷ []) ∷ (1 ∷ 2 ∷ [], 9 ∷ []) ∷ [];
        };
      })
unfolding direct close_all go_cosmwasm.Api.Callbacks.build_db_state
instantiate_answered_example =
    instantiate_answered mock_iterators founding_vm (answering (some empty_response)) 1 mock_app 100
      arg arg arg mock_env founding mock_world 7 (zeros 64) (8 ∷ []) (some empty_init) refl
      founding_vm-Expected refl refl refl
