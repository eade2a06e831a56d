-- ===== src/Tests/Reentrant.antt =====
-- A contract that another one asks, on the mock store.
use mathlib.Core.Path.{subst}
use go_cosmwasm.Base.{
  ℕ, ◌+◌, ◌<◌, ◌^◌, ◌≡◌, refl, ap, Bool, true, false, leb, Option, none, some, [], ◌∷◌, length,
  arith,
}
use go_cosmwasm.Base.Text.{text}
use go_cosmwasm.Go.{ok, Bytes, Slice}
use go_cosmwasm.Ffi.Error.{VmError, vm_ok, vm_failed, of_vm, error_message}
use go_cosmwasm.Ffi.Agreement.{intact}
use go_cosmwasm.Ffi.Machine.{Vm}
use go_cosmwasm.Ffi.Entry.Contract.{ending}
use go_cosmwasm.Ffi.Program.{Program, Bounded, run}
use go_cosmwasm.Ffi.Program.Direct.{start, direct}
use go_cosmwasm.Ffi.Query.Realises.{Echoes}
use go_cosmwasm.Ffi.Query.{query_raw}
use go_cosmwasm.Ffi.Status.{done}
use go_cosmwasm.Types.Queries.{QueryRequest, decoded}
use go_cosmwasm.Api.Callbacks.{DbState}
use go_cosmwasm.Api.Iterator.{close_all}
use go_cosmwasm.Api.Contract.Application.{App, environment_of, deps_of}
use go_cosmwasm.Api.Contract.Callee.{Callee, Callable, callee-Running}
use go_cosmwasm.Api.Contract.Reentrant.{
  contract_querier, asks_through, contract_querier-Realises, query_reentrant,
}
use go_cosmwasm.Ffi.Entry.{library}
use go_cosmwasm.Api.Contract.{handle, query}
use go_cosmwasm.Api.Contract.Asked.{query_depleted}
use go_cosmwasm.Api.Contract.Depleted.{depleted}
use go_cosmwasm.Ffi.Entry.Query.{querying}
use go_cosmwasm.Api.Contract.Leaving.{Leaves}
use go_cosmwasm.Api.Contract.Whole.{Running, Expected, handle_whole}
use go_cosmwasm.Tests.Mock.{Mock, find, bytes_in, mock_store, mock_world, mock_iterators}
use go_cosmwasm.Tests.Program.{
  mock_app, mock_app-Realises, mock_json, mock_querier, machine, mock_program, mock_program-Bounded,
  arg,
}

-- Its reads cost 10 of the gas, which has no limit.
abbrev unlimited : App Mock Bytes
unlimited = record mock_app {
  store = record mock_store {
    get = λ k m. (ok (find (bytes_in k) m.pairs), record m { consumed = m.consumed + 10 });
  };
}

-- A call of the contract by its number and its gas limit, and the gas that was used.
record Instance : Type 0 where
  counter : ℕ
  limit : ℕ
  used : ℕ

-- It reads a value and answers with the byte 5, for 17 of the gas in all, or runs out of gas.
abbrev spending : Bool → ℕ → Program Instance Bytes
spending true limit =
    Program.get (1 ∷ 2 ∷ [])
      (λ r. Program.finish (vm_ok (5 ∷ [])) (record { counter = 0; limit = limit; used = 17 }))
spending false limit = Program.get (1 ∷ 2 ∷ []) (λ r.
    Program.finish (vm_failed VmError.gas_depletion)
      (record { counter = 0; limit = limit; used = limit }))

abbrev reading : ℕ → Program Instance Bytes
reading limit = spending (leb 17 limit) limit

abbrev counter_of : Option (DbState Mock) → ℕ
counter_of none = 0
counter_of (some d) = d.iterator_stack_id

-- The instance knows the call that it was made for, and its limit.
abbrev reading_vm : Vm Mock Instance
reading_vm =
    machine (λ deps gas. record { counter = counter_of deps.storage.state; limit = gas; used = 0 })
      (λ i params msg. run (deps_of mock_iterators unlimited i.counter) (reading i.limit))
      (λ i. i.used)

abbrev reading_callee : Callee Mock Instance Bytes
reading_callee = record { code = 1 ∷ []; msg = 2 ∷ []; prog = reading; app = unlimited }

-- A request with a custom part is for the contract.
abbrev routed : Slice → Option (Callee Mock Instance Bytes)
routed none = none
routed (some xs) = some reading_callee

abbrev routing : QueryRequest → Option (Callee Mock Instance Bytes)
routing request = routed request.custom

-- What is relied on, whether or not the gas suffices.
spending-closes :
    (b : Bool) (limit k : ℕ) (s : Mock)
    → let l = (direct (deps_of mock_iterators unlimited k) (spending b limit) (start s)).1 in
      (close_all mock_iterators l.frame l.host).0 ≡ ok tt
unfolding direct close_all go_cosmwasm.Api.Callbacks.build_db_state
spending-closes true limit k s = refl
spending-closes false limit k s = refl

spending-undamaged :
    (b : Bool) (limit k : ℕ) (s : Mock)
    → intact (direct (deps_of mock_iterators unlimited k) (spending b limit) (start s)).0 ≡ true
unfolding direct go_cosmwasm.Api.Callbacks.build_db_state
spending-undamaged true limit k s = refl
spending-undamaged false limit k s = refl

spending-small :
    (b : Bool) (limit k : ℕ) (s : Mock)
    → length
        (ending reading_vm
          (direct (deps_of mock_iterators unlimited k) (spending b limit) (start s)).0).bytes
      < 2 ^ 31
unfolding direct error_message of_vm go_cosmwasm.Api.Callbacks.build_db_state
    go_cosmwasm.Base.Text.text
spending-small true limit k s = omega arith
spending-small false limit k s = omega arith

spending-Bounded : (b : Bool) (limit k : ℕ) → Bounded k (spending b limit)
spending-Bounded true limit k = (omega arith, λ r. tt)
spending-Bounded false limit k = (omega arith, λ r. tt)

reading_callee-Callable : Callable mock_iterators reading_vm 1 reading_callee
unfolding direct go_cosmwasm.Api.Callbacks.build_db_state go_cosmwasm.Api.Library.build_db
reading_callee-Callable = record {
  realised = mock_app-Realises;
  bounded = λ limit k positive. spending-Bounded (leb 17 limit) limit k;
  runs = λ limit k. record {
    checksum = 1 ∷ [];
    instance_of = record { counter = k; limit = limit; used = 0 };
    reads = refl;
    loads = λ w. refl;
    calls = λ w. refl;
    recycles = λ i w. refl;
  };
  undamaged = λ limit k s. spending-undamaged (leb 17 limit) limit k s;
  closes = λ limit k s. spending-closes (leb 17 limit) limit k s;
  small = λ limit k s. spending-small (leb 17 limit) limit k s;
}

abbrev or_reading : Option (Callee Mock Instance Bytes) → Callee Mock Instance Bytes
or_reading none = reading_callee
or_reading (some c) = c

routed-Callable :
    (xs : Slice) (c : Callee Mock Instance Bytes)
    → routed xs ≡ some c
    → Callable mock_iterators reading_vm 1 c
routed-Callable none c e = grind (arith, e)
routed-Callable (some xs) c e =
    subst (λ c. Callable mock_iterators reading_vm 1 c) (ap or_reading e) reading_callee-Callable

-- The call is counted, and its read is paid for.
asks_reading :
    asks_through mock_iterators reading_vm 1 mock_json routing mock_querier
      (8 ∷ [])
      50
      1
      mock_world.host
    ≡ (
      ok (decoded (some (4 ∷ [])), 10),
      record { host = record mock_world.host { consumed = 1010 }; spent = 1; given = [] },
    )
unfolding direct close_all go_cosmwasm.Api.Callbacks.build_db_state
    go_cosmwasm.Types.Queries.rust_query
asks_reading = refl

-- Under a limit of 5 it runs out of gas, and its message stays allocated.
asks_starved :
    asks_through mock_iterators reading_vm 1 mock_json routing mock_querier
      (8 ∷ [])
      5
      1
      mock_world.host
    ≡ (
      ok (decoded (some (4 ∷ [])), 10),
      record {
        host = record mock_world.host { consumed = 1010 };
        spent = 1;
        given = text "Ran out of gas" ∷ [];
      },
    )
unfolding direct close_all error_message of_vm go_cosmwasm.Api.Callbacks.build_db_state
    go_cosmwasm.Types.Queries.rust_query go_cosmwasm.Types.Errors.to_system_error
    go_cosmwasm.Types.Errors.to_std_error
asks_starved = refl

query_reentrant_example :
    Echoes mock_world
      (
        ok (done (4 ∷ []), 10),
        record { host = record mock_world.host { consumed = 1010 }; spent = 1; given = [] },
      )
      (query_raw mock_json mock_app.serde
        (some (contract_querier mock_iterators reading_vm 1 routing mock_querier))
        (8 ∷ [])
        50
        mock_world)
unfolding direct close_all go_cosmwasm.Api.Callbacks.build_db_state
    go_cosmwasm.Types.Queries.rust_query go_cosmwasm.Ffi.Query.parse_result
query_reentrant_example =
    query_reentrant mock_iterators reading_vm 1 mock_json mock_app.serde routing mock_querier
      (8 ∷ []) 50 mock_world (λ request. routed-Callable request.custom) (omega arith, tt) tt
      (omega arith) (omega arith)

-- The contract of Tests/Program with this querier: it reads, stores, and asks the other contract.
abbrev asking_app : App Mock Bytes
asking_app = record mock_app {
  querier = contract_querier mock_iterators reading_vm 1 routing mock_querier;
  asks = asks_through mock_iterators reading_vm 1 mock_json routing mock_querier;
}

abbrev asking_vm : Vm Mock ℕ
asking_vm =
    machine (λ deps gas. counter_of deps.storage.state)
      (λ i params msg. run (deps_of mock_iterators asking_app i) mock_program) (λ i. i)

asking_vm-Expected :
    Expected mock_iterators asking_vm 1 asking_app 100 arg arg arg mock_program mock_world
      asking_vm.call_handle_raw
unfolding direct close_all go_cosmwasm.Api.Callbacks.build_db_state go_cosmwasm.Api.Library.build_db
    go_cosmwasm.Types.Queries.rust_query go_cosmwasm.Ffi.Query.parse_result
asking_vm-Expected = record {
  running = record {
    sound = tt;
    fresh = refl;
    realised =
        contract_querier-Realises mock_iterators reading_vm 1 mock_json routing mock_querier
          (λ request. routed-Callable request.custom);
    counted = (omega arith, tt);
    room = omega arith;
    bounded = mock_program-Bounded;
    runs = record {
      checksum = arg;
      instance_of = 2;
      reads = refl;
      loads = λ w. refl;
      calls = λ w. refl;
      recycles = λ i w. refl;
    };
    undamaged = refl;
    closes = refl;
  };
  enough_gas = refl;
  small = omega arith;
}

-- Two calls are counted, and the gas of the read is the query's.
asking_handled :
    Leaves
      (record { bytes = some (9 ∷ 4 ∷ []); gas_used = 17; error = none })
      []
      (handle mock_iterators
        (library asking_vm)
        (record { ptr = some 1 })
        (some arg)
        (some arg)
        (some arg)
        (environment_of asking_app)
        100)
      mock_world
      (record mock_world {
        tables = record mock_world.tables { db_counter = 3 };
        host = record mock_world.host {
          consumed = 287010;
          pairs = (3 ∷ [], 5 ∷ []) ∷ mock_world.host.pairs;
        };
      })
unfolding direct close_all go_cosmwasm.Api.Callbacks.build_db_state go_cosmwasm.Api.Library.build_db
    go_cosmwasm.Types.Queries.rust_query go_cosmwasm.Ffi.Query.parse_result
asking_handled =
    handle_whole mock_iterators asking_vm 1 asking_app 100 arg arg arg mock_program mock_world
      asking_vm-Expected

reading_vm-Running :
    Running mock_iterators reading_vm 1 unlimited 5
      (1 ∷ [])
      []
      (2 ∷ [])
      (reading 5)
      mock_world
      (querying reading_vm)
unfolding direct close_all go_cosmwasm.Api.Callbacks.build_db_state
reading_vm-Running =
    callee-Running mock_iterators reading_vm 1 reading_callee 5 mock_world reading_callee-Callable
      tt (omega arith, tt) (omega arith) (omega arith)

query_depleted_example :
    Leaves
      (depleted 5)
      (text "Ran out of gas" ∷ [])
      (query mock_iterators
        (library reading_vm)
        (record { ptr = some 1 })
        (some (1 ∷ []))
        (some (2 ∷ []))
        (environment_of unlimited)
        5)
      mock_world
      (record mock_world {
        tables = record mock_world.tables { db_counter = 2 };
        host = record mock_world.host { consumed = 1010 };
      })
unfolding direct close_all go_cosmwasm.Api.Callbacks.build_db_state
query_depleted_example =
    query_depleted mock_iterators reading_vm 1 unlimited 5 (1 ∷ []) (2 ∷ []) (reading 5) mock_world
      (record { counter = 0; limit = 5; used = 5 }) reading_vm-Running refl
