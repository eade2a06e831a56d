-- ===== src/Tests/Program.antt =====
-- A contract that reads a value, stores a byte under another key, asks a query and answers with the
-- value and the answer, on the mock store.
use go_cosmwasm.Base.{ℕ, ◌+◌, ◌++◌, refl, true, Option, none, some, [], ◌∷◌, arith}
use go_cosmwasm.Base.Text.{text}
use go_cosmwasm.Go.{Go, ok, pure, Bytes, Slice}
use go_cosmwasm.Ffi.Status.{FfiResult, done, failed}
use go_cosmwasm.Ffi.Error.{VmError, VmResult, vm_ok, vm_failed}
use go_cosmwasm.Ffi.Agreement.{Agrees}
use go_cosmwasm.Ffi.Address.{canonical_address, human_address}
use go_cosmwasm.Ffi.Address.Agrees.{canonical_address-Agrees, human_address-Agrees}
use go_cosmwasm.Ffi.Machine.{Vm, Extern, EnclaveResult, enclave_failed}
use go_cosmwasm.Ffi.Program.{Program, run, Bounded}
use go_cosmwasm.Ffi.Program.Direct.{Local, direct}
use go_cosmwasm.Ffi.Program.Mirrors.{Matches}
use go_cosmwasm.Ffi.Program.Simulates.{run-Matches}
use go_cosmwasm.Ffi.Range.{Order}
use go_cosmwasm.Api.Callbacks.Query.{QueryJson}
use go_cosmwasm.Ffi.Query.{query_raw}
use go_cosmwasm.Ffi.Query.Realises.{Realises, asks_outside, outside-Realises}
use go_cosmwasm.Ffi.Query.Agrees.{outside, query_raw-Agrees}
use go_cosmwasm.Types.Queries.{Querier, decoded}
use go_cosmwasm.Api.World.{World}
use go_cosmwasm.Api.Host.{GoApi, DbIterator}
use go_cosmwasm.Api.Callbacks.{GoIter}
use go_cosmwasm.Api.Contract.Application.{App, deps_of}
use go_cosmwasm.Tests.Mock.{Mock, mock_store, mock_meter, mock_world, mock_iterators, consume_gas}

-- Addresses after api/mock_test.go: a canonical address has the byte 42 in front.
abbrev mock_api : GoApi Mock
mock_api = record {
  human_address = λ a. elim a [
    | none ↦ pure ([], 4, some (text "no address"))
    | some xs ↦ pure (0 ∷ xs, 4, none)
  ];
  canonical_address = λ h. pure (some (42 ∷ h), 5, none);
}

-- A querier with one answer, whose encoding is the byte 4.
abbrev pub mock_querier : Querier Mock
mock_querier = record {
  query = λ request gas_limit. pure (some (4 ∷ []), none);
  gas_consumed = mock_meter.gas_consumed;
}

abbrev pub mock_json : QueryJson
mock_json = record {
  unmarshal_request =
      λ xs. decoded (record { bank = none; custom = xs; staking = none; wasm = none });
  marshal_result = λ r. decoded (some (4 ∷ []));
}

abbrev pub mock_app : App Mock Bytes
mock_app = record {
  store = mock_store;
  meter = mock_meter;
  api = mock_api;
  querier = outside mock_querier;
  asks = asks_outside mock_json mock_querier;
  json = mock_json;
  serde = record { from_slice = λ xs. decoded xs; invalid_response = λ t xs. xs };
  utf8_error = λ xs. none;
}

pub mock_app-Realises : Realises mock_app.json mock_app.querier mock_app.asks
mock_app-Realises = outside-Realises mock_json mock_querier

abbrev answered : Bytes → FfiResult Bytes × ℕ → Program ℕ Bytes
answered v (done xs, gas) = Program.finish (vm_ok (v ++ xs)) (7 + gas)
answered v (failed e, gas) = Program.finish (vm_failed (VmError.other_vm (text "no answer"))) 7

abbrev stored : FfiResult Slice × ℕ → Program ℕ Bytes
stored (done (some v), gas) =
    Program.set (3 ∷ []) (5 ∷ []) (λ r. Program.query (8 ∷ []) 50 (answered v))
stored (r, gas) = Program.finish (vm_failed (VmError.other_vm (text "not found"))) 7

abbrev pub mock_program : Program ℕ Bytes
mock_program = Program.get (1 ∷ 2 ∷ []) stored

answered-Bounded : (v : Bytes) (r : FfiResult Bytes × ℕ) → Bounded 2 (answered v r)
answered-Bounded v (done xs, gas) = tt
answered-Bounded v (failed e, gas) = tt

stored-Bounded : (r : FfiResult Slice × ℕ) → Bounded 2 (stored r)
stored-Bounded (done none, gas) = tt
stored-Bounded (done (some v), gas) =
    (omega arith, omega arith, λ r. (omega arith, answered-Bounded v))
stored-Bounded (failed e, gas) = tt

pub mock_program-Bounded : Bounded 2 mock_program
mock_program-Bounded = (omega arith, stored-Bounded)

abbrev no_enclave : {A : Type 0} → Go (World Mock) (EnclaveResult A)
no_enclave = pure (enclave_failed (text "no enclave"))

abbrev no_vm : {A : Type 0} → Go (World Mock) (VmResult A)
no_vm = pure (vm_failed (VmError.other_vm (text "not here")))

abbrev pub running : ℕ → Bytes → Bytes → Go (World Mock) (VmResult Bytes × ℕ)
running i params msg = run (deps_of mock_iterators mock_app 2) mock_program

-- A machine with one contract; a code id is a checksum if it is not empty.
abbrev pub machine :
    {I : Type 0}
    → (Extern Mock → ℕ → I)
    → (I → Bytes → Bytes → Go (World Mock) (VmResult Bytes × I))
    → (I → ℕ)
    → Vm Mock I
machine instance_for call used = record {
  checksum = λ xs. elim xs [
    | [] ↦ vm_failed (VmError.other_vm (text "bad checksum"))
    | x ∷ ys ↦ vm_ok (x ∷ ys)
  ];
  utf8_error = λ xs. none;
  new_cache = λ dir features. no_vm;
  drop_cache = λ c. pure tt;
  save_wasm = λ c xs. no_vm;
  load_wasm = λ c xs. no_vm;
  get_instance = λ c sum deps gas. pure (vm_ok (instance_for deps gas));
  call_init_raw = call;
  call_handle_raw = call;
  call_migrate_raw = call;
  call_query_raw = λ i m. call i [] m;
  used_internally = used;
  recycle = λ i. pure tt;
  untrusted_health_check = no_enclave;
  untrusted_init_bootstrap = no_enclave;
  untrusted_init_node = λ a b. no_enclave;
  untrusted_key_gen = no_enclave;
  create_attestation_report_u = no_enclave;
  untrusted_get_encrypted_seed = λ c. no_enclave;
  errno_text = λ n. [];
}

abbrev pub mock_vm : Vm Mock ℕ
mock_vm = machine (λ deps gas. 0) running (λ i. i)

abbrev pub arg : Bytes
arg = 6 ∷ []

-- What the application is left with: 286000 of its gas is gone, and the store has one more pair.
abbrev pub charged : Mock
charged = record {
  limit = 300000;
  consumed = 287000;
  pairs = (3 ∷ [], 5 ∷ []) ∷ (1 ∷ 2 ∷ [], 9 ∷ []) ∷ [];
}

-- Iterators that stand on the pair of the mock store, and whose closing costs gas.
abbrev pub reading_iterators : DbIterator Mock
reading_iterators = record {
  valid = λ it. pure true;
  key = λ it. pure (some (1 ∷ 2 ∷ []));
  value = λ it. pure (some (9 ∷ []));
  next = λ it. pure tt;
  close = λ it. consume_gas 5;
}

-- A contract that opens an iterator and answers with the entry of its first step.
abbrev listed : FfiResult (Option (Bytes × Bytes)) × ℕ → Program ℕ Bytes
listed (done (some (k, v)), gas) = Program.finish (vm_ok (k ++ v)) 7
listed (r, gas) = Program.finish (vm_failed (VmError.other_vm (text "no entry"))) 7

abbrev opened : FfiResult GoIter × ℕ → Program ℕ Bytes
opened (done it, gas) = Program.next it.state.iterator_index listed
opened (failed e, gas) = Program.finish (vm_failed (VmError.other_vm (text "no iterator"))) 7

abbrev pub listing : Program ℕ Bytes
listing = Program.range none (some (2 ∷ [])) Order.ascending opened

listed-Bounded : (r : FfiResult (Option (Bytes × Bytes)) × ℕ) → Bounded 2 (listed r)
listed-Bounded (done none, gas) = tt
listed-Bounded (done (some (k, v)), gas) = tt
listed-Bounded (failed e, gas) = tt

opened-Bounded : (r : FfiResult GoIter × ℕ) → Bounded 2 (opened r)
opened-Bounded (done it, gas) = (refl, listed-Bounded)
opened-Bounded (failed e, gas) = tt

pub listing-Bounded : Bounded 2 listing
listing-Bounded = (omega arith, omega arith, opened-Bounded)

-- Where the run ends: an iterator is open, and its entry was given in two parts.
abbrev pub after_listing : Local Mock
after_listing = record {
  frame = 1 ∷ [];
  spent = 0;
  given = (9 ∷ []) ∷ (1 ∷ 2 ∷ []) ∷ [];
  host = record mock_world.host { consumed = 262000 };
}

-- The call with the number 2 has just begun.
abbrev begun : World Mock
begun = record mock_world { tables = record mock_world.tables { db_counter = 2 } }

run-Matches_example :
    Matches 2 begun
      (ok (vm_ok (1 ∷ 2 ∷ 9 ∷ []), 7), after_listing)
      (run (deps_of reading_iterators mock_app 2) listing begun)
unfolding direct go_cosmwasm.Api.Callbacks.build_db_state go_cosmwasm.Ffi.Scan.with_value
run-Matches_example =
    run-Matches (deps_of reading_iterators mock_app 2) listing begun mock_app-Realises refl refl
      (omega arith, tt) listing-Bounded tt (omega arith)

canonical_address-Agrees_example :
    Agrees mock_world
      (ok (done (42 ∷ 6 ∷ []), 5), mock_world.host)
      (canonical_address (some mock_api) arg mock_world)
canonical_address-Agrees_example = canonical_address-Agrees mock_api arg mock_world tt (omega arith)

human_address-Agrees_example :
    Agrees mock_world
      (ok (done (0 ∷ 6 ∷ []), 4), mock_world.host)
      (human_address (λ xs. none) (some mock_api) arg mock_world)
unfolding go_cosmwasm.Ffi.Address.as_text
human_address-Agrees_example =
    human_address-Agrees (λ xs. none) mock_api arg mock_world tt (omega arith)

query_raw-Agrees_example :
    Agrees mock_world
      (ok (done (4 ∷ []), 0), mock_world.host)
      (query_raw mock_json mock_app.serde (some (outside mock_querier)) arg 50 mock_world)
unfolding go_cosmwasm.Types.Queries.rust_query go_cosmwasm.Ffi.Query.parse_result
query_raw-Agrees_example =
    query_raw-Agrees mock_json mock_app.serde mock_querier arg 50 mock_world tt (omega arith)
