-- ===== src/Tests/Contract.antt =====
-- Contract calls against a Rust library whose contracts open an iterator and answer with bytes.
use go_cosmwasm.Base.{ℕ, zero, suc, ◌++◌, ◌≡◌, refl, none, some, [], ◌∷◌, length, arith}
use go_cosmwasm.Go.{Go, ok, pure, Bytes, Slice}
use go_cosmwasm.Ffi.Memory.{Buffer, Ptr, null_buffer, alloc, rust, Below-absent}
use go_cosmwasm.Ffi.Memory.Grown.{Grown-refl}
use go_cosmwasm.Api.World.{World}
use go_cosmwasm.Api.Iterator.{store_iterator}
use go_cosmwasm.Api.Library.{Cache, Reply, ContractFn, Library}
use go_cosmwasm.Api.Contract.{Environment, Returned, instantiate, handle, migrate, query}
use go_cosmwasm.Api.Contract.Lifecycle.{Closes, contract_frame_closed, query_frame_closed}
use go_cosmwasm.Api.Calls.Laws.{handing}
use go_cosmwasm.Api.Contract.Leaving.{Leaves}
use go_cosmwasm.Api.Contract.Answers.{lent, Answered, reported, frame_closed, handle_clean}
use go_cosmwasm.Tests.Mock.{Mock, mock_store, mock_meter, mock_world, mock_iterators}

-- A reply that hands over bytes, and uses 5 of the gas.
abbrev pub replying : Bytes → Go (World Mock) (Reply Buffer)
replying xs w =
    let (p, h) = alloc rust xs w.heap in
    (
      ok (record {
        res = record { ptr = Ptr.at p; len = length xs; cap = length xs };
        errno = 0;
        gas_used = 5;
        errmsg = null_buffer;
      }),
      record w { heap = h },
    )

-- A contract that opens an iterator in the frame of its call.
abbrev pub scanning : ContractFn Mock
scanning cache id params msg db a q gas w = replying (8 ∷ []) (record w {
  tables = elim db.state [
    | none ↦ w.tables
    | some st ↦ (store_iterator st.iterator_stack_id 3 w.tables).1
  ];
})

abbrev pub nothing : {A : Type 0} → A → Go (World Mock) (Reply A)
nothing a = pure (record { res = a; errno = 0; gas_used = 0; errmsg = null_buffer })

abbrev pub mock_library : Library Mock
mock_library = record {
  get_health_check = nothing null_buffer;
  init_bootstrap = nothing null_buffer;
  init_node = λ a b. nothing tt;
  init_cache = λ a b n. nothing (some 1);
  release_cache = λ c. pure tt;
  create = λ c b. handing (7 ∷ []);
  get_code = λ c b. handing (7 ∷ 8 ∷ []);
  instantiate = scanning;
  handle = scanning;
  migrate = scanning;
  query = λ cache id msg db a q gas. scanning cache id null_buffer msg db a q gas;
  key_gen = nothing null_buffer;
  create_attestation_report = nothing tt;
  get_encrypted_seed = λ b. handing [];
  errno_text = λ n. [];
}

abbrev pub mock_cache : Cache
mock_cache = record { ptr = some 1 }

abbrev pub mock_environment : Environment Mock
mock_environment = record {
  gas_meter = some mock_meter;
  store = mock_store;
  api = none;
  querier = none;
}

abbrev pub one_byte : Slice
one_byte = some (6 ∷ [])

-- The state after a call, and that the call answers with the contract's bytes.
abbrev pub handled : World Mock
handled =
    (handle mock_iterators mock_library mock_cache one_byte one_byte one_byte mock_environment 100
      mock_world).1

pub handle_bytes :
    handle mock_iterators mock_library mock_cache one_byte one_byte one_byte mock_environment 100
      mock_world
    ≡ (ok (record { bytes = some (8 ∷ []); gas_used = 5; error = none }), handled)
unfolding handle go_cosmwasm.Api.Contract.sending go_cosmwasm.Api.Memory.send_slice
    go_cosmwasm.Api.Contract.in_frame go_cosmwasm.Api.Iterator.start_contract
    go_cosmwasm.Api.Contract.read_reply go_cosmwasm.Api.Memory.receive_vector
    go_cosmwasm.Api.Iterator.end_contract go_cosmwasm.Api.Iterator.close_all store_iterator
    go_cosmwasm.Api.Memory.free_after_send
handle_bytes = refl

abbrev pub zeros : ℕ → Bytes
zeros zero = []
zeros (suc n) = 0 ∷ zeros n

-- A library whose contracts answer `Instantiate` with the bytes xs.
abbrev pub starting : Bytes → Library Mock
starting xs = record mock_library { instantiate = λ cache id params msg db a q gas. replying xs }

abbrev pub started : Bytes → World Mock
started xs =
    (instantiate mock_iterators (starting xs) mock_cache one_byte one_byte one_byte mock_environment
      100 mock_world).1

pub instantiate_bytes :
    instantiate mock_iterators
      (starting (zeros 64 ++ 8 ∷ []))
      mock_cache
      one_byte
      one_byte
      one_byte
      mock_environment
      100
      mock_world
    ≡ (
      ok (record { bytes = some (zeros 64 ++ 8 ∷ []); gas_used = 5; error = none }),
      started (zeros 64 ++ 8 ∷ []),
    )
unfolding instantiate go_cosmwasm.Api.Contract.sending go_cosmwasm.Api.Memory.send_slice
    go_cosmwasm.Api.Contract.in_frame go_cosmwasm.Api.Iterator.start_contract
    go_cosmwasm.Api.Contract.read_reply go_cosmwasm.Api.Memory.receive_vector
    go_cosmwasm.Api.Iterator.end_contract go_cosmwasm.Api.Iterator.close_all
    go_cosmwasm.Api.Memory.free_after_send
instantiate_bytes = refl

contract_frame_closed_example :
    Closes 2
      (instantiate mock_iterators mock_library mock_cache one_byte one_byte one_byte
        mock_environment 100)
      mock_world
    × Closes 2
        (handle mock_iterators mock_library mock_cache one_byte one_byte one_byte mock_environment
          100)
        mock_world
    × Closes 2
        (migrate mock_iterators mock_library mock_cache one_byte one_byte one_byte mock_environment
          100)
        mock_world
contract_frame_closed_example =
    contract_frame_closed mock_iterators mock_library mock_cache one_byte one_byte one_byte
      mock_environment 100 mock_world

query_frame_closed_example :
    Closes 2
      (query mock_iterators mock_library mock_cache one_byte one_byte mock_environment 100)
      mock_world
query_frame_closed_example =
    query_frame_closed mock_iterators mock_library mock_cache one_byte one_byte mock_environment 100
      mock_world

-- The state that the contract leaves.
abbrev scanned : World Mock
scanned = record mock_world {
  tables = (store_iterator 2 3 (record mock_world.tables { db_counter = 2 })).1;
  heap = lent one_byte one_byte one_byte mock_world.heap;
}

scanning-Answered :
    Answered mock_iterators scanning mock_cache one_byte one_byte one_byte mock_environment 100 5 0
      (8 ∷ [])
      []
      mock_world
      scanned
      mock_world.host
unfolding store_iterator go_cosmwasm.Api.Memory.send_slice go_cosmwasm.Ffi.Memory.from_vec
    go_cosmwasm.Api.Iterator.close_all go_cosmwasm.Api.Library.build_db
    go_cosmwasm.Api.Callbacks.build_db_state
scanning-Answered = record {
  ran = refl;
  grown =
      Grown-refl (lent one_byte one_byte one_byte mock_world.heap)
        (omega arith, (omega arith, (omega arith, tt)));
  closes = refl;
}

handle_clean_example :
    Leaves
      (reported 5 0 (8 ∷ []))
      []
      (handle mock_iterators mock_library mock_cache one_byte one_byte one_byte mock_environment
        100)
      mock_world
      (frame_closed 2 scanned mock_world.host)
handle_clean_example =
    handle_clean mock_iterators mock_library mock_cache one_byte one_byte one_byte mock_environment
      100 5 0 (8 ∷ []) [] mock_world scanned mock_world.host tt (omega arith) refl scanning-Answered
