-- ===== src/Tests/Wasmer.antt =====
-- The entry points against the library of Tests/Contract, with an encoding of a few values.
use go_cosmwasm.Base.{◌++◌, ◌≡◌, refl, Option, none, some, [], ◌∷◌, arith}
use go_cosmwasm.Go.{ok, Slice}
use go_cosmwasm.Types.Queries.{decoded, malformed}
use go_cosmwasm.Types.Msg.{Env, HandleResponse, InitResponse}
use go_cosmwasm.Api.Contract.{handle}
use go_cosmwasm.Wasmer.{Wasmer, Json, Answer, execute, instantiate}
use go_cosmwasm.Wasmer.Results.{execute_success, execute_returns, instantiate_key}
use go_cosmwasm.Tests.Mock.{mock_world, mock_iterators}
use go_cosmwasm.Tests.Contract.{
  mock_library, mock_cache, mock_environment, one_byte, handled, handle_bytes, zeros, starting,
  started, instantiate_bytes,
}

abbrev pub mock_env : Env
mock_env = record {
  block = record { height = 1; time = 2; chain_id = [] };
  message = record { sender = 1 ∷ []; sent_funds = none };
  contract = record { address = 2 ∷ [] };
  key = [];
}

abbrev pub wasmer : Wasmer
wasmer = record { cache = mock_cache }

abbrev pub empty_response : HandleResponse
empty_response = record { messages = some []; data_field = none; log = some [] }

abbrev pub empty_init : InitResponse
empty_init = record { messages = some []; log = some [] }

-- Every contract answers with an empty response.
abbrev pub answering : Option HandleResponse → Json
answering r = record {
  marshal_env = λ e. decoded one_byte;
  unmarshal_init = λ b. decoded (record { ok = some empty_init; err = none });
  unmarshal_handle = λ b. decoded (record { ok = r; err = none });
  unmarshal_query = λ b. malformed [];
  unmarshal_migrate = λ b. malformed [];
}

execute_returns_example :
    (a : Answer HandleResponse) × (execute mock_iterators mock_library
        (answering (some empty_response))
        wasmer
        one_byte
        mock_env
        one_byte
        mock_environment
        100
        mock_world
      ≡ (ok a, handled))
    × (a.gas_used ≡ 5)
execute_returns_example =
    execute_returns mock_iterators mock_library (answering (some empty_response)) wasmer one_byte
      mock_env one_byte one_byte mock_environment 100 mock_world handled
      (record { bytes = some (8 ∷ []); gas_used = 5; error = none }) refl handle_bytes

executed :
    execute mock_iterators mock_library
      (answering (some empty_response))
      wasmer
      one_byte
      mock_env
      one_byte
      mock_environment
      100
      mock_world
    ≡ (ok (record { response = some empty_response; gas_used = 5; error = none }), handled)
unfolding execute
executed = ground (arith, handle_bytes)

execute_success_example :
    (params : Slice) × (bytes : Slice) × (decoded one_byte ≡ decoded params)
    × (handle mock_iterators mock_library mock_cache one_byte params one_byte mock_environment 100
          mock_world
        ≡ (ok (record { bytes = bytes; gas_used = 5; error = none }), handled))
    × ((answering (some empty_response)).unmarshal_handle bytes
        ≡ decoded (record { ok = some empty_response; err = none }))
execute_success_example =
    execute_success mock_iterators mock_library (answering (some empty_response)) wasmer one_byte
      mock_env one_byte mock_environment 100 mock_world handled
      (record { response = some empty_response; gas_used = 5; error = none }) executed refl

instantiate_key_example :
    instantiate mock_iterators
      (starting (zeros 64 ++ 8 ∷ []))
      (answering none)
      wasmer
      one_byte
      mock_env
      one_byte
      mock_environment
      100
      mock_world
    ≡ (
      ok (record { response = some empty_init; gas_used = 5; error = none }, some (zeros 64)),
      started (zeros 64 ++ 8 ∷ []),
    )
instantiate_key_example =
    instantiate_key mock_iterators (starting (zeros 64 ++ 8 ∷ [])) (answering none) wasmer one_byte
      mock_env one_byte one_byte mock_environment 100 5 (zeros 64) (8 ∷ []) mock_world
      (started (zeros 64 ++ 8 ∷ [])) (some empty_init) refl instantiate_bytes refl refl

-- The contract's bytes decode to neither a response nor an error.
execute_neither :
    execute mock_iterators mock_library
      (answering none)
      wasmer
      one_byte
      mock_env
      one_byte
      mock_environment
      100
      mock_world
    ≡ (ok (record { response = none; gas_used = 5; error = none }), handled)
unfolding execute
execute_neither = ground (arith, handle_bytes)
