-- ===== src/Wasmer.antt =====
-- lib.go: the entry points that an application calls.
pub mod Results
pub mod Whole
use go_cosmwasm.Base.{ℕ, Bool, Option, none, some, List, [], ltb, length, take, drop, if◌then◌else◌}
use go_cosmwasm.Base.Text.{text}
use go_cosmwasm.Go.{
  Go, Outcome, ok, panic, fault, pure, throw, ◌>>=◌, ◌>>◌, bounds_error, Bytes, Slice,
}
use go_cosmwasm.Types.StdError.{StdError, std_text}
use go_cosmwasm.Types.Errors.{Error}
use go_cosmwasm.Types.Queries.{QueryResponse, Decoded, decoded, malformed}
use go_cosmwasm.Types.Msg.{
  Env, HandleResult, HandleResponse, InitResult, InitResponse, MigrateResult, MigrateResponse,
}
use go_cosmwasm.Api.World.{World}
use go_cosmwasm.Api.Host.{DbIterator}
use go_cosmwasm.Api.Library.{Cache, Library}
use go_cosmwasm.Api.Contract.{Returned, Environment}
use go_cosmwasm.Api.Contract
use go_cosmwasm.Api.Calls.{Loaded}
use go_cosmwasm.Api.Calls

-- `Wasmer`
pub record Wasmer : Type 0 where
  pub cache : Cache

-- encoding/json at the types of the entry points; a failure gives the error's text.
pub record Json : Type 0 where
  pub marshal_env : Env → Decoded Slice
  pub unmarshal_init : Slice → Decoded InitResult
  pub unmarshal_handle : Slice → Decoded HandleResult
  pub unmarshal_query : Slice → Decoded QueryResponse
  pub unmarshal_migrate : Slice → Decoded MigrateResult

-- A pointer to the response (or its bytes), the gas used, and the error.
pub record Answer (A : Type 0) : Type 0 where
  pub response : Option A
  pub gas_used : ℕ
  pub error : Option Error

-- `fmt.Errorf("%v", err)`, which prints a panic of the method `Error`.
abbrev pub printed : Outcome Bytes → Bytes
printed (ok t) = t
printed (panic p) = text "%!v(PANIC=Error method: unknown error variant)"
printed fault = []

unfoldable pub std_failure : StdError → Error
unfolding std_text
std_failure e = Error.other (printed (std_text e))

-- The last lines of every entry point: the contract's own error, or its response.
unfoldable pub respond : {A : Type 0} → ℕ → Option A → Option StdError → Answer A
unfolding std_failure
respond gas response none = record { response = response; gas_used = gas; error = none }
respond gas response (some e) = record {
  response = none;
  gas_used = gas;
  error = some (std_failure e);
}

abbrev pub failed : {A : Type 0} → ℕ → Error → Answer A
failed gas e = record { response = none; gas_used = gas; error = some e }

-- `err != nil` after `json.Unmarshal`, and what follows it.
unfoldable pub respond_handle : ℕ → Decoded HandleResult → Answer HandleResponse
unfolding respond
respond_handle gas (malformed t) = failed gas (Error.other t)
respond_handle gas (decoded r) = respond gas r.ok r.err

unfoldable pub respond_init : ℕ → Decoded InitResult → Answer InitResponse
unfolding respond
respond_init gas (malformed t) = failed gas (Error.other t)
respond_init gas (decoded r) = respond gas r.ok r.err

unfoldable pub respond_migrate : ℕ → Decoded MigrateResult → Answer MigrateResponse
unfolding respond
respond_migrate gas (malformed t) = failed gas (Error.other t)
respond_migrate gas (decoded r) = respond gas r.ok r.err

unfoldable pub respond_query : ℕ → Decoded QueryResponse → Answer Bytes
unfolding respond
respond_query gas (malformed t) = failed gas (Error.other t)
respond_query gas (decoded r) = respond gas r.ok r.err

-- `err != nil` after the call of the package `api`: its error, or the rest of the function.
unfoldable pub after_call : {A : Type 0} → (ℕ → Slice → Answer A) → Returned → Answer A
after_call rest r = elim r.error [ some e ↦ failed r.gas_used e | none ↦ rest r.gas_used r.bytes ]

-- The key goes with a response only.
abbrev pub with_key : Bytes → Answer InitResponse → Answer InitResponse × Slice
with_key key a = (a, elim a.error [ none ↦ some key | some e ↦ none ])

-- The pointer to the new `Wasmer`, which is nil with an error.
abbrev pub as_wasmer : Loaded Cache → Loaded (Option Wasmer)
as_wasmer r = elim r.error [
  | none ↦ record { value = some (record { cache = r.value }); error = none }
  | some e ↦ record { value = none; error = some e }
]

module _ {H : Type 0} (lib : Library H) where
  -- `NewWasmer`
  unfoldable pub new_wasmer : Bytes → Bytes → ℕ → Go (World H) (Loaded (Option Wasmer))
  new_wasmer data_dir supported_features cache_size = do
    r ← Calls.init_cache lib data_dir supported_features cache_size
    pure (as_wasmer r)

  -- `Cleanup`
  unfoldable pub cleanup : Wasmer → Go (World H) (Unit {0})
  cleanup w = Calls.release_cache lib w.cache

  -- `Create`
  unfoldable pub create : Wasmer → Slice → Go (World H) (Loaded Slice)
  create w code = Calls.create lib w.cache code

  -- `GetCode`
  unfoldable pub get_code : Wasmer → Slice → Go (World H) (Loaded Slice)
  get_code w code = Calls.get_code lib w.cache code

module _ {H : Type 0} (d : DbIterator H) (lib : Library H) (json : Json) where
  -- `Execute`, once the environment is encoded.
  unfoldable pub execute_encoded :
      Wasmer
      → Slice
      → Slice
      → Environment H
      → ℕ
      → Decoded Slice
      → Go (World H) (Answer HandleResponse)
  unfolding after_call respond_handle
  execute_encoded w code msg env gas_limit (malformed t) s = (ok (failed 0 (Error.other t)), s)
  execute_encoded w code msg env gas_limit (decoded params) s =
      (do
        r ← Contract.handle d lib w.cache code params msg env gas_limit
        pure (after_call (λ gas bytes. respond_handle gas (json.unmarshal_handle bytes)) r))
        s

  -- `Execute`
  unfoldable pub execute :
      Wasmer → Slice → Env → Slice → Environment H → ℕ → Go (World H) (Answer HandleResponse)
  unfolding execute_encoded
  execute w code env msg host gas_limit =
      execute_encoded w code msg host gas_limit (json.marshal_env env)

  -- `Migrate`, once the environment is encoded.
  unfoldable pub migrate_encoded :
      Wasmer
      → Slice
      → Slice
      → Environment H
      → ℕ
      → Decoded Slice
      → Go (World H) (Answer MigrateResponse)
  unfolding after_call respond_migrate
  migrate_encoded w code msg env gas_limit (malformed t) s = (ok (failed 0 (Error.other t)), s)
  migrate_encoded w code msg env gas_limit (decoded params) s =
      (do
        r ← Contract.migrate d lib w.cache code params msg env gas_limit
        pure (after_call (λ gas bytes. respond_migrate gas (json.unmarshal_migrate bytes)) r))
        s

  -- `Migrate`
  unfoldable pub migrate :
      Wasmer → Slice → Env → Slice → Environment H → ℕ → Go (World H) (Answer MigrateResponse)
  unfolding migrate_encoded
  migrate w code env msg host gas_limit =
      migrate_encoded w code msg host gas_limit (json.marshal_env env)

  -- `Query`
  unfoldable pub query : Wasmer → Slice → Slice → Environment H → ℕ → Go (World H) (Answer Bytes)
  unfolding after_call respond_query
  query w code msg host gas_limit = do
    r ← Contract.query d lib w.cache code msg host gas_limit
    pure (after_call (λ gas bytes. respond_query gas (json.unmarshal_query bytes)) r)

  -- The two slices of the result of `Instantiate`, `data[0:64]` and `data[64:]`, and what follows.
  unfoldable pub split_key : ℕ → Bytes → Go (World H) (Answer InitResponse × Slice)
  unfolding respond_init
  split_key gas bytes =
      if ltb (length bytes) 64
      then throw bounds_error
      else pure
          (with_key (take 64 bytes) (respond_init gas (json.unmarshal_init (some (drop 64 bytes)))))

  unfoldable pub after_instantiate : Returned → Go (World H) (Answer InitResponse × Slice)
  unfolding split_key
  after_instantiate r = elim r.error [
    | some e ↦ pure (failed r.gas_used e, none)
    | none ↦ elim r.bytes [ none ↦ split_key r.gas_used [] | some xs ↦ split_key r.gas_used xs ]
  ]

  unfoldable pub instantiate_encoded :
      Wasmer
      → Slice
      → Slice
      → Environment H
      → ℕ
      → Decoded Slice
      → Go (World H) (Answer InitResponse × Slice)
  unfolding after_instantiate
  instantiate_encoded w code msg env gas_limit (malformed t) s =
      (ok (failed 0 (Error.other t), none), s)
  instantiate_encoded w code msg env gas_limit (decoded params) s =
      (do r ← Contract.instantiate d lib w.cache code params msg env gas_limit; after_instantiate r)
        s

  -- `Instantiate`: the response, the gas and the error, and the key.
  unfoldable pub instantiate :
      Wasmer → Slice → Env → Slice → Environment H → ℕ → Go (World H) (Answer InitResponse × Slice)
  unfolding instantiate_encoded
  instantiate w code env msg host gas_limit =
      instantiate_encoded w code msg host gas_limit (json.marshal_env env)
