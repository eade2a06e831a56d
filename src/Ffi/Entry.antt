-- ===== src/Ffi/Entry.antt =====
-- src/lib.rs: the functions that Go calls.
pub mod Sparing
pub mod Contract
pub mod Reporting
pub mod Refusal
pub mod Query
pub mod Returns
use go_cosmwasm.Base.{ℕ, Bool, true, false, Option, none, some, []}
use go_cosmwasm.Base.Text.{text}
use go_cosmwasm.Go.{Go, Outcome, ok, pure, ◌>>=◌, ◌>>◌, Bytes}
use go_cosmwasm.Ffi.Memory.{Heap, Buffer, null_buffer, from_vec}
use go_cosmwasm.Ffi.Error.{RustError, Result, success, failure, VmResult, from_vm}
use go_cosmwasm.Ffi.Call.{
  Outs, CallState, ◌>>?◌, catch_unwind, in_world, in_heap, read_arg, clear_error, report_error,
  handle_c_error, calling,
}
use go_cosmwasm.Ffi.Machine.{
  Vm, Extern, to_extern, EnclaveResult, enclave_ok, enclave_failed, join_enclave, do_contract,
  do_query, do_create, do_get_code, do_init_cache,
}
use go_cosmwasm.Api.World.{World}
use go_cosmwasm.Api.Library.{Db, ApiRef, QuerierRef, Reply, ContractFn, QueryFn, Library}

module _ {H : Type 0} where
  -- `to_cache(cache)`, and the two ways on: a closure whose panics are caught, or an error.
  unfoldable pub with_cache :
      {A : Type 0} → Option ℕ → (ℕ → Go (CallState H) (Result A)) → Go (CallState H) (Result A)
  unfolding catch_unwind
  with_cache none body f = (ok (failure (RustError.empty_arg (text "cache"))), f)
  with_cache (some c) body f = catch_unwind (body c) f

  -- The end of the functions that answer with bytes.
  unfoldable pub finish_entry : Go (CallState H) (Result Bytes) → Go (CallState H) Buffer
  unfolding handle_c_error
  finish_entry m = do r ← m; data' ← handle_c_error r; in_heap (from_vec data')

  -- The match of `init_cache` on its result.
  unfoldable pub finish_cache : Result ℕ → Go (CallState H) (Option ℕ)
  unfolding clear_error report_error
  finish_cache (success c) f = (do clear_error; pure (some c)) f
  finish_cache (failure e) f = (do report_error e; pure none) f

  -- The match on the answer of the enclave, with the bytes or with an error and a null buffer.
  unfoldable pub finish_enclave : EnclaveResult Bytes → Go (CallState H) Buffer
  unfolding clear_error report_error
  finish_enclave (enclave_ok xs) f = (do clear_error; in_heap (from_vec xs)) f
  finish_enclave (enclave_failed e) f =
      (do report_error (RustError.enclave_err e); pure null_buffer) f

  -- The same where the function answers with a Boolean.
  unfoldable pub finish_flag : EnclaveResult (Unit {0}) → Go (CallState H) (Unit {0})
  unfolding clear_error report_error
  finish_flag (enclave_ok u) = clear_error
  finish_flag (enclave_failed e) = report_error (RustError.enclave_err e)

  -- `get_health_check`, `init_bootstrap` and `key_gen`
  unfoldable pub enclave_bytes : Go (World H) (EnclaveResult Bytes) → Go (World H) (Reply Buffer)
  unfolding finish_enclave calling
  enclave_bytes m = calling (in_world m >>= finish_enclave)

  -- The early return for a null argument.
  unfoldable pub given_or :
      {A : Type 0} → Result Bytes → A → (Bytes → Go (CallState H) A) → Go (CallState H) A
  unfolding report_error
  given_or (success xs) otherwise rest f = rest xs f
  given_or (failure e) otherwise rest f = (do report_error e; pure otherwise) f

module _ {H I : Type 0} where
  module _ (vm : Vm H I) where
    -- `instantiate`, `handle` and `migrate`
    unfoldable pub contract_entry :
        (I → Bytes → Bytes → Go (World H) (VmResult Bytes × I)) → ContractFn H
    unfolding finish_entry with_cache do_contract calling
    contract_entry call cache code_id params msg db api querier gas_limit = calling (
        finish_entry (
          with_cache cache
            λ c. do_contract vm call c code_id params msg (to_extern db api querier) gas_limit))

    -- `query`
    unfoldable pub query_entry : QueryFn H
    unfolding finish_entry with_cache do_query calling
    query_entry cache code_id msg db api querier gas_limit = calling (
        finish_entry
          (with_cache cache λ c. do_query vm c code_id msg (to_extern db api querier) gas_limit))

    -- `create` and `get_code`
    unfoldable pub create : Option ℕ → Buffer → Go (World H) (Reply Buffer)
    unfolding finish_entry with_cache do_create calling
    create cache wasm = calling (finish_entry (with_cache cache λ c. do_create vm c wasm))

    unfoldable pub get_code : Option ℕ → Buffer → Go (World H) (Reply Buffer)
    unfolding finish_entry with_cache do_get_code calling
    get_code cache id = calling (finish_entry (with_cache cache λ c. do_get_code vm c id))

    -- `init_cache`
    unfoldable pub init_cache : Buffer → Buffer → ℕ → Go (World H) (Reply (Option ℕ))
    unfolding finish_cache do_init_cache catch_unwind calling
    init_cache data_dir supported_features cache_size =
        calling (catch_unwind (do_init_cache vm data_dir supported_features) >>= finish_cache)

    -- `release_cache`
    unfoldable pub release_cache : Option ℕ → Go (World H) (Unit {0})
    release_cache none w = (ok tt, w)
    release_cache (some c) w = vm.drop_cache c w

    -- `get_encrypted_seed`
    unfoldable pub get_encrypted_seed : Buffer → Go (World H) (Reply Buffer)
    unfolding read_arg given_or finish_enclave calling
    get_encrypted_seed cert = calling (do
      arg ← read_arg (text "attestation_cert") cert
      given_or arg null_buffer λ c.
          in_world (vm.untrusted_get_encrypted_seed c) >>= λ r. finish_enclave (join_enclave r))

    -- `init_node`
    unfoldable pub init_node : Buffer → Buffer → Go (World H) (Reply (Unit {0}))
    unfolding read_arg given_or finish_flag calling
    init_node master_cert encrypted_seed = calling (do
      cert ← read_arg (text "master_cert") master_cert
      given_or cert tt λ pk. read_arg (text "encrypted_seed") encrypted_seed >>= λ seed.
          given_or seed tt λ s. in_world (vm.untrusted_init_node pk s) >>= finish_flag)

    -- `create_attestation_report`
    unfoldable pub create_attestation_report : Go (World H) (Reply (Unit {0}))
    unfolding finish_flag calling
    create_attestation_report = calling (in_world vm.create_attestation_report_u >>= finish_flag)

    -- The functions together, as api/lib.go calls them.
    unfoldable pub library : Library H
    library = record {
      get_health_check = enclave_bytes vm.untrusted_health_check;
      init_bootstrap = enclave_bytes vm.untrusted_init_bootstrap;
      init_node = init_node;
      init_cache = init_cache;
      release_cache = release_cache;
      create = create;
      get_code = get_code;
      instantiate = contract_entry vm.call_init_raw;
      handle = contract_entry vm.call_handle_raw;
      migrate = contract_entry vm.call_migrate_raw;
      query = query_entry;
      key_gen = enclave_bytes vm.untrusted_key_gen;
      create_attestation_report = create_attestation_report;
      get_encrypted_seed = get_encrypted_seed;
      errno_text = vm.errno_text;
    }
