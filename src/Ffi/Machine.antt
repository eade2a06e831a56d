-- ===== src/Ffi/Machine.antt =====
-- The functions of src/lib.rs that work on a cache, over the virtual machine and the enclave as a
-- parameter.
use go_cosmwasm.Base.{ℕ, Option, none, some}
use go_cosmwasm.Base.Text.{text}
use go_cosmwasm.Go.{Go, pure, ◌>>=◌, ◌>>◌, Bytes}
use go_cosmwasm.Ffi.Memory.{Buffer}
use go_cosmwasm.Ffi.Error.{RustError, Result, success, failure, VmResult, from_vm}
use go_cosmwasm.Api.World.{World}
use go_cosmwasm.Api.Library.{Db, ApiRef, QuerierRef}
use go_cosmwasm.Ffi.Call.{CallState, ◌>>?◌, in_world, read_arg, gas_slot, write_gas}

-- `Extern`
pub record Extern (H : Type 0) : Type 0 where
  pub storage : Db H
  pub api : ApiRef H
  pub querier : QuerierRef H

-- `to_extern`
abbrev pub to_extern : {H : Type 0} → Db H → ApiRef H → QuerierRef H → Extern H
to_extern storage api querier = record { storage = storage; api = api; querier = querier }

-- An outcome of the enclave's functions, an error by its text.
pub data EnclaveResult (A : Type 0) : Type 0 where
  enclave_ok : A → EnclaveResult A
  enclave_failed : Bytes → EnclaveResult A

-- Both errors of a call that answers with a result of its own are reported alike.
abbrev pub join_enclave : EnclaveResult (EnclaveResult Bytes) → EnclaveResult Bytes
join_enclave (enclave_ok r) = r
join_enclave (enclave_failed e) = enclave_failed e

-- What src/lib.rs uses of the crate cosmwasm_sgx_vm. A cache is known by a number, and an instance
-- is a value of the type I, which a call replaces where Rust passes `&mut instance`.
pub record Vm (H I : Type 0) : Type 0 where
  -- `Checksum::try_from`
  pub checksum : Bytes → VmResult Bytes
  -- `from_utf8`: the text of the error, if there is one.
  pub utf8_error : Bytes → Option Bytes
  -- `CosmCache::new`, with the features as they are written.
  pub new_cache : Bytes → Bytes → Go (World H) (VmResult ℕ)
  pub drop_cache : ℕ → Go (World H) (Unit {0})
  pub save_wasm : ℕ → Bytes → Go (World H) (VmResult Bytes)
  pub load_wasm : ℕ → Bytes → Go (World H) (VmResult Bytes)
  pub get_instance : ℕ → Bytes → Extern H → ℕ → Go (World H) (VmResult I)
  pub call_init_raw : I → Bytes → Bytes → Go (World H) (VmResult Bytes × I)
  pub call_handle_raw : I → Bytes → Bytes → Go (World H) (VmResult Bytes × I)
  pub call_migrate_raw : I → Bytes → Bytes → Go (World H) (VmResult Bytes × I)
  pub call_query_raw : I → Bytes → Go (World H) (VmResult Bytes × I)
  -- `create_gas_report().used_internally`
  pub used_internally : I → ℕ
  pub recycle : I → Go (World H) (Unit {0})
  pub untrusted_health_check : Go (World H) (EnclaveResult Bytes)
  pub untrusted_init_bootstrap : Go (World H) (EnclaveResult Bytes)
  pub untrusted_init_node : Bytes → Bytes → Go (World H) (EnclaveResult (Unit {0}))
  pub untrusted_key_gen : Go (World H) (EnclaveResult Bytes)
  pub create_attestation_report_u : Go (World H) (EnclaveResult (Unit {0}))
  -- The error of the SDK, or the enclave's own answer.
  pub untrusted_get_encrypted_seed : Bytes → Go (World H) (EnclaveResult (EnclaveResult Bytes))
  -- `syscall.Errno.Error`
  pub errno_text : ℕ → Bytes

-- A call into the virtual machine, with the operator `?`.
abbrev pub vm_call : {H A : Type 0} → Go (World H) (VmResult A) → Go (CallState H) (Result A)
vm_call m = in_world m >>= λ r. pure (from_vm r)

module _ {H I : Type 0} where
  module _ (vm : Vm H I) where
    -- From the instance on: its gas is reported and it is recycled before the result is looked at.
    unfoldable pub run_instance :
        (I → Go (World H) (VmResult Bytes × I)) → I → Go (CallState H) (Result Bytes)
    unfolding from_vm write_gas
    run_instance call instance = do
      (res, after) ← in_world (call instance)
      write_gas (vm.used_internally after)
      in_world (vm.recycle after)
      pure (from_vm res)

    -- `do_init`, `do_handle` and `do_migrate`, by the function of the machine that they call.
    unfoldable pub do_contract :
        (I → Bytes → Bytes → Go (World H) (VmResult Bytes × I))
        → ℕ
        → Buffer
        → Buffer
        → Buffer
        → Extern H
        → ℕ
        → Go (CallState H) (Result Bytes)
    unfolding run_instance gas_slot read_arg
    do_contract call cache code_id params msg deps gas_limit = gas_slot >>? λ slot.
        read_arg (text "code_id") code_id >>? λ id. pure (from_vm (vm.checksum id)) >>? λ checksum.
        read_arg (text "params") params >>? λ p. read_arg (text "msg") msg >>? λ m.
        vm_call (vm.get_instance cache checksum deps gas_limit)
        >>? run_instance (λ instance. call instance p m)

    -- `do_query`
    unfoldable pub do_query : ℕ → Buffer → Buffer → Extern H → ℕ → Go (CallState H) (Result Bytes)
    unfolding run_instance gas_slot read_arg
    do_query cache code_id msg deps gas_limit = gas_slot >>? λ slot.
        read_arg (text "code_id") code_id >>? λ id. pure (from_vm (vm.checksum id)) >>? λ checksum.
        read_arg (text "msg") msg >>? λ m.
        vm_call (vm.get_instance cache checksum deps gas_limit)
        >>? run_instance (λ instance. vm.call_query_raw instance m)

    -- `do_create` and `do_get_code`
    unfoldable pub do_create : ℕ → Buffer → Go (CallState H) (Result Bytes)
    unfolding read_arg from_vm
    do_create cache wasm = read_arg (text "wasm") wasm >>? λ code. vm_call (vm.save_wasm cache code)

    unfoldable pub do_get_code : ℕ → Buffer → Go (CallState H) (Result Bytes)
    unfolding read_arg from_vm
    do_get_code cache id = read_arg (text "cache") id >>? λ bytes.
        pure (from_vm (vm.checksum bytes)) >>? λ checksum. vm_call (vm.load_wasm cache checksum)

    -- `from_utf8(..)?`
    unfoldable pub as_utf8 : Bytes → Result Bytes
    as_utf8 xs = elim (vm.utf8_error xs) [
      | none ↦ success xs
      | some e ↦ failure (RustError.invalid_utf8 e)
    ]

    -- `do_init_cache`
    unfoldable pub do_init_cache : Buffer → Buffer → Go (CallState H) (Result ℕ)
    unfolding read_arg as_utf8 from_vm
    do_init_cache data_dir supported_features = read_arg (text "data_dir") data_dir >>? λ dir.
        pure (as_utf8 dir) >>? λ dir_str.
        read_arg (text "supported_features") supported_features >>? λ features.
        pure (as_utf8 features) >>? λ features_str. vm_call (vm.new_cache dir_str features_str)
