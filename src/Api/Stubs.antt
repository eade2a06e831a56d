-- ===== src/Api/Stubs.antt =====
-- api/lib_mock.go: the package api in a build with the tag secretcli, without the Rust library. Its
-- `Cache` has no fields.
use go_cosmwasm.Base.{ℕ, Bool, true, none}
use go_cosmwasm.Go.{Go, pure, Bytes, Slice}
use go_cosmwasm.Api.Contract.{Returned, Environment}
use go_cosmwasm.Api.Calls.{Loaded}

abbrev pub NoCache : Type 0
NoCache = Unit {0}

abbrev pub nothing : Loaded Slice
nothing = record { value = none; error = none }

abbrev pub done : Loaded Bool
done = record { value = true; error = none }

abbrev pub nothing_returned : Returned
nothing_returned = record { bytes = none; gas_used = 0; error = none }

module _ {S : Type 0} where
  -- `HealthCheck`, `InitBootstrap` and `KeyGen`
  unfoldable pub health_check : Go S (Loaded Slice)
  health_check = pure nothing

  unfoldable pub init_bootstrap : Go S (Loaded Slice)
  init_bootstrap = pure nothing

  unfoldable pub key_gen : Go S (Loaded Slice)
  key_gen = pure nothing

  -- `LoadSeedToEnclave` and `CreateAttestationReport`
  unfoldable pub load_seed_to_enclave : Slice → Slice → Go S (Loaded Bool)
  load_seed_to_enclave master_cert seed = pure done

  unfoldable pub create_attestation_report : Go S (Loaded Bool)
  create_attestation_report = pure done

  -- `InitCache` and `ReleaseCache`
  unfoldable pub init_cache : Bytes → Bytes → ℕ → Go S (Loaded NoCache)
  init_cache data_dir supported_features cache_size = pure (record { value = tt; error = none })

  unfoldable pub release_cache : NoCache → Go S (Unit {0})
  release_cache cache = pure tt

  -- `Create`, `GetCode` and `GetEncryptedSeed`
  unfoldable pub create : NoCache → Slice → Go S (Loaded Slice)
  create cache wasm = pure nothing

  unfoldable pub get_code : NoCache → Slice → Go S (Loaded Slice)
  get_code cache code_id = pure nothing

  unfoldable pub get_encrypted_seed : Slice → Go S (Loaded Slice)
  get_encrypted_seed cert = pure nothing

  module _ {H : Type 0} where
    -- `Instantiate`, `Handle`, `Migrate` and `Query`
    unfoldable pub instantiate : NoCache → Slice → Slice → Slice → Environment H → ℕ → Go S Returned
    instantiate cache code_id params msg env gas_limit = pure nothing_returned

    unfoldable pub handle : NoCache → Slice → Slice → Slice → Environment H → ℕ → Go S Returned
    handle cache code_id params msg env gas_limit = pure nothing_returned

    unfoldable pub migrate : NoCache → Slice → Slice → Slice → Environment H → ℕ → Go S Returned
    migrate cache code_id params msg env gas_limit = pure nothing_returned

    unfoldable pub query : NoCache → Slice → Slice → Environment H → ℕ → Go S Returned
    query cache code_id msg env gas_limit = pure nothing_returned
