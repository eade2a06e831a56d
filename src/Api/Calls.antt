-- ===== src/Api/Calls.antt =====
-- The calls of api/lib.go that run no contract: the cache, the stored code, and the enclave's keys.
pub mod Laws
use go_cosmwasm.Base.{ℕ, Bool, true, false, Option, none, some, ◌==◌, if◌then◌else◌}
use go_cosmwasm.Go.{Go, pure, ◌>>=◌, ◌>>◌, Bytes, Slice}
use go_cosmwasm.Ffi.Memory.{Buffer}
use go_cosmwasm.Types.Errors.{Error}
use go_cosmwasm.Api.World.{World, on_heap}
use go_cosmwasm.Api.Memory.{receive_vector}
use go_cosmwasm.Api.Library.{Cache, Reply, Library, error_with_message}
use go_cosmwasm.Api.Contract.{sending}

-- A value and an error, one of which a caller looks at.
pub record Loaded (A : Type 0) : Type 0 where
  pub value : A
  pub error : Option Error

module _ {H : Type 0} where
  -- The end of every function: the zero value with the error, or what the result is turned into.
  unfoldable pub finish :
      {A B : Type 0} → (ℕ → Bytes) → B → (A → Go (World H) B) → Reply A → Go (World H) (Loaded B)
  unfolding error_with_message
  finish errno_text zero_value turn r =
      if r.errno == 0 then (do b ← turn r.res; pure (record { value = b; error = none })) else (do
        e ← on_heap (error_with_message errno_text r.errno r.errmsg)
        pure (record { value = zero_value; error = some e }))

  -- `receiveVector` of the result.
  unfoldable pub finish_bytes : (ℕ → Bytes) → Reply Buffer → Go (World H) (Loaded Slice)
  unfolding finish
  finish_bytes errno_text = finish errno_text none λ b. on_heap (receive_vector b)

  -- `true` where the call had nothing to return.
  unfoldable pub finish_done : (ℕ → Bytes) → Reply (Unit {0}) → Go (World H) (Loaded Bool)
  unfolding finish
  finish_done errno_text = finish errno_text false λ u. pure true

  module _ (lib : Library H) where
    -- `HealthCheck`
    unfoldable pub health_check : Go (World H) (Loaded Slice)
    unfolding finish_bytes
    health_check = do r ← lib.get_health_check; finish_bytes lib.errno_text r

    -- `InitBootstrap`
    unfoldable pub init_bootstrap : Go (World H) (Loaded Slice)
    unfolding finish_bytes
    init_bootstrap = do r ← lib.init_bootstrap; finish_bytes lib.errno_text r

    -- `LoadSeedToEnclave`
    unfoldable pub load_seed_to_enclave : Slice → Slice → Go (World H) (Loaded Bool)
    unfolding finish_done
    load_seed_to_enclave master_cert seed =
        sending master_cert
          λ pk. sending seed λ s. lib.init_node pk s >>= finish_done lib.errno_text

    -- `InitCache`: the strings are sent as slices that are never nil.
    unfoldable pub init_cache : Bytes → Bytes → ℕ → Go (World H) (Loaded Cache)
    unfolding finish
    init_cache data_dir supported_features cache_size = sending (some data_dir) λ dir.
        sending (some supported_features) λ features.
          lib.init_cache dir features cache_size
          >>= finish lib.errno_text (record { ptr = none }) λ p. pure (record { ptr = p })

    -- `ReleaseCache`
    unfoldable pub release_cache : Cache → Go (World H) (Unit {0})
    release_cache cache = lib.release_cache cache.ptr

    -- `Create`
    unfoldable pub create : Cache → Slice → Go (World H) (Loaded Slice)
    unfolding finish_bytes
    create cache wasm =
        sending wasm λ code. lib.create cache.ptr code >>= finish_bytes lib.errno_text

    -- `GetCode`
    unfoldable pub get_code : Cache → Slice → Go (World H) (Loaded Slice)
    unfolding finish_bytes
    get_code cache code_id =
        sending code_id λ id. lib.get_code cache.ptr id >>= finish_bytes lib.errno_text

    -- `KeyGen`
    unfoldable pub key_gen : Go (World H) (Loaded Slice)
    unfolding finish_bytes
    key_gen = do r ← lib.key_gen; finish_bytes lib.errno_text r

    -- `CreateAttestationReport`
    unfoldable pub create_attestation_report : Go (World H) (Loaded Bool)
    unfolding finish_done
    create_attestation_report = do r ← lib.create_attestation_report; finish_done lib.errno_text r

    -- `GetEncryptedSeed`
    unfoldable pub get_encrypted_seed : Slice → Go (World H) (Loaded Slice)
    unfolding finish_bytes
    get_encrypted_seed cert =
        sending cert λ c. lib.get_encrypted_seed c >>= finish_bytes lib.errno_text
