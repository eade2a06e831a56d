-- ===== src/Api/Library.antt =====
-- What api/lib.go calls through cgo, and how it reads an answer: the Rust library is a parameter.
use go_cosmwasm.Base.{ℕ, Option, none, some, ◌==◌, if◌then◌else◌}
use go_cosmwasm.Go.{Go, ok, panic, fault, pure, throw, ◌>>=◌, ◌>>◌, Bytes, Slice}
use go_cosmwasm.Ffi.Memory.{Heap, Buffer}
use go_cosmwasm.Types.Errors.{Error}
use go_cosmwasm.Types.Queries.{Querier}
use go_cosmwasm.Api.World.{World}
use go_cosmwasm.Api.Host.{GasMeter, GoApi}
use go_cosmwasm.Api.Memory.{receive_vector}
use go_cosmwasm.Api.Callbacks.{DbState}

-- `Cache`, a pointer that Rust made.
pub record Cache : Type 0 where
  pub ptr : Option ℕ

-- `C.DB`, `C.GoApi` and `C.GoQuerier`, without the vtables, which are constants.
pub record Db (H : Type 0) : Type 0 where
  pub gas_meter : Option (GasMeter H)
  pub state : Option (DbState H)

pub record ApiRef (H : Type 0) : Type 0 where
  pub state : Option (GoApi H)

pub record QuerierRef (H : Type 0) : Type 0 where
  pub state : Option (Querier (World H))

-- `buildDB`, `buildAPI` and `buildQuerier`
unfoldable pub build_db : {H : Type 0} → Option (DbState H) → Option (GasMeter H) → Db H
build_db state gm = record { gas_meter = gm; state = state }

unfoldable pub build_api : {H : Type 0} → Option (GoApi H) → ApiRef H
build_api api = record { state = api }

unfoldable pub build_querier : {H : Type 0} → Option (Querier (World H)) → QuerierRef H
build_querier q = record { state = q }

-- What a call leaves: its value, errno, and the variables `gasUsed` and `errmsg`.
pub record Reply (A : Type 0) : Type 0 where
  pub res : A
  pub errno : ℕ
  pub gas_used : ℕ
  pub errmsg : Buffer

-- A contract call with the environment, and a query, which has none.
abbrev pub ContractFn : Type 0 → Type 0
ContractFn H =
    Option ℕ
    → Buffer
    → Buffer
    → Buffer
    → Db H
    → ApiRef H
    → QuerierRef H
    → ℕ
    → Go (World H) (Reply Buffer)

abbrev pub QueryFn : Type 0 → Type 0
QueryFn H =
    Option ℕ → Buffer → Buffer → Db H → ApiRef H → QuerierRef H → ℕ → Go (World H) (Reply Buffer)

pub record Library (H : Type 0) : Type 0 where
  pub get_health_check : Go (World H) (Reply Buffer)
  pub init_bootstrap : Go (World H) (Reply Buffer)
  pub init_node : Buffer → Buffer → Go (World H) (Reply (Unit {0}))
  pub init_cache : Buffer → Buffer → ℕ → Go (World H) (Reply (Option ℕ))
  pub release_cache : Option ℕ → Go (World H) (Unit {0})
  pub create : Option ℕ → Buffer → Go (World H) (Reply Buffer)
  pub get_code : Option ℕ → Buffer → Go (World H) (Reply Buffer)
  pub instantiate : ContractFn H
  pub handle : ContractFn H
  pub migrate : ContractFn H
  pub query : QueryFn H
  pub key_gen : Go (World H) (Reply Buffer)
  pub create_attestation_report : Go (World H) (Reply (Unit {0}))
  pub get_encrypted_seed : Buffer → Go (World H) (Reply Buffer)
  -- `syscall.Errno.Error`
  pub errno_text : ℕ → Bytes

-- `defer`: the cleanup runs after a return and after a panic.
unfoldable pub deferring : {S A : Type 0} → Go S (Unit {0}) → Go S A → Go S A
deferring cleanup m s =
    let (r, s') = m s in
    elim r [
      | ok a ↦ (cleanup >> pure a) s'
      | panic p ↦ (cleanup >> throw p) s'
      | fault ↦ (fault, s')
    ]

-- The text of an error without a message is errno's.
abbrev pub message_error : (ℕ → Bytes) → ℕ → Slice → Error
message_error errno_text errno none = Error.other (errno_text errno)
message_error errno_text errno (some msg) = Error.other msg

-- `errorWithMessage`, for the error that cgo makes of an errno.
unfoldable pub error_with_message : (ℕ → Bytes) → ℕ → Buffer → Go Heap Error
error_with_message errno_text errno b =
    if errno == 2
    then pure Error.out_of_gas_error
    else do msg ← receive_vector b; pure (message_error errno_text errno msg)
