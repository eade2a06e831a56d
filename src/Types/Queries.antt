-- ===== src/Types/Queries.antt =====
-- types/queries.go: the requests of a contract to the rest of the system, and their results.
pub mod Laws
use go_cosmwasm.Base.{ℕ, Option, none, some}
use go_cosmwasm.Base.Text.{text}
use go_cosmwasm.Go.{Go, Outcome, ok, panic, fault, pure, ◌>>=◌, Bytes, Slice}
use go_cosmwasm.Types.StdError.{StdError}
use go_cosmwasm.Types.SystemError.{SystemError, UnsupportedRequest}
use go_cosmwasm.Types.Errors.{Error, to_std_error, to_system_error}

pub record QueryResponse : Type 0 where
  pub ok : Slice
  pub err : Option StdError

-- A two-level result.
pub record QuerierResult : Type 0 where
  pub ok : Option QueryResponse
  pub err : Option SystemError

pub record BalanceQuery : Type 0 where
  pub address : Bytes
  pub denom : Bytes

pub record AllBalancesQuery : Type 0 where
  pub address : Bytes

pub record BankQuery : Type 0 where
  pub balance : Option BalanceQuery
  pub all_balances : Option AllBalancesQuery

pub data ValidatorsQuery : Type 0 where
  validators_query : ValidatorsQuery

pub record AllDelegationsQuery : Type 0 where
  pub delegator : Bytes

pub record DelegationQuery : Type 0 where
  pub delegator : Bytes
  pub validator : Bytes

pub record StakingQuery : Type 0 where
  pub validators : Option ValidatorsQuery
  pub all_delegations : Option AllDelegationsQuery
  pub delegation : Option DelegationQuery
  pub bonded_denom : Option (Unit {0})

pub record SmartQuery : Type 0 where
  pub contract_addr : Bytes
  pub msg : Slice

pub record RawQuery : Type 0 where
  pub contract_addr : Bytes
  pub key : Slice

pub record WasmQuery : Type 0 where
  pub smart : Option SmartQuery
  pub raw : Option RawQuery

-- `custom` is the raw JSON text.
pub record QueryRequest : Type 0 where
  pub bank : Option BankQuery
  pub custom : Slice
  pub staking : Option StakingQuery
  pub wasm : Option WasmQuery

-- `Querier`, over a state of the application's.
pub record Querier (S : Type 0) : Type 0 where
  pub query : QueryRequest → ℕ → Go S (Slice × Option Error)
  pub gas_consumed : Go S ℕ

-- What `json.Unmarshal` makes of a request: the request, or the text of its error.
pub data Decoded (A : Type 0) : Type 0 where
  decoded : A → Decoded A
  malformed : Bytes → Decoded A

-- The last two branches of `ToQuerierResult`.
unfoldable pub error_result : Option SystemError → Outcome (Option StdError) → Outcome QuerierResult
error_result (some syserr) stderr = Outcome.ok (record { ok = none; err = some syserr })
error_result none (Outcome.ok stderr) =
    Outcome.ok (record { ok = some (record { ok = none; err = stderr }); err = none })
error_result none (panic p) = panic p
error_result none fault = fault

-- `ToQuerierResult`
unfoldable pub to_querier_result : Slice → Option Error → Outcome QuerierResult
unfolding error_result
to_querier_result response none =
    Outcome.ok (record { ok = some (record { ok = response; err = none }); err = none })
to_querier_result response (some e) =
    error_result (to_system_error (some e)) (to_std_error (some e))

-- The rest of `RustQuery`, once the request is decoded.
unfoldable pub answer_query :
    {S : Type 0} → Querier S → ℕ → Decoded QueryRequest → Go S QuerierResult
unfolding to_querier_result
answer_query q gas_limit (malformed t) s =
    (to_querier_result none (some (Error.unsupported_request (record { kind = t }))), s)
answer_query q gas_limit (decoded request) s =
    (do (bz, err) ← q.query request gas_limit; λ s. (to_querier_result bz err, s)) s

-- `RustQuery`, with `json.Unmarshal` at the type `QueryRequest` as its first argument.
unfoldable pub rust_query :
    {S : Type 0} → (Slice → Decoded QueryRequest) → Querier S → Slice → ℕ → Go S QuerierResult
unfolding answer_query
rust_query unmarshal q bin_request gas_limit = answer_query q gas_limit (unmarshal bin_request)
