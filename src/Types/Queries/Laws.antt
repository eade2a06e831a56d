-- ===== src/Types/Queries/Laws.antt =====
-- The two levels of a query's result.
use go_cosmwasm.Base.{ℕ, ◌≡◌, ap, true, false, Option, none, some, ◌+◌, ◌⊎◌, arith}
use go_cosmwasm.Go.{Outcome, Slice}
use go_cosmwasm.Types.StdError.{StdError, set_count}
use go_cosmwasm.Types.SystemError.{SystemError, system_text, system_fields}
use go_cosmwasm.Types.Errors.{Error, error_text, is_nil, to_std_error, to_system_error}
use go_cosmwasm.Types.Errors.Convert.{is_system, own_system, to_system_error_lem}
use go_cosmwasm.Types.Queries.{
  QuerierResult, Querier, QueryRequest, Decoded, decoded, malformed, error_result,
  to_querier_result, rust_query, answer_query,
}

-- A system error goes to the outer level, alone, with its text.
pub to_querier_result_system :
    (response : Slice) (e : Error)
    → is_system e ≡ true
    → is_nil (some e) ≡ false
    → (s : SystemError) × (to_querier_result response (some e)
        ≡ Outcome.ok (record { ok = none; err = some s }))
      × (system_text s ≡ error_text e)
      × ((own_system e ≡ some s) ⊎ (system_fields s ≡ 1))
unfolding to_querier_result
to_querier_result_system response e k n =
    let (s, made, same, one) = to_system_error_lem e k n in (s, ground (arith, made), same, one)

-- A nil pointer that is passed as an error is no nil `error`: the response is dropped, and the
-- result carries neither a response nor an error.
pub to_querier_result_nil_pointer :
    (response : Slice) (e : Error)
    → is_nil (some e) ≡ true
    → to_querier_result response (some e)
      ≡ Outcome.ok (record { ok = some (record { ok = none; err = none }); err = none })
unfolding to_querier_result to_system_error to_std_error
to_querier_result_nil_pointer response e n = ground arith

error_result_one :
    (o : Option SystemError) (p : Outcome (Option StdError)) (r : QuerierResult)
    → error_result o p ≡ Outcome.ok r
    → set_count r.ok + set_count r.err ≡ 1
unfolding error_result
error_result_one (some e) p r h = ground arith
error_result_one none (Outcome.ok e) r h = ground arith
error_result_one none (Outcome.panic p) r h = ground arith
error_result_one none Outcome.fault r h = ground arith

to_querier_result_one :
    (response : Slice) (e : Option Error) (r : QuerierResult)
    → to_querier_result response e ≡ Outcome.ok r
    → set_count r.ok + set_count r.err ≡ 1
unfolding to_querier_result
to_querier_result_one response none r h = ground arith
to_querier_result_one response (some e) r h =
    error_result_one (to_system_error (some e)) (to_std_error (some e)) r h

answer_query_one :
    {S : Type 0} (q : Querier S) (gas_limit : ℕ) (d : Decoded QueryRequest) (s t : S)
    (r : QuerierResult)
    → answer_query q gas_limit d s ≡ (Outcome.ok r, t)
    → set_count r.ok + set_count r.err ≡ 1
unfolding answer_query
answer_query_one q gas_limit (malformed m) s t r h =
    to_querier_result_one none (some (Error.unsupported_request (record { kind = m }))) r
      (ap (λ x. x.0) h)
answer_query_one q gas_limit (decoded request) s t r h = grind (arith, to_querier_result_one)

-- Every result of `RustQuery` has exactly one of its two outer fields set, whatever the request and
-- the application's answer are.
pub rust_query_one :
    {S : Type 0} (unmarshal : Slice → Decoded QueryRequest) (q : Querier S) (request : Slice)
    (gas_limit : ℕ) (s t : S) (r : QuerierResult)
    → rust_query unmarshal q request gas_limit s ≡ (Outcome.ok r, t)
    → set_count r.ok + set_count r.err ≡ 1
unfolding rust_query
rust_query_one unmarshal q request gas_limit s t r h =
    answer_query_one q gas_limit (unmarshal request) s t r h
