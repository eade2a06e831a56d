-- ===== src/Tests/Errors.antt =====
-- Errors and query results.
use go_cosmwasm.Base.{ℕ, ◌≡◌, refl, none, some, [], ◌∷◌, ◌+◌}
use go_cosmwasm.Go.{ok}
use go_cosmwasm.Types.StdError.{StdError, set_count}
use go_cosmwasm.Types.Errors.{Error, is_nil, to_system_error}
use go_cosmwasm.Types.Errors.Convert.{to_system_error_others}
use go_cosmwasm.Types.Queries.{
  Querier, decoded, to_querier_result, rust_query, QueryRequest, QuerierResult,
}
use go_cosmwasm.Types.Queries.Laws.{to_querier_result_nil_pointer, rust_query_one}

to_querier_result_nil_pointer_example :
    to_querier_result (some (5 ∷ [])) (some (Error.system_error_ptr none))
    ≡ ok (record { ok = some (record { ok = none; err = none }); err = none })
unfolding is_nil
to_querier_result_nil_pointer_example =
    to_querier_result_nil_pointer (some (5 ∷ [])) (Error.system_error_ptr none) refl

abbrev echo : Querier ℕ
echo = record { query = λ r g s. (ok (some (g ∷ []), none), s + 1); gas_consumed = λ s. (ok s, s) }

abbrev echoed : QuerierResult
echoed = record { ok = some (record { ok = some (6 ∷ []); err = none }); err = none }

abbrev empty_request : QueryRequest
empty_request = record { bank = none; custom = none; staking = none; wasm = none }

rust_query_one_example : set_count echoed.ok + set_count echoed.err ≡ 1
unfolding rust_query
rust_query_one_example = rust_query_one (λ b. decoded empty_request) echo none 6 0 1 echoed refl

to_system_error_others_example : to_system_error (some (Error.other (1 ∷ []))) ≡ none
to_system_error_others_example = to_system_error_others (Error.other (1 ∷ [])) refl
