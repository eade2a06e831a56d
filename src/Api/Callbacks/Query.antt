-- ===== src/Api/Callbacks/Query.antt =====
-- cQueryExternal of api/callbacks.go. The application's querier works on the whole world, since it
-- may run another contract.
use go_cosmwasm.Base.{ℕ, Option, none, some, ◌||◌, if◌then◌else◌, is_null}
use go_cosmwasm.Go.{Go, ok, pure, ◌>>=◌, ◌>>◌, Slice}
use go_cosmwasm.Ffi.Memory.{Buffer}
use go_cosmwasm.Ffi.Status.{GoResult}
use go_cosmwasm.Types.Queries.{
  QueryRequest, QuerierResult, Querier, Decoded, decoded, malformed, rust_query,
}
use go_cosmwasm.Api.World.{World}
use go_cosmwasm.Api.Memory.{allocate_rust, receive_slice}
use go_cosmwasm.Api.Callbacks.{
  Callback, recover_panic, in_world, with_heap, write_used_gas, write_val, write_err_out,
  gas_between,
}

-- encoding/json at the two types that a query needs; a failure gives the error's text.
pub record QueryJson : Type 0 where
  pub unmarshal_request : Slice → Decoded QueryRequest
  pub marshal_result : QuerierResult → Decoded Slice

module _ {H : Type 0} where
  -- The end of the callback, from the test of `json.Marshal`'s error on.
  unfoldable pub write_response : Decoded Slice → Go (Callback H) GoResult
  write_response (malformed text) c =
      (do write_err_out (← with_heap (allocate_rust (some text))); pure GoResult.other) c
  write_response (decoded bz) c =
      (do write_val (← with_heap (allocate_rust bz)); pure GoResult.ok) c

  unfoldable pub query_body :
      QueryJson → Option (Querier (World H)) → ℕ → Buffer → Go (Callback H) GoResult
  unfolding write_response
  query_body json (some q) gas_limit request c =
      if is_null c.slots.used_gas || is_null c.slots.val
      then (ok GoResult.bad_argument, c)
      else (do
        req ← with_heap (receive_slice request)
        before ← in_world q.gas_consumed
        res ← in_world (rust_query json.unmarshal_request q req gas_limit)
        after ← in_world q.gas_consumed
        write_used_gas (gas_between before after)
        write_response (json.marshal_result res))
          c
  query_body json none gas_limit request c = (ok GoResult.bad_argument, c)

  -- `cQueryExternal`
  unfoldable pub c_query_external :
      QueryJson → Option (Querier (World H)) → ℕ → Buffer → Go (Callback H) GoResult
  unfolding query_body recover_panic
  c_query_external json ptr gas_limit request =
      recover_panic (query_body json ptr gas_limit request)
