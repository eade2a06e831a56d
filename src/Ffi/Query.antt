-- ===== src/Ffi/Query.antt =====
-- src/querier.rs: the virtual machine's queries of other contracts and modules.
pub mod Agrees
pub mod Exchange
pub mod Realises
pub mod Echoing
pub mod Sparing
use go_cosmwasm.Base.{ℕ, Option, ◌++◌}
use go_cosmwasm.Base.Text.{text}
use go_cosmwasm.Go.{Go, pure, ◌>>=◌, ◌>>◌, Bytes}
use go_cosmwasm.Ffi.Memory.{from_vec, consume}
use go_cosmwasm.Ffi.Status.{FfiResult, done, failed, into_ffi_result}
use go_cosmwasm.Ffi.Storage.{buffer_in, gas_in, fresh_slots, answer, call_back}
use go_cosmwasm.Types.Queries.{Querier, Decoded, decoded, malformed}
use go_cosmwasm.Api.World.{World, on_heap}
use go_cosmwasm.Api.Callbacks.Query.{QueryJson}
use go_cosmwasm.Api.Gateways.{querier_vtable}

-- serde_json at `SystemResult<StdResult<Binary>>`, of any type R, and the error
-- `SystemError::InvalidResponse` with its text and the bytes that are no such result.
pub record ResultJson (R : Type 0) : Type 0 where
  pub from_slice : Bytes → Decoded R
  pub invalid_response : Bytes → Bytes → R

-- `serde_json::from_slice(..).or_else(..)`
unfoldable pub parse_result : {R : Type 0} → ResultJson R → Bytes → Decoded R → R
parse_result serde bin (decoded r) = r
parse_result serde bin (malformed e) =
    serde.invalid_response (text "Parsing Go response: " ++ e) bin

-- `GoQuerier::query_raw`; the text for a failure without a message is the machine's affair.
unfoldable pub query_raw :
    {H R : Type 0}
    → QueryJson
    → ResultJson R
    → Option (Querier (World H))
    → Bytes
    → ℕ
    → Go (World H) (FfiResult R × ℕ)
unfolding into_ffi_result answer parse_result
query_raw json serde q request gas_limit = do
  request_buf ← on_heap (from_vec request)
  (status, out) ← call_back fresh_slots (querier_vtable.query_external json q gas_limit request_buf)
  on_heap (consume request_buf)
  checked ← on_heap (into_ffi_result status (buffer_in out.err_out))
  bin ← on_heap (answer checked (consume (buffer_in out.val)))
  pure (
    elim bin [ done xs ↦ done (parse_result serde xs (serde.from_slice xs)) | failed e ↦ failed e ],
    gas_in out.used_gas,
  )
