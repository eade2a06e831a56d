-- ===== src/Ffi/Address.antt =====
-- src/api.rs: the virtual machine's view of the application's addresses.
pub mod Agrees
use go_cosmwasm.Base.{ℕ, Option, none, some, []}
use go_cosmwasm.Go.{Go, pure, ◌>>=◌, ◌>>◌, Bytes}
use go_cosmwasm.Ffi.Memory.{Heap, Ptr, Buffer, null_buffer, from_vec, consume}
use go_cosmwasm.Ffi.Status.{GoResult, FfiError, FfiResult, done, failed, into_ffi_result}
use go_cosmwasm.Ffi.Storage.{buffer_in, gas_in, answer, call_back, fresh_slots}
use go_cosmwasm.Api.World.{World, on_heap}
use go_cosmwasm.Api.Host.{GoApi}
use go_cosmwasm.Api.Callbacks.{Callback, Slots}
use go_cosmwasm.Api.Gateways.{api_vtable}

-- `if output.ptr.is_null() { Vec::new() } else { output.consume() }`
unfoldable pub address_in : Buffer → Go Heap Bytes
address_in b = elim b.ptr [ Ptr.null ↦ pure [] | Ptr.dangling ↦ consume b | Ptr.at p ↦ consume b ]

-- `String::from_utf8(..).map_err(FfiError::from)`, with the error of bytes that are no text.
unfoldable pub as_text : (Bytes → Option FfiError) → FfiResult Bytes → FfiResult Bytes
as_text utf8_error (failed e) = failed e
as_text utf8_error (done xs) = elim (utf8_error xs) [ none ↦ done xs | some e ↦ failed e ]

module _ {H : Type 0} where
  -- What the two functions share: `output` is the variable `val` of the callback.
  unfoldable pub address_call :
      (Buffer → Go (Callback H) GoResult) → Bytes → Go (World H) (FfiResult Bytes × ℕ)
  unfolding into_ffi_result answer address_in
  address_call callback address = do
    buf ← on_heap (from_vec address)
    (status, out) ← call_back fresh_slots (callback buf)
    on_heap (consume buf)
    checked ← on_heap (into_ffi_result status (buffer_in out.err_out))
    value ← on_heap (answer checked (address_in (buffer_in out.val)))
    pure (value, gas_in out.used_gas)

  -- `Api::canonical_address`
  unfoldable pub canonical_address : Option (GoApi H) → Bytes → Go (World H) (FfiResult Bytes × ℕ)
  unfolding address_call
  canonical_address api human = address_call (api_vtable.canonicalize_address api) human

  -- `Api::human_address`
  unfoldable pub human_address :
      (Bytes → Option FfiError) → Option (GoApi H) → Bytes → Go (World H) (FfiResult Bytes × ℕ)
  unfolding address_call as_text
  human_address utf8_error api canonical = do
    (r, gas) ← address_call (api_vtable.humanize_address api) canonical
    pure (as_text utf8_error r, gas)
