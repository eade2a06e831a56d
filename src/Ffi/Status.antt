-- ===== src/Ffi/Status.antt =====
-- The status codes that cross the boundary: src/error/go.rs, and `ErrnoValue` of src/error/rust.rs.
use go_cosmwasm.Base.{Option, none, some}
use go_cosmwasm.Go.{Go, pure, ◌>>=◌, Bytes}
use go_cosmwasm.Ffi.Memory.{Heap, Ptr, Buffer, consume}

-- `GoResult`
pub data GoResult : Type 0 where
  ok panic bad_argument out_of_gas other user : GoResult

-- `FfiError`; `none` for the text that the caller falls back to.
pub data FfiError : Type 0 where
  foreign_panic bad_argument out_of_gas : FfiError
  unknown user_err : Option Bytes → FfiError

pub data FfiResult (A : Type 0) : Type 0 where
  done : A → FfiResult A
  failed : FfiError → FfiResult A

-- The closure `read_error_msg`: a null buffer stands for the fallback text.
unfoldable pub read_error_msg : Buffer → Go Heap (Option Bytes)
unfolding consume
read_error_msg b = elim b.ptr [
  | Ptr.null ↦ pure none
  | Ptr.dangling ↦ consume b >>= λ xs. pure (some xs)
  | Ptr.at p ↦ consume b >>= λ xs. pure (some xs)
]

-- `into_ffi_result`
unfoldable pub into_ffi_result : GoResult → Buffer → Go Heap (FfiResult (Unit {0}))
unfolding read_error_msg
into_ffi_result GoResult.ok msg h = pure (done tt) h
into_ffi_result GoResult.panic msg h = pure (failed FfiError.foreign_panic) h
into_ffi_result GoResult.bad_argument msg h = pure (failed FfiError.bad_argument) h
into_ffi_result GoResult.out_of_gas msg h = pure (failed FfiError.out_of_gas) h
into_ffi_result GoResult.other msg h =
    (read_error_msg msg >>= λ text. pure (failed (FfiError.unknown text))) h
into_ffi_result GoResult.user msg h =
    (read_error_msg msg >>= λ text. pure (failed (FfiError.user_err text))) h
