-- ===== src/Ffi/Error.antt =====
-- src/error/rust.rs: the errors of the Rust side, and how they reach Go through errno and a buffer.
use go_cosmwasm.Base.{ℕ, ◌++◌}
use go_cosmwasm.Base.Text.{text}
use go_cosmwasm.Go.{Go, pure, ◌>>=◌, Bytes}
use go_cosmwasm.Ffi.Memory.{Heap, Buffer, from_vec}

-- `Error`, without the backtraces.
pub data RustError : Type 0 where
  empty_arg invalid_utf8 vm_err enclave_err : Bytes → RustError
  out_of_gas caught_panic : RustError

-- The text of `Display`.
unfoldable pub error_message : RustError → Bytes
error_message (RustError.empty_arg name) = text "Null/Empty argument: " ++ name
error_message (RustError.invalid_utf8 msg) = text "Cannot decode UTF8 bytes into string: " ++ msg
error_message RustError.out_of_gas = text "Ran out of gas"
error_message RustError.caught_panic = text "Caught Panic"
error_message (RustError.vm_err msg) = text "Execution error: " ++ msg
error_message (RustError.enclave_err msg) = msg

-- `Result<A, Error>`
pub data Result (A : Type 0) : Type 0 where
  success : A → Result A
  failure : RustError → Result A

-- A `VmError`: the one that the conversion tells apart, or any other by its text.
pub data VmError : Type 0 where
  gas_depletion : VmError
  other_vm : Bytes → VmError

-- `From<VmError> for Error`
unfoldable pub of_vm : VmError → RustError
of_vm VmError.gas_depletion = RustError.out_of_gas
of_vm (VmError.other_vm msg) = RustError.vm_err msg

-- `Result<A, VmError>`, whose error the operator `?` converts.
pub data VmResult (A : Type 0) : Type 0 where
  vm_ok : A → VmResult A
  vm_failed : VmError → VmResult A

unfoldable pub from_vm : {A : Type 0} → VmResult A → Result A
unfolding of_vm
from_vm (vm_ok a) = Result.success a
from_vm (vm_failed e) = Result.failure (of_vm e)

-- `ErrnoValue` of an error.
unfoldable pub errno_value : RustError → ℕ
errno_value RustError.out_of_gas = 2
errno_value _ = 1

-- `set_error`, with the caller's buffer at hand: errno, and what the buffer then is.
unfoldable pub set_error : RustError → Go Heap (ℕ × Buffer)
unfolding error_message errno_value
set_error e = do msg ← from_vec (error_message e); pure (errno_value e, msg)
