-- ===== src/Types/Errors.antt =====
-- Go's `error` values, and `isNil`, `ToStdError` and `ToSystemError` of types/stderror.go and
-- types/systemerror.go.
pub mod Convert
use go_cosmwasm.Base.{Bool, true, false, Option, none, some, if◌then◌else◌, is_null}
use go_cosmwasm.Base.Text.{text}
use go_cosmwasm.Go.{Outcome, ok, panic, fault, Panic, Bytes}
use go_cosmwasm.Types.StdError.{
  GenericErr, InvalidBase64, InvalidUtf8, NotFound, ParseErr, SerializeErr, Unauthorized, Underflow,
  StdError, no_std_error, generic_text, base64_text, utf8_text, not_found_text, parse_text,
  serialize_text, unauthorized_text, underflow_text, std_text,
}
use go_cosmwasm.Types.SystemError.{
  InvalidRequest, InvalidResponse, NoSuchContract, Unknown, UnsupportedRequest, SystemError,
  no_system_error, invalid_request_text, invalid_response_text, no_such_contract_text, unknown_text,
  unsupported_request_text, system_text,
}

-- A non-nil interface value of type `error`, by its dynamic type: a struct of the package, or a
-- pointer to one, which may be nil. `other` and `other_ptr` stand for every type of other packages,
-- with the text that its `Error` returns. An `error` is an `Option Error`.
pub data Error : Type 0 where
  std_error : StdError → Error
  std_error_ptr : Option StdError → Error
  generic_err : GenericErr → Error
  generic_err_ptr : Option GenericErr → Error
  invalid_base64 : InvalidBase64 → Error
  invalid_base64_ptr : Option InvalidBase64 → Error
  invalid_utf8 : InvalidUtf8 → Error
  invalid_utf8_ptr : Option InvalidUtf8 → Error
  not_found : NotFound → Error
  not_found_ptr : Option NotFound → Error
  parse_err : ParseErr → Error
  parse_err_ptr : Option ParseErr → Error
  serialize_err : SerializeErr → Error
  serialize_err_ptr : Option SerializeErr → Error
  unauthorized : Unauthorized → Error
  unauthorized_ptr : Option Unauthorized → Error
  underflow : Underflow → Error
  underflow_ptr : Option Underflow → Error
  system_error : SystemError → Error
  system_error_ptr : Option SystemError → Error
  invalid_request : InvalidRequest → Error
  invalid_request_ptr : Option InvalidRequest → Error
  invalid_response : InvalidResponse → Error
  invalid_response_ptr : Option InvalidResponse → Error
  no_such_contract : NoSuchContract → Error
  no_such_contract_ptr : Option NoSuchContract → Error
  unknown : Unknown → Error
  unknown_ptr : Option Unknown → Error
  unsupported_request : UnsupportedRequest → Error
  unsupported_request_ptr : Option UnsupportedRequest → Error
  out_of_gas_error : Error
  other : Bytes → Error
  other_ptr : Option Bytes → Error

-- A value method called through a nil pointer panics.
abbrev pub nil_receiver : Panic
nil_receiver = record { type_name = "plainError" }

abbrev pub through : {A : Type 0} → Option A → (A → Outcome Bytes) → Outcome Bytes
through none show = panic nil_receiver
through (some a) show = show a

-- `err.Error()`
unfoldable pub error_text : Error → Outcome Bytes
error_text (std_error e) = std_text e
error_text (std_error_ptr p) = through p std_text
error_text (generic_err e) = ok (generic_text e)
error_text (generic_err_ptr p) = through p λ e. ok (generic_text e)
error_text (invalid_base64 e) = ok (base64_text e)
error_text (invalid_base64_ptr p) = through p λ e. ok (base64_text e)
error_text (invalid_utf8 e) = ok (utf8_text e)
error_text (invalid_utf8_ptr p) = through p λ e. ok (utf8_text e)
error_text (not_found e) = ok (not_found_text e)
error_text (not_found_ptr p) = through p λ e. ok (not_found_text e)
error_text (parse_err e) = ok (parse_text e)
error_text (parse_err_ptr p) = through p λ e. ok (parse_text e)
error_text (serialize_err e) = ok (serialize_text e)
error_text (serialize_err_ptr p) = through p λ e. ok (serialize_text e)
error_text (unauthorized e) = ok (unauthorized_text e)
error_text (unauthorized_ptr p) = through p λ e. ok (unauthorized_text e)
error_text (underflow e) = ok (underflow_text e)
error_text (underflow_ptr p) = through p λ e. ok (underflow_text e)
error_text (system_error e) = system_text e
error_text (system_error_ptr p) = through p system_text
error_text (invalid_request e) = ok (invalid_request_text e)
error_text (invalid_request_ptr p) = through p λ e. ok (invalid_request_text e)
error_text (invalid_response e) = ok (invalid_response_text e)
error_text (invalid_response_ptr p) = through p λ e. ok (invalid_response_text e)
error_text (no_such_contract e) = ok (no_such_contract_text e)
error_text (no_such_contract_ptr p) = through p λ e. ok (no_such_contract_text e)
error_text (unknown e) = ok (unknown_text e)
error_text (unknown_ptr p) = through p λ e. ok (unknown_text e)
error_text (unsupported_request e) = ok (unsupported_request_text e)
error_text (unsupported_request_ptr p) = through p λ e. ok (unsupported_request_text e)
error_text out_of_gas_error = ok (text "Out of gas")
error_text (other t) = ok t
error_text (other_ptr p) = through p ok

-- `isNil`, of an interface that has a type.
unfoldable pub is_nil_error : Error → Bool
is_nil_error (std_error_ptr p) = is_null p
is_nil_error (generic_err_ptr p) = is_null p
is_nil_error (invalid_base64_ptr p) = is_null p
is_nil_error (invalid_utf8_ptr p) = is_null p
is_nil_error (not_found_ptr p) = is_null p
is_nil_error (parse_err_ptr p) = is_null p
is_nil_error (serialize_err_ptr p) = is_null p
is_nil_error (unauthorized_ptr p) = is_null p
is_nil_error (underflow_ptr p) = is_null p
is_nil_error (system_error_ptr p) = is_null p
is_nil_error (invalid_request_ptr p) = is_null p
is_nil_error (invalid_response_ptr p) = is_null p
is_nil_error (no_such_contract_ptr p) = is_null p
is_nil_error (unknown_ptr p) = is_null p
is_nil_error (unsupported_request_ptr p) = is_null p
is_nil_error (other_ptr p) = is_null p
is_nil_error _ = false

-- `isNil`
unfoldable pub is_nil : Option Error → Bool
unfolding is_nil_error
is_nil none = true
is_nil (some e) = is_nil_error e

-- The default case of `ToStdError`: the error's text in a `GenericErr`.
abbrev pub as_generic : Outcome Bytes → Outcome (Option StdError)
as_generic (ok t) = ok (some (record no_std_error { generic_err = some (record { msg = t }) }))
as_generic (panic p) = panic p
as_generic fault = fault

-- The type switch of `ToStdError`.
unfoldable pub std_error_of : Error → Outcome (Option StdError)
unfolding error_text
std_error_of (std_error e) = ok (some e)
std_error_of (std_error_ptr p) = ok p
std_error_of (generic_err e) = ok (some (record no_std_error { generic_err = some e }))
std_error_of (generic_err_ptr p) = ok (some (record no_std_error { generic_err = p }))
std_error_of (invalid_base64 e) = ok (some (record no_std_error { invalid_base64 = some e }))
std_error_of (invalid_base64_ptr p) = ok (some (record no_std_error { invalid_base64 = p }))
std_error_of (invalid_utf8 e) = ok (some (record no_std_error { invalid_utf8 = some e }))
std_error_of (invalid_utf8_ptr p) = ok (some (record no_std_error { invalid_utf8 = p }))
std_error_of (not_found e) = ok (some (record no_std_error { not_found = some e }))
std_error_of (not_found_ptr p) = ok (some (record no_std_error { not_found = p }))
std_error_of (parse_err e) = ok (some (record no_std_error { parse_err = some e }))
std_error_of (parse_err_ptr p) = ok (some (record no_std_error { parse_err = p }))
std_error_of (serialize_err e) = ok (some (record no_std_error { serialize_err = some e }))
std_error_of (serialize_err_ptr p) = ok (some (record no_std_error { serialize_err = p }))
std_error_of (unauthorized e) = ok (some (record no_std_error { unauthorized = some e }))
std_error_of (unauthorized_ptr p) = ok (some (record no_std_error { unauthorized = p }))
std_error_of (underflow e) = ok (some (record no_std_error { underflow = some e }))
std_error_of (underflow_ptr p) = ok (some (record no_std_error { underflow = p }))
std_error_of e = as_generic (error_text e)

-- `ToStdError`
unfoldable pub to_std_error : Option Error → Outcome (Option StdError)
unfolding is_nil std_error_of
to_std_error none = ok none
to_std_error (some e) = if is_nil (some e) then ok none else std_error_of e

-- The type switch of `ToSystemError`.
unfoldable pub system_error_of : Error → Option SystemError
system_error_of (system_error e) = some e
system_error_of (system_error_ptr p) = p
system_error_of (invalid_request e) = some (record no_system_error { invalid_request = some e })
system_error_of (invalid_request_ptr p) = some (record no_system_error { invalid_request = p })
system_error_of (invalid_response e) = some (record no_system_error { invalid_response = some e })
system_error_of (invalid_response_ptr p) = some (record no_system_error { invalid_response = p })
system_error_of (no_such_contract e) = some (record no_system_error { no_such_contract = some e })
system_error_of (no_such_contract_ptr p) = some (record no_system_error { no_such_contract = p })
system_error_of (unknown e) = some (record no_system_error { unknown = some e })
system_error_of (unknown_ptr p) = some (record no_system_error { unknown = p })
system_error_of (unsupported_request e) =
    some (record no_system_error { unsupported_request = some e })
system_error_of (unsupported_request_ptr p) =
    some (record no_system_error { unsupported_request = p })
system_error_of _ = none

-- `ToSystemError`
unfoldable pub to_system_error : Option Error → Option SystemError
unfolding is_nil system_error_of
to_system_error none = none
to_system_error (some e) = if is_nil (some e) then none else system_error_of e
