-- ===== src/Types/StdError.antt =====
-- types/stderror.go: the errors of the contract library. A pointer to a struct is an `Option`.
use go_cosmwasm.Base.{ℕ, ◌+◌, Option, none, some, ◌++◌}
use go_cosmwasm.Base.Text.{text}
use go_cosmwasm.Go.{Outcome, ok, panic, string_panic, Bytes}

pub record GenericErr : Type 0 where
  pub msg : Bytes

pub record InvalidBase64 : Type 0 where
  pub msg : Bytes

pub record InvalidUtf8 : Type 0 where
  pub msg : Bytes

pub record NotFound : Type 0 where
  pub kind : Bytes

pub record ParseErr : Type 0 where
  pub target : Bytes
  pub msg : Bytes

pub record SerializeErr : Type 0 where
  pub source : Bytes
  pub msg : Bytes

pub data Unauthorized : Type 0 where
  unauthorized : Unauthorized

pub record Underflow : Type 0 where
  pub minuend : Bytes
  pub subtrahend : Bytes

pub record StdError : Type 0 where
  pub generic_err : Option GenericErr
  pub invalid_base64 : Option InvalidBase64
  pub invalid_utf8 : Option InvalidUtf8
  pub not_found : Option NotFound
  pub parse_err : Option ParseErr
  pub serialize_err : Option SerializeErr
  pub unauthorized : Option Unauthorized
  pub underflow : Option Underflow

-- `StdError{}`
abbrev pub no_std_error : StdError
no_std_error = record {
  generic_err = none;
  invalid_base64 = none;
  invalid_utf8 = none;
  not_found = none;
  parse_err = none;
  serialize_err = none;
  unauthorized = none;
  underflow = none;
}

-- The `Error` methods.
unfoldable pub generic_text : GenericErr → Bytes
generic_text e = text "encrypted: " ++ e.msg

unfoldable pub base64_text : InvalidBase64 → Bytes
base64_text e = text "invalid base64: " ++ e.msg

unfoldable pub utf8_text : InvalidUtf8 → Bytes
utf8_text e = text "invalid_utf8: " ++ e.msg

unfoldable pub not_found_text : NotFound → Bytes
not_found_text e = text "not found: " ++ e.kind

unfoldable pub parse_text : ParseErr → Bytes
parse_text e = text "parsing " ++ (e.target ++ (text ": " ++ e.msg))

unfoldable pub serialize_text : SerializeErr → Bytes
serialize_text e = text "serializing " ++ (e.source ++ (text ": " ++ e.msg))

unfoldable pub unauthorized_text : Unauthorized → Bytes
unauthorized_text e = text "unauthorized"

unfoldable pub underflow_text : Underflow → Bytes
underflow_text e = text "underflow: " ++ (e.minuend ++ (text " - " ++ e.subtrahend))

-- A case of the `switch`: the pointer's text if it is set, and the cases below it otherwise.
abbrev pub when_set : {A : Type 0} → Option A → (A → Bytes) → Outcome Bytes → Outcome Bytes
when_set none show rest = rest
when_set (some a) show rest = ok (show a)

-- `StdError.Error`
unfoldable pub std_text : StdError → Outcome Bytes
std_text a = when_set a.generic_err generic_text (
    when_set a.invalid_base64 base64_text (
      when_set a.invalid_utf8 utf8_text (
        when_set a.not_found not_found_text (
          when_set a.parse_err parse_text (
            when_set a.serialize_err serialize_text (
              when_set a.unauthorized unauthorized_text
                (when_set a.underflow underflow_text (panic string_panic))))))))

abbrev pub set_count : {A : Type 0} → Option A → ℕ
set_count none = 0
set_count (some a) = 1

-- How many of the fields are set: exactly one should be.
abbrev pub std_fields : StdError → ℕ
std_fields a =
    set_count a.generic_err
    + set_count a.invalid_base64
    + set_count a.invalid_utf8
    + set_count a.not_found
    + set_count a.parse_err
    + set_count a.serialize_err
    + set_count a.unauthorized
    + set_count a.underflow
