-- ===== src/Types/SystemError.antt =====
-- types/systemerror.go: the errors of the system that runs the contract.
use go_cosmwasm.Base.{ℕ, ◌+◌, Option, none, some, ◌++◌}
use go_cosmwasm.Base.Text.{text}
use go_cosmwasm.Go.{Outcome, panic, string_panic, Bytes, Slice}
use go_cosmwasm.Types.StdError.{when_set, set_count}

pub record InvalidRequest : Type 0 where
  pub err : Bytes
  pub request : Slice

pub record InvalidResponse : Type 0 where
  pub err : Bytes
  pub response : Slice

pub record NoSuchContract : Type 0 where
  pub addr : Bytes

pub data Unknown : Type 0 where
  unknown : Unknown

pub record UnsupportedRequest : Type 0 where
  pub kind : Bytes

pub record SystemError : Type 0 where
  pub invalid_request : Option InvalidRequest
  pub invalid_response : Option InvalidResponse
  pub no_such_contract : Option NoSuchContract
  pub unknown : Option Unknown
  pub unsupported_request : Option UnsupportedRequest

-- `SystemError{}`
abbrev pub no_system_error : SystemError
no_system_error = record {
  invalid_request = none;
  invalid_response = none;
  no_such_contract = none;
  unknown = none;
  unsupported_request = none;
}

-- `string(b)`
abbrev pub bytes_of : Slice → Bytes
bytes_of none = text ""
bytes_of (some xs) = xs

-- The `Error` methods.
unfoldable pub invalid_request_text : InvalidRequest → Bytes
invalid_request_text e =
    text "invalid request: " ++ (e.err ++ (text " - original request: " ++ bytes_of e.request))

unfoldable pub invalid_response_text : InvalidResponse → Bytes
invalid_response_text e =
    text "invalid response: " ++ (e.err ++ (text " - original response: " ++ bytes_of e.response))

unfoldable pub no_such_contract_text : NoSuchContract → Bytes
no_such_contract_text e = text "no such contract: " ++ e.addr

unfoldable pub unknown_text : Unknown → Bytes
unknown_text e = text "unknown system error"

unfoldable pub unsupported_request_text : UnsupportedRequest → Bytes
unsupported_request_text e = text "unsupported request: " ++ e.kind

-- `SystemError.Error`
unfoldable pub system_text : SystemError → Outcome Bytes
system_text a = when_set a.invalid_request invalid_request_text (
    when_set a.invalid_response invalid_response_text (
      when_set a.no_such_contract no_such_contract_text (
        when_set a.unknown unknown_text
          (when_set a.unsupported_request unsupported_request_text (panic string_panic)))))

-- How many of the fields are set: exactly one should be.
abbrev pub system_fields : SystemError → ℕ
system_fields a =
    set_count a.invalid_request
    + set_count a.invalid_response
    + set_count a.no_such_contract
    + set_count a.unknown
    + set_count a.unsupported_request
