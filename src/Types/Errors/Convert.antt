-- ===== src/Types/Errors/Convert.antt =====
-- What `ToStdError` and `ToSystemError` promise of the errors that they convert.
use go_cosmwasm.Base.{◌≡◌, refl, Bool, true, false, Option, none, some, ◌⊎◌, arith}
use go_cosmwasm.Go.{Outcome, ok, panic, fault}
use go_cosmwasm.Types.StdError.{StdError}
use go_cosmwasm.Types.SystemError.{SystemError, system_fields, system_text}
use go_cosmwasm.Types.Errors.{
  Error, std_error, std_error_ptr, system_error, system_error_ptr, error_text, is_nil,
  to_system_error,
}

-- The errors that are a `StdError` or the content of one of its fields, by value or by pointer.
abbrev pub is_std : Error → Bool
is_std (Error.std_error e) = true
is_std (Error.std_error_ptr p) = true
is_std (Error.generic_err e) = true
is_std (Error.generic_err_ptr p) = true
is_std (Error.invalid_base64 e) = true
is_std (Error.invalid_base64_ptr p) = true
is_std (Error.invalid_utf8 e) = true
is_std (Error.invalid_utf8_ptr p) = true
is_std (Error.not_found e) = true
is_std (Error.not_found_ptr p) = true
is_std (Error.parse_err e) = true
is_std (Error.parse_err_ptr p) = true
is_std (Error.serialize_err e) = true
is_std (Error.serialize_err_ptr p) = true
is_std (Error.unauthorized e) = true
is_std (Error.unauthorized_ptr p) = true
is_std (Error.underflow e) = true
is_std (Error.underflow_ptr p) = true
is_std _ = false

-- The errors that are a `SystemError` or the content of one of its fields.
abbrev pub is_system : Error → Bool
is_system (Error.system_error e) = true
is_system (Error.system_error_ptr p) = true
is_system (Error.invalid_request e) = true
is_system (Error.invalid_request_ptr p) = true
is_system (Error.invalid_response e) = true
is_system (Error.invalid_response_ptr p) = true
is_system (Error.no_such_contract e) = true
is_system (Error.no_such_contract_ptr p) = true
is_system (Error.unknown e) = true
is_system (Error.unknown_ptr p) = true
is_system (Error.unsupported_request e) = true
is_system (Error.unsupported_request_ptr p) = true
is_system _ = false

-- The `StdError` that an error is, and the `SystemError`.
abbrev pub own_std : Error → Option StdError
own_std (std_error e) = some e
own_std (std_error_ptr p) = p
own_std _ = none

abbrev pub own_system : Error → Option SystemError
own_system (system_error e) = some e
own_system (system_error_ptr p) = p
own_system _ = none

-- Whether a conversion yields a struct.
abbrev yields : {A : Type 0} → Outcome (Option A) → Bool
yields (ok (some s)) = true
yields _ = false

yields-some : {A : Type 0} (o : Outcome (Option A)) → yields o ≡ true → (s : A) × (o ≡ ok (some s))
yields-some (ok none) h = cc
yields-some (ok (some s)) h = (s, refl)
yields-some (panic p) h = cc
yields-some fault h = cc

to_system_error-yields :
    (e : Error)
    → is_system e ≡ true
    → is_nil (some e) ≡ false
    → yields (ok (to_system_error (some e))) ≡ true
unfolding to_system_error
to_system_error-yields (std_error e) k n = ground arith
to_system_error-yields _ k n = ground arith

to_system_error-text :
    (e : Error) (s : SystemError) → to_system_error (some e) ≡ some s → system_text s ≡ error_text e
unfolding to_system_error error_text system_text
to_system_error-text (std_error e) s k = ground arith
to_system_error-text _ s k = ground arith

to_system_error_fields :
    (e : Error) (s : SystemError)
    → to_system_error (some e) ≡ some s
    → (own_system e ≡ some s) ⊎ (system_fields s ≡ 1)
unfolding to_system_error
to_system_error_fields (std_error e) s k = ground arith
to_system_error_fields _ s k = ground arith

-- A system error that is not nil converts to itself, or to a `SystemError` with exactly one field
-- set, and keeps its text.
pub to_system_error_lem :
    (e : Error)
    → is_system e ≡ true
    → is_nil (some e) ≡ false
    → (s : SystemError) × (to_system_error (some e) ≡ some s)
      × (system_text s ≡ error_text e)
      × ((own_system e ≡ some s) ⊎ (system_fields s ≡ 1))
to_system_error_lem e k n =
    let (s, made) = yields-some (ok (to_system_error (some e))) (to_system_error-yields e k n) in
    let h : to_system_error (some e) ≡ some s = cc made in
    (s, h, to_system_error-text e s h, to_system_error_fields e s h)

-- An error of no type that `SystemError` embeds converts to nil.
pub to_system_error_others : (e : Error) → is_system e ≡ false → to_system_error (some e) ≡ none
unfolding to_system_error
to_system_error_others (std_error e) k = ground arith
to_system_error_others _ k = ground arith
