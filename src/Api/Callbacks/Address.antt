-- ===== src/Api/Callbacks/Address.antt =====
-- cHumanAddress and cCanonicalAddress of api/callbacks.go. Neither checks `ptr`, `errOut` or
-- `used_gas`: a null one panics when it is used.
use go_cosmwasm.Base.{Option, none, some, [], ◌∷◌, if◌then◌else◌, is_null}
use go_cosmwasm.Go.{
  Go, ok, panic, pure, throw, ◌>>=◌, ◌>>◌, error_string, string_panic, Bytes, Slice,
}
use go_cosmwasm.Ffi.Memory.{Buffer}
use go_cosmwasm.Ffi.Status.{GoResult}
use go_cosmwasm.Api.Host.{GoApi}
use go_cosmwasm.Api.Memory.{allocate_rust, receive_slice}
use go_cosmwasm.Api.Callbacks.{
  Callback, recover_panic, with_heap, with_host, write_used_gas, write_val, write_err_out,
}

-- `string(b)`, of a slice that may be nil.
abbrev pub as_string : Slice → Bytes
as_string none = []
as_string (some xs) = xs

module _ {H : Type 0} where
  -- The end of both callbacks, from the test of `err` on: an error's text goes to `errOut`, an
  -- empty address panics, and any other is the result.
  unfoldable pub write_address : Option Bytes → Bytes → Go (Callback H) GoResult
  write_address (some text) address c =
      (do write_err_out (← with_heap (allocate_rust (some text))); pure GoResult.user) c
  write_address none [] c = (panic string_panic, c)
  write_address none (x ∷ xs) c =
      (do write_val (← with_heap (allocate_rust (some (x ∷ xs)))); pure GoResult.ok) c

  unfoldable pub human_body : Option (GoApi H) → Buffer → Go (Callback H) GoResult
  unfolding write_address
  human_body ptr canon c =
      if is_null c.slots.val
      then (ok GoResult.bad_argument, c)
      else (do
        b ← with_heap (receive_slice canon)
        (h, cost, failure) ← elim ptr [
          | none ↦ throw error_string
          | some api ↦ with_host (api.human_address b)
        ]
        write_used_gas cost
        write_address failure h)
          c

  -- `cHumanAddress`
  unfoldable pub c_human_address : Option (GoApi H) → Buffer → Go (Callback H) GoResult
  unfolding human_body recover_panic
  c_human_address ptr canon = recover_panic (human_body ptr canon)

  unfoldable pub canonical_body : Option (GoApi H) → Buffer → Go (Callback H) GoResult
  unfolding write_address
  canonical_body ptr human c =
      if is_null c.slots.val
      then (ok GoResult.bad_argument, c)
      else (do
        b ← with_heap (receive_slice human)
        (a, cost, failure) ← elim ptr [
          | none ↦ throw error_string
          | some api ↦ with_host (api.canonical_address (as_string b))
        ]
        write_used_gas cost
        write_address failure (as_string a))
          c

  -- `cCanonicalAddress`
  unfoldable pub c_canonical_address : Option (GoApi H) → Buffer → Go (Callback H) GoResult
  unfolding canonical_body recover_panic
  c_canonical_address ptr human = recover_panic (canonical_body ptr human)
