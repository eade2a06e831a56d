-- ===== src/Ffi/Call.antt =====
-- The state of one call of a function of src/lib.rs: the world, and the variables of the caller.
use go_cosmwasm.Base.{ℕ, Option, none, some, []}
use go_cosmwasm.Base.Text.{text}
use go_cosmwasm.Go.{Go, ok, panic, fault, pure, ◌>>=◌, ◌>>◌, Bytes}
use go_cosmwasm.Ffi.Memory.{Heap, Buffer, null_buffer, read}
use go_cosmwasm.Ffi.Error.{RustError, Result, success, failure, errno_value, set_error}
use go_cosmwasm.Api.World.{World, on_heap}
use go_cosmwasm.Api.Library.{Reply}

-- `gas_used` and `err` are none where the caller passes a null pointer.
pub record Outs : Type 0 where
  pub gas_used : Option ℕ
  pub err : Option Buffer
  pub errno : ℕ

pub record CallState (H : Type 0) : Type 0 where
  pub world : World H
  pub outs : Outs

-- The variables of api/lib.go, whose addresses are passed, and errno, which cgo clears.
abbrev pub fresh_outs : Outs
fresh_outs = record { gas_used = some 0; err = some null_buffer; errno = 0 }

abbrev pub gas_of : Option ℕ → ℕ
gas_of none = 0
gas_of (some g) = g

abbrev pub err_of : Option Buffer → Buffer
err_of none = null_buffer
err_of (some b) = b

-- The operator `?` on a `Result`.
infixl 5 ◌>>?◌
abbrev pub ◌>>?◌ : {S A B : Type 0} → Go S (Result A) → (A → Go S (Result B)) → Go S (Result B)
m >>? f = m >>= λ r. elim r [ success a ↦ f a | failure e ↦ pure (failure e) ]

-- `catch_unwind(..).unwrap_or_else(|_| Err(Error::panic()))`
unfoldable pub catch_unwind : {S A : Type 0} → Go S (Result A) → Go S (Result A)
catch_unwind m s =
    let (r, s') = m s in
    elim r [
      | ok a ↦ (ok a, s')
      | panic p ↦ (ok (failure RustError.caught_panic), s')
      | fault ↦ (fault, s')
    ]

module _ {H : Type 0} where
  module _ {A : Type 0} where
    abbrev pub in_world : Go (World H) A → Go (CallState H) A
    in_world m f = let (r, w) = m f.world in (r, record f { world = w })

    abbrev pub in_heap : Go Heap A → Go (CallState H) A
    in_heap m = in_world (on_heap m)

  -- `unsafe { b.read() }.ok_or_else(|| Error::empty_arg(name))`
  unfoldable pub read_arg : Bytes → Buffer → Go (CallState H) (Result Bytes)
  read_arg name b = do
    r ← in_heap (read b)
    pure (elim r [ none ↦ failure (RustError.empty_arg name) | some xs ↦ success xs ])

  -- `gas_used.ok_or_else(|| Error::empty_arg(GAS_USED_ARG))`
  unfoldable pub gas_slot : Go (CallState H) (Result (Unit {0}))
  gas_slot f = elim f.outs.gas_used [
    | none ↦ (ok (failure (RustError.empty_arg (text "gas_used"))), f)
    | some g ↦ (ok (success tt), f)
  ]

  -- `*gas_used = g`
  unfoldable pub write_gas : ℕ → Go (CallState H) (Unit {0})
  write_gas g f = (ok tt, record f { outs = record f.outs { gas_used = some g } })

  -- `clear_error`
  unfoldable pub clear_error : Go (CallState H) (Unit {0})
  clear_error f = (ok tt, record f { outs = record f.outs { errno = 0 } })

  -- `set_error`, with the caller's variable: without one there is no buffer.
  unfoldable pub report_error : RustError → Go (CallState H) (Unit {0})
  unfolding set_error
  report_error e f = elim f.outs.err [
    | none ↦ (ok tt, record f { outs = record f.outs { errno = errno_value e } })
    | some old ↦
        (do
          (n, msg) ← in_heap (set_error e)
          λ g. (ok tt, record g { outs = record g.outs { errno = n; err = some msg } }))
          f
  ]

  -- `handle_c_error`
  unfoldable pub handle_c_error : Result Bytes → Go (CallState H) Bytes
  unfolding clear_error report_error
  handle_c_error (success xs) f = (do clear_error; pure xs) f
  handle_c_error (failure e) f = (do report_error e; pure []) f

  -- The call from Go: a panic that no `catch_unwind` stops must not cross into Go.
  unfoldable pub calling : {A : Type 0} → Go (CallState H) A → Go (World H) (Reply A)
  calling m w =
      let (r, f) = m (record { world = w; outs = fresh_outs }) in
      elim r [
        | ok a ↦ (
          ok (record {
            res = a;
            errno = f.outs.errno;
            gas_used = gas_of f.outs.gas_used;
            errmsg = err_of f.outs.err;
          }),
          f.world,
        )
        | panic p ↦ (fault, f.world)
        | fault ↦ (fault, f.world)
      ]
