-- ===== src/Go.antt =====
-- Go's control flow: a computation over a state returns, panics, or corrupts memory. What it wrote
-- before a panic stays written. Go's errors are values: a result (A, error) is `Returned A`.
use go_cosmwasm.Base.{String, Option, List, ℕ}

-- The value of a panic, as far as `recoverPanic` looks at it: `reflect.TypeOf(rec).Name()`.
pub record Panic : Type 0 where
  pub type_name : String

-- `fault` is undefined behaviour of the C heap (a double free, a read outside a block), which no
-- `recover` catches.
pub data Outcome (A : Type 0) : Type 0 where
  ok : A → Outcome A
  panic : Panic → Outcome A
  fault : Outcome A

abbrev pub Go : Type 0 → Type 0 → Type 0
Go S A = S → Outcome A × S

module _ {S : Type 0} {A : Type 0} where
  abbrev pub pure : A → Go S A
  pure a s = (ok a, s)

  abbrev pub throw : Panic → Go S A
  throw p s = (panic p, s)

  abbrev pub corrupt : Go S A
  corrupt s = (fault, s)

infixl 5 ◌>>=◌ ◌>>◌
abbrev pub ◌>>=◌ : {S A B : Type 0} → Go S A → (A → Go S B) → Go S B
◌>>=◌ m f s =
    let (r, s') = m s in elim r [ ok a ↦ f a s' | panic p ↦ (panic p, s') | fault ↦ (fault, s') ]

abbrev pub ◌>>◌ : {S A B : Type 0} → Go S A → Go S B → Go S B
m >> k = m >>= λ _. k

-- The panics of the Go runtime: an index out of range, a nil dereference or a bad length, and
-- `panic` on a string.
abbrev pub bounds_error : Panic
bounds_error = record { type_name = "boundsError" }

abbrev pub error_string : Panic
error_string = record { type_name = "errorString" }

abbrev pub string_panic : Panic
string_panic = record { type_name = "string" }

-- A []byte, whose nil is told apart from the empty slice.
abbrev pub Bytes : Type 0
Bytes = List ℕ

abbrev pub Slice : Type 0
Slice = Option Bytes
