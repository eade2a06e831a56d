-- ===== src/Base/Dict.antt =====
-- A Go map with uint64 keys: an association list with the newest binding first.
use Prim.Native.Nat.{ℕ, ◌≤◌, ◌<◌}
use mathlib.Core.Path.{◌≡◌, refl}
use mathlib.Core.Option.{Option, none, some}
use mathlib.Core.List.{List, [], ◌∷◌}
use native.Mathlib.Omega.{arith}
use go_cosmwasm.Base.Tests.{◌==◌, if◌then◌else◌}

module _ {ℓ} {V : Type ℓ} where
  abbrev pub lookup : ℕ → List (ℕ × V) → Option V
  lookup k [] = none
  lookup k ((j, v) ∷ d) = if k == j then some v else lookup k d

  -- `delete(m, k)`
  abbrev pub erase : ℕ → List (ℕ × V) → List (ℕ × V)
  erase k [] = []
  erase k (e ∷ d) = if k == e.0 then erase k d else e ∷ erase k d

  -- `m[k] = v`
  abbrev pub insert : ℕ → V → List (ℕ × V) → List (ℕ × V)
  insert k v d = (k, v) ∷ erase k d

  pub lookup-erase :
      (j k : ℕ) (d : List (ℕ × V)) → lookup j (erase k d) ≡ (if j == k then none else lookup j d)
  lookup-erase j k [] = ground arith
  lookup-erase j k (e ∷ d) = ground (arith, lookup-erase j k d)

  pub lookup-insert :
      (j k : ℕ) (v : V) (d : List (ℕ × V))
      → lookup j (insert k v d) ≡ (if j == k then some v else lookup j d)
  lookup-insert j k v d = ground (arith, lookup-erase j k d)

  -- Erasing a key that is not there changes nothing.
  pub erase_absent : (k : ℕ) (d : List (ℕ × V)) → lookup k d ≡ none → erase k d ≡ d
  erase_absent k [] h = refl
  erase_absent k (e ∷ d) h = ground (arith, erase_absent k d)

  -- No key is above `n`.
  abbrev pub Within : ℕ → List (ℕ × V) → Type 0
  Within n [] = Unit {0}
  Within n ((k, v) ∷ d) = (k ≤ n) × Within n d

  pub Within-mono : (n m : ℕ) (d : List (ℕ × V)) → n ≤ m → Within n d → Within m d
  Within-mono n m [] l h = tt
  Within-mono n m (e ∷ d) l h = (omega (arith, l, h.0), Within-mono n m d l h.1)

  pub Within-absent : (n k : ℕ) (d : List (ℕ × V)) → n < k → Within n d → lookup k d ≡ none
  Within-absent n k [] l h = refl
  Within-absent n k (e ∷ d) l h = ground (arith, h.0, Within-absent n k d l h.1)
