-- ===== src/Ffi/Agreement.antt =====
-- What it means that a computation over the boundary is the application's own, and how that carries
-- over to one computation after another.
use mathlib.Core.Path.{subst}
use go_cosmwasm.Base.{ℕ, ◌≡◌, refl, Bool, true, false, sym, ◌∙◌, arith}
use go_cosmwasm.Go.{Go, Outcome, ok, panic, fault, ◌>>=◌}
use go_cosmwasm.Ffi.Memory.{IsValid}
use go_cosmwasm.Ffi.Status.{FfiResult, done, failed}
use go_cosmwasm.Ffi.Storage.Refines.{panic_error, Clean, Refines}
use go_cosmwasm.Api.World.{World}
use go_cosmwasm.Api.Callbacks.{panic_status}

-- An operation of the application's as the machine is told of it: its value and gas, or an error
-- for a panic.
abbrev pub attempt : {H A : Type 0} → Go H (A × ℕ) → Go H (FfiResult A × ℕ)
attempt m s =
    let (r, s') = m s in
    elim r [
      | ok (a, used) ↦ (ok (done a, used), s')
      | panic p ↦ (ok (failed (panic_error (panic_status p)), 0), s')
      | fault ↦ (fault, s')
    ]

-- A run over the boundary from `w` against a run on the application: the same outcome and the same
-- state of the application, and neither a table nor a block touched.
abbrev pub Agrees : {H A : Type 0} → World H → Outcome A × H → Outcome A × World H → Type 0
Agrees w (ok a, s) (r, w') = (r ≡ ok a) × (w'.host ≡ s) × Clean w w'
Agrees w (panic p, s) (r, w') = (r ≡ panic p) × (w'.host ≡ s) × Clean w w'
Agrees w (fault, s) (r, w') = (r ≡ fault) × (w'.host ≡ s)

-- The application did not corrupt memory.
abbrev pub intact : {A : Type 0} → Outcome A → Bool
intact (ok a) = true
intact (panic p) = true
intact fault = false

Clean-after : {H : Type 0} (w v u : World H) → Clean w v → Clean v u → Clean w u
Clean-after w v u (tab, blk, grow, _) (tab', blk', grow', valid) =
    (tab' ∙ tab, blk' ∙ blk, omega (arith, grow, grow'), valid)

Agrees-after :
    {H A : Type 0} (w v : World H) (o : Outcome A × H) (r : Outcome A × World H)
    → Clean w v
    → Agrees v o r
    → Agrees w o r
Agrees-after w v (ok a, s) (r, w') c (e, h, c') = (e, h, Clean-after w v w' c c')
Agrees-after w v (panic p, s) (r, w') c (e, h, c') = (e, h, Clean-after w v w' c c')
Agrees-after w v (fault, s) (r, w') c g = g

-- One answered call, and the rest of the run.
answered :
    {H A B : Type 0} (w v : World H) (s : H) (a : A) (r : Outcome A) (over : A → Go (World H) B)
    (here : A → Go H B)
    → r ≡ ok a
    → v.host ≡ s
    → Clean w v
    → Agrees v (here a v.host) (over a v)
    → Agrees w (here a s) (((λ u. (r, v)) >>= over) w)
answered w v s a r over here e h c k =
    subst (λ t. Agrees w (here a t) (((λ u. (r, v)) >>= over) w)) h
      (subst (λ q. Agrees w (here a v.host) (((λ u. (q, v)) >>= over) w)) (sym e)
        (Agrees-after w v (here a v.host) (over a v) c k))

pub Agrees-bind :
    {H A B : Type 0} (w : World H) (o : Outcome A × H) (r : Outcome A × World H)
    (over : A → Go (World H) B) (here : A → Go H B)
    → Agrees w o r
    → ((a : A) (v : World H) → IsValid v.heap → Agrees v (here a v.host) (over a v))
    → Agrees w (((λ u. o) >>= here) w.host) (((λ u. r) >>= over) w)
Agrees-bind w (ok a, s) (r, v) over here (e, h, c) k =
    answered w v s a r over here e h c (k a v c.3)
Agrees-bind w (panic p, s) (r, v) over here (e, h, c) k =
    subst (λ q. Agrees w (panic p, s) (((λ u. (q, v)) >>= over) w)) (sym e) (refl, h, c)
Agrees-bind w (fault, s) (r, v) over here (e, h) k =
    subst (λ q. Agrees w (fault, s) (((λ u. (q, v)) >>= over) w)) (sym e) (refl, h)

-- The store's operations, as the machine is told of them.
pub Refines-Agrees :
    {H A : Type 0} (w : World H) (o : Outcome (A × ℕ) × H) (r : Outcome (FfiResult A × ℕ) × World H)
    → Refines w o r
    → Agrees w (attempt (λ u. o) w.host) r
Refines-Agrees w (ok (a, used), s) (r, v) h = h
Refines-Agrees w (panic p, s) (r, v) h = h
Refines-Agrees w (fault, s) (r, v) h = h
