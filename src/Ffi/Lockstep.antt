-- ===== src/Ffi/Lockstep.antt =====
-- Two computations over different states that go in step, as long as there is room.
use mathlib.Core.Path.{subst}
use go_cosmwasm.Base.{◌≡◌, refl, sym}
use go_cosmwasm.Go.{Go, Outcome, ok, panic, fault, ◌>>=◌}

module _ {S T : Type 0} (Rel : S → T → Type 0) where
  -- The same outcome, in states that stand for one another.
  abbrev pub Matching : {A : Type 0} → Outcome A × S → Outcome A × T → Type 0
  Matching (ok a, s) (r, t) = (r ≡ ok a) × Rel s t
  Matching (panic p, s) (r, t) = (r ≡ panic p) × Rel s t
  Matching (fault, s) (r, t) = r ≡ fault

  module _ (Room : S → Type 0) where
    abbrev pub InStep : {A : Type 0} → Outcome A × S → Outcome A × T → Type 0
    InStep o r = Room o.1 → Matching o r

    -- One computation after another.
    pub InStep-bind :
        {A B : Type 0} (o : Outcome A × S) (r : Outcome A × T) (over : A → Go T B)
        (here : A → Go S B) (s : S) (t : T)
        → InStep o r
        → ((a : A) (k : S) → Room (here a k).1 → Room k)
        → ((a : A) (k : S) (v : T) → Rel k v → InStep (here a k) (over a v))
        → InStep (((λ u. o) >>= here) s) (((λ u. r) >>= over) t)
    InStep-bind (ok a, k) (r, v) over here s t x grow f = λ room.
        let (e, m) = x (grow a k room) in
        subst (λ q. Matching (here a k) (((λ u. (q, v)) >>= over) t)) (sym e) (f a k v m room)
    InStep-bind (panic p, k) (r, v) over here s t x grow f = λ room.
        let (e, m) = x room in
        subst (λ q. Matching (panic p, k) (((λ u. (q, v)) >>= over) t)) (sym e) (refl, m)
    InStep-bind (fault, k) (r, v) over here s t x grow f =
        λ room. subst (λ q. Matching (fault, k) (((λ u. (q, v)) >>= over) t)) (sym (x room)) refl

    falls-bind :
        {A B : Type 0} (o : Outcome A × S) (here : A → Go S B) (s : S)
        → ((a : A) (k : S) → Room (here a k).1 → Room k)
        → Room (((λ u. o) >>= here) s).1
        → Room o.1
    falls-bind (ok a, k) here s falls room = falls a k room
    falls-bind (panic p, k) here s falls room = room
    falls-bind (fault, k) here s falls room = room

    -- Two computations that go in step, of which the first never makes room.
    pub record Abreast {A : Type 0} (m : Go S A) (n : Go T A) : Type 0 where
      pub falls : (s : S) → Room (m s).1 → Room s
      pub steps : (s : S) (t : T) → Rel s t → InStep (m s) (n t)

    pub Abreast-const : {A : Type 0} (o : Outcome A) → Abreast (λ s. (o, s)) (λ t. (o, t))
    Abreast-const (ok a) = record { falls = λ s room. room; steps = λ s t r room. (refl, r) }
    Abreast-const (panic p) = record { falls = λ s room. room; steps = λ s t r room. (refl, r) }
    Abreast-const fault = record { falls = λ s room. room; steps = λ s t r room. refl }

    pub Abreast-bind :
        {A B : Type 0} (m : Go S A) (n : Go T A) (here : A → Go S B) (over : A → Go T B)
        → Abreast m n
        → ((a : A) → Abreast (here a) (over a))
        → Abreast (m >>= here) (n >>= over)
    Abreast-bind m n here over x y = record {
      falls = λ s room. x.falls s (falls-bind (m s) here s (λ a. (y a).falls) room);
      steps = λ s t r.
          InStep-bind (m s) (n t) over here s t (x.steps s t r) (λ a. (y a).falls) λ a. (y a).steps;
    }
