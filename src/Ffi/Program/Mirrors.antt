-- ===== src/Ffi/Program/Mirrors.antt =====
-- How a world over the boundary stands for a run on the application itself.
use mathlib.Core.Path.{subst}
use go_cosmwasm.Base.{
  ℕ, ◌+◌, ◌≤◌, ◌<◌, ◌≡◌, refl, sym, ap, ◌∙◌, true, none, List, [], ◌∷◌, ◌++◌, u64_mod, arith,
}
use go_cosmwasm.Base.Dict.{lookup, erase, insert, erase_absent, Within, Within-mono}
use go_cosmwasm.Go.{Go, Outcome, ok, panic, fault, ◌>>=◌}
use go_cosmwasm.Ffi.Memory.{IsValid}
use go_cosmwasm.Ffi.Memory.Grown.{Grown, Grown-refl, Grown-same, Grown-trans}
use go_cosmwasm.Ffi.Query.Realises.{Effect, Follows, Echoes}
use go_cosmwasm.Ffi.Storage.Refines.{Clean}
use go_cosmwasm.Ffi.Lockstep.{Matching, InStep-bind}
use go_cosmwasm.Ffi.Agreement.{Agrees, intact}
use go_cosmwasm.Ffi.Program.Direct.{Local, start, at_host, asked}
use go_cosmwasm.Api.World.{Tables, World}
use go_cosmwasm.Api.Iterator.{Frame, frame_of}

-- The map of frames with a frame for the call `c`, which has none while no iterator is open.
abbrev pub with_frame : ℕ → Frame → List (ℕ × Frame) → List (ℕ × Frame)
with_frame c [] stack = stack
with_frame c (it ∷ rest) stack = (c, it ∷ rest) ∷ stack

-- The world `w` came about from `base` by a run that stands at `l` on the application: the state of
-- the application, the frame of the call, and the blocks of the entries on top of the old ones.
pub record Mirrors {H : Type 0} (c : ℕ) (base : World H) (l : Local H) (w : World H) : Type 0 where
  pub same_host : w.host ≡ l.host
  pub same_tables : w.tables ≡ record base.tables {
    db_counter = base.tables.db_counter + l.spent;
    iterator_stack = with_frame c l.frame base.tables.iterator_stack;
  }
  pub grown : Grown base.heap l.given w.heap

-- A run over the boundary against a run on the application, from states that mirror each other.
abbrev pub Matches :
    {H A : Type 0} → ℕ → World H → Outcome A × Local H → Outcome A × World H → Type 0
Matches c base o r = Matching (Mirrors c base) o r

pub Mirrors-start :
    {H : Type 0} (c : ℕ) (w : World H) → IsValid w.heap → Mirrors c w (start w.host) w
Mirrors-start c w v =
    let counter : w.tables.db_counter ≡ w.tables.db_counter + 0 = omega arith in
    record {
      same_host = refl;
      same_tables = ap (λ n. record w.tables { db_counter = n }) counter;
      grown = Grown-refl w.heap v;
    }

-- A step that leaves tables and blocks alone.
Mirrors-Clean :
    {H : Type 0} (c : ℕ) (base : World H) (l : Local H) (w u : World H) (s : H)
    → Mirrors c base l w
    → Clean w u
    → u.host ≡ s
    → Mirrors c base (record l { host = s }) u
Mirrors-Clean c base l w u s m (tab, blk, grow, v) h = record {
  same_host = h;
  same_tables = tab ∙ m.same_tables;
  grown = Grown-same base.heap l.given w.heap u.heap m.grown blk grow v;
}

pub Agrees-Matches :
    {H A : Type 0} (c : ℕ) (base : World H) (l : Local H) (w : World H) (m : Go H A)
    (r : Outcome A × World H)
    → Mirrors c base l w
    → Agrees w (m w.host) r
    → Matches c base (at_host m l) r
Agrees-Matches {H} {A} c base l w m r i g =
    after (m l.host) r (subst (λ s. Agrees w (m s) r) i.same_host g)
  where
    after :
        (o : Outcome A × H) (r : Outcome A × World H)
        → Agrees w o r
        → Matches c base (o.0, record l { host = o.1 }) r
    after (ok a, s) (r, u) (e, h, k) = (e, Mirrors-Clean c base l w u s i k h)
    after (panic p, s) (r, u) (e, h, k) = (e, Mirrors-Clean c base l w u s i k h)
    after (fault, s) (r, u) (e, h) = e

-- The same, as long as the counter does not wrap.
abbrev pub Simulates :
    {H A : Type 0} → ℕ → World H → Outcome A × Local H → Outcome A × World H → Type 0
Simulates c base o r = base.tables.db_counter + o.1.spent < u64_mod → Matches c base o r

-- One call after another.
pub Simulates-bind :
    {H A B : Type 0} (c : ℕ) (base : World H) (o : Outcome A × Local H) (r : Outcome A × World H)
    (over : A → Go (World H) B) (here : A → Go (Local H) B) (l : Local H) (w : World H)
    → Simulates c base o r
    → ((a : A) (k : Local H) → k.spent ≤ (here a k).1.spent)
    → ((a : A) (k : Local H) (v : World H)
        → Mirrors c base k v
        → Simulates c base (here a k) (over a v))
    → Simulates c base (((λ u. o) >>= here) l) (((λ u. r) >>= over) w)
Simulates-bind c base o r over here l w x grow f =
    InStep-bind (Mirrors c base) (λ k. base.tables.db_counter + k.spent < u64_mod) o r over here l w
      x (λ a k room. omega (arith, grow a k, room)) f

pub Matches-intact :
    {H A : Type 0} (c : ℕ) (base : World H) (o : Outcome A × Local H) (r : Outcome A × World H)
    → intact o.0 ≡ true
    → Matches c base o r
    → (r.0 ≡ o.0) × Mirrors c base o.1 r.1
Matches-intact c base (ok a, l) (r, w) y g = g
Matches-intact c base (panic p, l) (r, w) y g = g
Matches-intact c base (fault, l) (r, w) y g = ground arith

-- The frame of a call whose counter was free.
module _ (c : ℕ) (stack : List (ℕ × Frame)) (fresh : lookup c stack ≡ none) where
  pub lookup-with_frame : (f : Frame) → frame_of (lookup c (with_frame c f stack)) ≡ f
  lookup-with_frame [] = ap frame_of fresh
  lookup-with_frame (it ∷ rest) = ground arith

  pub erase-with_frame : (f : Frame) → erase c (with_frame c f stack) ≡ stack
  erase-with_frame [] = erase_absent c stack fresh
  erase-with_frame (it ∷ rest) = ground (arith, erase_absent c stack fresh)

  pub insert-with_frame :
      (f : Frame) (it : ℕ)
      → insert c (f ++ it ∷ []) (with_frame c f stack) ≡ with_frame c (f ++ it ∷ []) stack
  insert-with_frame [] it = ap (λ d. (c, it ∷ []) ∷ d) (erase-with_frame [])
  insert-with_frame (x ∷ rest) it =
      ap (λ d. (c, x ∷ rest ++ it ∷ []) ∷ d) (erase-with_frame (x ∷ rest))

with_frame-Within :
    (c n m : ℕ) (f : Frame) (stack : List (ℕ × Frame))
    → c ≤ n
    → n ≤ m
    → Within n stack
    → Within m (with_frame c f stack)
with_frame-Within c n m [] stack l k h = Within-mono n m stack k h
with_frame-Within c n m (it ∷ rest) stack l k h = (omega (arith, l, k), Within-mono n m stack k h)

module _ {H : Type 0} (c : ℕ) (base : World H) (l : Local H) (w : World H)
    (m : Mirrors c base l w) where
  -- No frame is above the counter.
  pub Mirrors-Within :
      c ≤ base.tables.db_counter
      → Within base.tables.db_counter base.tables.iterator_stack
      → Within w.tables.db_counter w.tables.iterator_stack
  Mirrors-Within own counted =
      subst (λ t. Within t.db_counter t.iterator_stack) (sym m.same_tables)
        (with_frame-Within c base.tables.db_counter _ l.frame base.tables.iterator_stack own
          (omega arith) counted)

  Mirrors-Follows :
      (e : Effect H) (u : World H)
      → Follows w e u
      → Mirrors c base
          (record l { spent = l.spent + e.spent; given = e.given ++ l.given; host = e.host })
          u
  Mirrors-Follows e u f =
      let further : Tables → Tables = λ t. record t { db_counter = t.db_counter + e.spent } in
      let counter : base.tables.db_counter + l.spent + e.spent
          ≡ base.tables.db_counter + (l.spent + e.spent) =
        omega arith in
      record {
        same_host = f.same_host;
        same_tables =
            f.same_tables
            ∙ ap further m.same_tables
            ∙ ap
                (λ n. record base.tables {
                  db_counter = n;
                  iterator_stack = with_frame c l.frame base.tables.iterator_stack;
                })
                counter;
        grown = Grown-trans base.heap w.heap u.heap l.given e.given m.grown f.grown;
      }

  pub Echoes-Matches :
      {A : Type 0} (o : Outcome A × Effect H) (r : Outcome A × World H)
      → Echoes w o r
      → Matches c base (asked l o) r
  Echoes-Matches (ok a, e) (r, u) (same, f) = (same, Mirrors-Follows e u f)
  Echoes-Matches (panic p, e) (r, u) (same, f) = (same, Mirrors-Follows e u f)
  Echoes-Matches (fault, e) (r, u) same = same
