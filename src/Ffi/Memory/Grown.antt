-- ===== src/Ffi/Memory/Grown.antt =====
-- A heap with blocks of Rust's on top of those that it had: the buffers that nobody consumes.
use mathlib.Core.Path.{subst}
use go_cosmwasm.Base.{
  ℕ, suc, ◌≤◌, ◌<◌, ◌≡◌, refl, sym, ap, ◌∙◌, none, some, List, [], ◌∷◌, ◌++◌, arith, take-length,
}
use go_cosmwasm.Base.Dict.{lookup, erase, erase_absent}
use go_cosmwasm.Go.{Bytes, Slice}
use go_cosmwasm.Ffi.Memory.{
  Heap, Block, Owner, rust, alloc, allocate_rust as c_allocate_rust, from_vec, IsValid, Below-suc,
  Below-absent, Below-erase,
}
use go_cosmwasm.Api.Memory.{allocate_rust}

-- Blocks of Rust's, of numbers from `n` on, with the bytes that are listed.
abbrev pub Holds : ℕ → List Bytes → List (ℕ × Block) → Type 0
Holds n [] [] = Unit {0}
Holds n (xs ∷ given) ((p, b) ∷ blocks) =
    (n ≤ p) × (b ≡ record { owner = rust; bytes = xs }) × Holds n given blocks
Holds n _ _ = ⊥

-- The heap `h` is the heap `base` with one more block of Rust's for each of `given`.
pub record Grown (base : Heap) (given : List Bytes) (h : Heap) : Type 0 where
  pub extra : List (ℕ × Block)
  pub same_blocks : h.blocks ≡ extra ++ base.blocks
  pub holds : Holds base.next given extra
  pub grows : base.next ≤ h.next
  pub valid : IsValid h

pub Grown-refl : (h : Heap) → IsValid h → Grown h [] h
Grown-refl h v = record {
  extra = [];
  same_blocks = refl;
  holds = tt;
  grows = omega arith;
  valid = v;
}

-- A heap with the same blocks, and no fewer numbers given out.
pub Grown-same :
    (base : Heap) (given : List Bytes) (h g : Heap)
    → Grown base given h
    → g.blocks ≡ h.blocks
    → h.next ≤ g.next
    → IsValid g
    → Grown base given g
Grown-same base given h g k e l v = record {
  extra = k.extra;
  same_blocks = e ∙ k.same_blocks;
  holds = k.holds;
  grows = omega (arith, k.grows, l);
  valid = v;
}

pub Grown-alloc :
    (base : Heap) (given : List Bytes) (h : Heap) (xs : Bytes)
    → Grown base given h
    → Grown base (xs ∷ given) (alloc rust xs h).1
Grown-alloc base given h xs k = record {
  extra = (h.next, record { owner = rust; bytes = xs }) ∷ k.extra;
  same_blocks = ap (λ d. (h.next, record { owner = rust; bytes = xs }) ∷ d) k.same_blocks;
  holds = (k.grows, refl, k.holds);
  grows = omega (arith, k.grows);
  valid = (omega arith, Below-suc h.next h.blocks k.valid);
}

-- Bytes that take a block.
abbrev pub keep : Slice → List Bytes → List Bytes
keep none gs = gs
keep (some []) gs = gs
keep (some (x ∷ xs)) gs = (x ∷ xs) ∷ gs

allocate_rust-alloc :
    (x : ℕ) (xs : Bytes) (h : Heap)
    → (allocate_rust (some (x ∷ xs)) h).1 ≡ (alloc rust (x ∷ xs) h).1
unfolding allocate_rust c_allocate_rust from_vec
allocate_rust-alloc x xs h = ground (arith, take-length xs)

pub Grown-allocate_rust :
    (base : Heap) (given : List Bytes) (h : Heap) (x : Slice)
    → Grown base given h
    → Grown base (keep x given) (allocate_rust x h).1
unfolding allocate_rust c_allocate_rust from_vec
Grown-allocate_rust base given h none k = k
Grown-allocate_rust base given h (some []) k = k
Grown-allocate_rust base given h (some (x ∷ xs)) k =
    subst (Grown base ((x ∷ xs) ∷ given)) (sym (allocate_rust-alloc x xs h))
      (Grown-alloc base given h (x ∷ xs) k)

-- The block that was allocated before the others is the only one of its number.
lookup-Holds :
    (n p : ℕ) (given : List Bytes) (extra d : List (ℕ × Block))
    → p < n
    → Holds n given extra
    → lookup p (extra ++ d) ≡ lookup p d
lookup-Holds n p [] [] d l h = refl
lookup-Holds n p [] (e ∷ extra) d l h = elim h [ ]
lookup-Holds n p (xs ∷ given) [] d l h = elim h [ ]
lookup-Holds n p (xs ∷ given) ((q, b) ∷ extra) d l h =
    ground (arith, h.0, lookup-Holds n p given extra d l h.2)

erase-Holds :
    (n p : ℕ) (given : List Bytes) (extra d : List (ℕ × Block))
    → p < n
    → Holds n given extra
    → erase p (extra ++ d) ≡ extra ++ erase p d
erase-Holds n p [] [] d l h = refl
erase-Holds n p [] (e ∷ extra) d l h = elim h [ ]
erase-Holds n p (xs ∷ given) [] d l h = elim h [ ]
erase-Holds n p (xs ∷ given) ((q, b) ∷ extra) d l h =
    ground (arith, h.0, erase-Holds n p given extra d l h.2)

Holds-mono :
    (n m : ℕ) (given : List Bytes) (extra : List (ℕ × Block))
    → m ≤ n
    → Holds n given extra
    → Holds m given extra
Holds-mono n m [] [] l h = tt
Holds-mono n m [] (e ∷ extra) l h = elim h [ ]
Holds-mono n m (xs ∷ given) [] l h = elim h [ ]
Holds-mono n m (xs ∷ given) ((q, b) ∷ extra) l h =
    (omega (arith, l, h.0), h.1, Holds-mono n m given extra l h.2)

-- A block that is allocated, and given back once the heap has grown.
module _ (o : Owner) (ys : Bytes) (h : Heap) (given : List Bytes) (g : Heap)
    (k : Grown (alloc o ys h).1 given g) where
  pub Grown-lookup : lookup h.next g.blocks ≡ some (record { owner = o; bytes = ys })
  Grown-lookup =
      ap (lookup h.next) k.same_blocks
      ∙ lookup-Holds (suc h.next) h.next given k.extra (alloc o ys h).1.blocks (omega arith) k.holds
      ∙ ground arith

  pub Grown-erase : IsValid h → Grown h given (record g { blocks = erase h.next g.blocks })
  Grown-erase v = record {
    extra = k.extra;
    same_blocks =
        ap (erase h.next) k.same_blocks
        ∙ erase-Holds (suc h.next) h.next given k.extra (alloc o ys h).1.blocks (omega arith)
            k.holds
        ∙ ap (λ d. k.extra ++ d)
            (ground (arith, erase_absent h.next h.blocks (Below-absent h.next h.blocks v)));
    holds = Holds-mono (suc h.next) h.next given k.extra (omega arith) k.holds;
    grows = omega (arith, k.grows);
    valid = Below-erase g.next h.next g.blocks k.valid;
  }

Holds-append :
    (n : ℕ) (xs ys : List Bytes) (d e : List (ℕ × Block))
    → Holds n xs d
    → Holds n ys e
    → Holds n (xs ++ ys) (d ++ e)
Holds-append n [] ys [] e h k = k
Holds-append n [] ys (b ∷ d) e h k = elim h [ ]
Holds-append n (x ∷ xs) ys [] e h k = elim h [ ]
Holds-append n (x ∷ xs) ys ((p, b) ∷ d) e h k = (h.0, h.1, Holds-append n xs ys d e h.2 k)

append_assoc : (x y z : List (ℕ × Block)) → x ++ (y ++ z) ≡ (x ++ y) ++ z
append_assoc [] y z = refl
append_assoc (b ∷ x) y z = ap (λ d. b ∷ d) (append_assoc x y z)

-- One growth after another.
pub Grown-trans :
    (base h g : Heap) (xs ys : List Bytes)
    → Grown base xs h
    → Grown h ys g
    → Grown base (ys ++ xs) g
Grown-trans base h g xs ys k l = record {
  extra = l.extra ++ k.extra;
  same_blocks =
      l.same_blocks
      ∙ ap (λ d. l.extra ++ d) k.same_blocks
      ∙ append_assoc l.extra k.extra base.blocks;
  holds =
      Holds-append base.next ys xs l.extra k.extra
        (Holds-mono h.next base.next ys l.extra k.grows l.holds) k.holds;
  grows = omega (arith, k.grows, l.grows);
  valid = l.valid;
}
