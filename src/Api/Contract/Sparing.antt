-- ===== src/Api/Contract/Sparing.antt =====
-- Computations that leave malloc's heap alone.
use mathlib.Core.Path.{subst}
use go_cosmwasm.Base.{sym, ap, ℕ, suc, zero, ◌≡◌, ◌∙◌, refl, none, some, [], ◌∷◌, arith}
use go_cosmwasm.Go.{Go, Outcome, ok, panic, fault, ◌>>=◌, Bytes, Slice}
use go_cosmwasm.Ffi.Memory.{
  Heap, Buffer, Ptr, IsValid, Below-suc, Below-erase, Below-absent, from_vec, consume, free_block,
  drop_vec, rust,
}
use go_cosmwasm.Ffi.Storage.Exchange.{allocate_rust-from_vec}
use go_cosmwasm.Api.World.{World, on_heap}
use go_cosmwasm.Api.Memory.{allocate_rust, receive_slice}
use go_cosmwasm.Api.Contract.Lent.{malloc_at, consume-malloc_at, raw_parts-heap, go_bytes-heap}

module _ {S : Type 0} (heap_of : S → Heap) where
  abbrev pub Untouched : S → S → Type 0
  Untouched s t =
      IsValid (heap_of t) × ((n : ℕ) → malloc_at n (heap_of t) ≡ malloc_at n (heap_of s))

  abbrev pub Spared : {A : Type 0} → S → Outcome A × S → Type 0
  Spared s (ok a, t) = Untouched s t
  Spared s (panic p, t) = Untouched s t
  Spared s (fault, t) = Unit {0}

  -- From a valid heap, a computation ends in a valid one with malloc's blocks as they were, or has
  -- corrupted memory.
  pub record SparesIn {A : Type 0} (m : Go S A) : Type 0 where
    pub spares : (s : S) → IsValid (heap_of s) → Spared s (m s)

  -- After a state that is untouched itself.
  pub later :
      {A : Type 0} (s t : S) (o : Outcome A × S)
      → ((n : ℕ) → malloc_at n (heap_of t) ≡ malloc_at n (heap_of s))
      → Spared t o
      → Spared s o
  later s t (ok a, u) same (v, after) = (v, λ n. after n ∙ same n)
  later s t (panic p, u) same (v, after) = (v, λ n. after n ∙ same n)
  later s t (fault, u) same x = tt

  pub Spared-ended : {A : Type 0} (s t : S) (o : Outcome A) → Untouched s t → Spared s (o, t)
  Spared-ended s t (ok a) x = x
  Spared-ended s t (panic p) x = x
  Spared-ended s t fault x = tt

  pub SparesIn-const : {A : Type 0} (o : Outcome A) → SparesIn (λ s. (o, s))
  SparesIn-const o = record { spares = λ s v. Spared-ended s s o (v, λ n. refl) }

  then-Spared :
      {A B : Type 0} (o : Outcome A × S) (f : A → Go S B) (s : S)
      → ((a : A) → SparesIn (f a))
      → Spared s o
      → Spared s (((λ u. o) >>= f) s)
  then-Spared (ok a, t) f s k (v, same) = later s t (f a t) same ((k a).spares t v)
  then-Spared (panic p, t) f s k x = x
  then-Spared (fault, t) f s k x = tt

  pub SparesIn-bind :
      {A B : Type 0} (m : Go S A) (f : A → Go S B)
      → SparesIn m
      → ((a : A) → SparesIn (f a))
      → SparesIn (m >>= f)
  SparesIn-bind m f x k = record { spares = λ s v. then-Spared (m s) f s k (x.spares s v) }

-- The heap's own operations.
abbrev pub whole : Heap → Heap
whole h = h

pub from_vec-Spares : (xs : Bytes) → SparesIn whole (from_vec xs)
unfolding from_vec
from_vec-Spares [] = record { spares = λ h v. (v, λ n. refl) }
from_vec-Spares (x ∷ xs) = record {
  spares = λ h v. (
    (omega arith, Below-suc h.next h.blocks v),
    λ n. ground (arith, Below-absent h.next h.blocks v),
  );
}

-- What only reads.
pub reading-Spares : {A : Type 0} (m : Go Heap A) → ((h : Heap) → (m h).1 ≡ h) → SparesIn whole m
reading-Spares m e = record {
  spares = λ h v.
      Spared-ended whole h (m h).1 (m h).0
        (subst (λ g. IsValid g) (sym (e h)) v, λ n. ap (malloc_at n) (e h));
}

freed-IsValid : (p : ℕ) (h : Heap) → IsValid h → IsValid (free_block rust p h).1
freed-IsValid p h v = ground (arith, Below-erase h.next p h.blocks v)

dropped-IsValid : (q : Ptr) (n : ℕ) (h : Heap) → IsValid h → IsValid (drop_vec q n h).1
dropped-IsValid q zero h v = v
dropped-IsValid Ptr.null (suc n) h v = v
dropped-IsValid Ptr.dangling (suc n) h v = v
dropped-IsValid (Ptr.at q) (suc n) h v = freed-IsValid q h v

consumed-IsValid :
    (q : Ptr) (n c : ℕ) (h : Heap)
    → IsValid h
    → IsValid (consume (record { ptr = q; len = n; cap = c }) h).1
unfolding consume
consumed-IsValid Ptr.null n c h v = v
consumed-IsValid Ptr.dangling n c h v =
    grind (arith, raw_parts-heap Ptr.dangling n h, dropped-IsValid Ptr.dangling c h v)
consumed-IsValid (Ptr.at q) n c h v =
    grind (arith, raw_parts-heap (Ptr.at q) n h, dropped-IsValid (Ptr.at q) c h v)

pub consume-Spares : (b : Buffer) → SparesIn whole (consume b)
consume-Spares b = record {
  spares = λ h v.
      Spared-ended whole h (consume b h).1 (consume b h).0
        (consumed-IsValid b.ptr b.len b.cap h v, λ n. consume-malloc_at b.ptr b.len b.cap h n);
}

receive_slice-heap : (b : Buffer) (h : Heap) → (receive_slice b h).1 ≡ h
unfolding receive_slice
receive_slice-heap b h = ground (arith, go_bytes-heap b.ptr b.len h)

pub receive_slice-Spares : (b : Buffer) → SparesIn whole (receive_slice b)
receive_slice-Spares b = reading-Spares (receive_slice b) (receive_slice-heap b)

pub allocate_rust-Spares : (xs : Slice) → SparesIn whole (allocate_rust xs)
unfolding allocate_rust
allocate_rust-Spares none = SparesIn-const whole _
allocate_rust-Spares (some xs) = record {
  spares = λ h v.
      subst (λ o. Spared whole h o) (allocate_rust-from_vec xs h) ((from_vec-Spares xs).spares h v);
}

-- The same for the heap as a part of a larger state.
abbrev pub world_heap : {H : Type 0} → World H → Heap
world_heap w = w.heap

placed :
    {H A : Type 0} (w : World H) (o : Outcome A × Heap)
    → Spared whole w.heap o
    → Spared world_heap w (o.0, record w { heap = o.1 })
placed w (ok a, h) x = x
placed w (panic p, h) x = x
placed w (fault, h) x = tt

pub on_heap-Spares :
    {H A : Type 0} (m : Go Heap A) → SparesIn whole m → SparesIn (world_heap {H = H}) (on_heap m)
on_heap-Spares m x = record { spares = λ w v. placed w (m w.heap) (x.spares w.heap v) }
