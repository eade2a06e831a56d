-- ===== src/Api/Contract/Lent.antt =====
-- Malloc's heap, and the buffers that `sending` lends to Rust.
use go_cosmwasm.Base.{
  ℕ, zero, suc, ◌%◌, u32_mod, ◌≡◌, refl, Bool, true, false, Option, none, some, ◌⊎◌, inl, inr,
  length, ◌==◌, if◌then◌else◌, arith,
}
use go_cosmwasm.Base.Dict.{lookup, erase, lookup-erase}
use go_cosmwasm.Go.{Go, Outcome, ok, panic, fault, Slice, Bytes}
use go_cosmwasm.Ffi.Memory.{
  Heap, Block, Buffer, Ptr, null_buffer, malloced, rust, alloc, IsValid, Below-suc, Below-absent,
  free_block, free_rust, consume, drop_vec, raw_parts,
}
use go_cosmwasm.Api.World.{World, on_heap}
use go_cosmwasm.Api.Memory.{send_slice, free_after_send, receive_vector, go_bytes}
use go_cosmwasm.Api.Library.{Reply, deferring}
use go_cosmwasm.Api.Contract.{sending, read_reply}

-- The block of malloc's with a number.
abbrev pub of_malloc : Option Block → Option Block
of_malloc none = none
of_malloc (some b) = elim b.owner [ malloced ↦ some b | rust ↦ none ]

abbrev pub malloc_at : ℕ → Heap → Option Block
malloc_at p h = of_malloc (lookup p h.blocks)

-- A computation from `w` leaves malloc's heap as it was, or has corrupted memory.
pub record Keeps {H A : Type 0} (m : Go (World H) A) (w : World H) : Type 0 where
  pub kept : ((m w).0 ≡ fault) ⊎ ((p : ℕ) → malloc_at p (m w).1.heap ≡ malloc_at p w.heap)

malloc_at-erase :
    (p n : ℕ) (h : Heap)
    → malloc_at p (record h { blocks = erase n h.blocks })
      ≡ (if p == n then none else malloc_at p h)
malloc_at-erase p n h = ground (arith, lookup-erase p n h.blocks)

free_block-malloc_at :
    (n : ℕ) (h : Heap) (p : ℕ) → malloc_at p (free_block rust n h).1 ≡ malloc_at p h
free_block-malloc_at n h p = ground (arith, lookup-erase p n h.blocks)

drop_vec-malloc_at :
    (q : Ptr) (n : ℕ) (h : Heap) (p : ℕ) → malloc_at p (drop_vec q n h).1 ≡ malloc_at p h
drop_vec-malloc_at q zero h p = refl
drop_vec-malloc_at Ptr.null (suc n) h p = refl
drop_vec-malloc_at Ptr.dangling (suc n) h p = refl
drop_vec-malloc_at (Ptr.at q) (suc n) h p = free_block-malloc_at q h p

pub raw_parts-heap : (q : Ptr) (n : ℕ) (h : Heap) → (raw_parts q n h).1 ≡ h
raw_parts-heap q zero h = refl
raw_parts-heap Ptr.null (suc n) h = refl
raw_parts-heap Ptr.dangling (suc n) h = refl
raw_parts-heap (Ptr.at q) (suc n) h = ground arith

-- What Rust frees, and however that goes, malloc's blocks stay.
pub consume-malloc_at :
    (q : Ptr) (n c : ℕ) (h : Heap) (p : ℕ)
    → malloc_at p (consume (record { ptr = q; len = n; cap = c }) h).1 ≡ malloc_at p h
unfolding consume
consume-malloc_at Ptr.null n c h p = refl
consume-malloc_at Ptr.dangling n c h p =
    grind (arith, raw_parts-heap Ptr.dangling n h, drop_vec-malloc_at)
consume-malloc_at (Ptr.at q) n c h p =
    grind (arith, raw_parts-heap (Ptr.at q) n h, drop_vec-malloc_at)

free_rust-malloc_at :
    (b : Buffer) (h : Heap) (p : ℕ) → malloc_at p (free_rust b h).1 ≡ malloc_at p h
unfolding free_rust
free_rust-malloc_at b h p = ground (arith, consume-malloc_at b.ptr b.len b.cap h p)

pub go_bytes-heap : (q : Ptr) (n : ℕ) (h : Heap) → (go_bytes q n h).1 ≡ h
unfolding go_bytes
go_bytes-heap q n h = ground (arith, raw_parts-heap q (n % u32_mod) h)

pub receive_vector-malloc_at :
    (b : Buffer) (h : Heap) (p : ℕ) → malloc_at p (receive_vector b h).1 ≡ malloc_at p h
unfolding receive_vector
receive_vector-malloc_at b h p =
    ground (arith, go_bytes-heap b.ptr b.len h, free_rust-malloc_at b h p)

free_after_send-sent :
    (n : ℕ) (xs : Bytes) (h : Heap)
    → malloc_at n h ≡ some (record { owner = malloced; bytes = xs })
    → free_after_send (record { ptr = Ptr.at n; len = length xs; cap = length xs }) h
      ≡ (ok tt, record h { blocks = erase n h.blocks })
unfolding free_after_send
free_after_send-sent n xs h e = ground arith

pub read_reply-Keeps :
    {H : Type 0} (t : ℕ → Bytes) (r : Reply Buffer) (w : World H) (p : ℕ)
    → malloc_at p (read_reply t r w).1.heap ≡ malloc_at p w.heap
unfolding read_reply
read_reply-Keeps t r w p =
    ground
      (arith, receive_vector-malloc_at r.res w.heap p, receive_vector-malloc_at r.errmsg w.heap p)

abbrev is_fault : {A : Type 0} → Outcome A → Bool
is_fault fault = true
is_fault _ = false

fault-cases : {A : Type 0} (o : Outcome A) → (o ≡ fault) ⊎ (is_fault o ≡ false)
fault-cases fault = inl refl
fault-cases (ok a) = inr refl
fault-cases (panic p) = inr refl

-- What is freed when the body has kept the block that was sent.
freed-Keeps :
    {H A : Type 0} (xs : Bytes) (m : Go (World H) A) (w : World H)
    → IsValid w.heap
    → let (n, sent) = alloc malloced xs w.heap in
      let b : Buffer = record { ptr = Ptr.at n; len = length xs; cap = length xs } in
      Keeps m (record w { heap = sent })
      → ((deferring (on_heap (free_after_send b)) m (record w { heap = sent })).0 ≡ fault)
        ⊎ ((p : ℕ)
            → malloc_at p
                (deferring (on_heap (free_after_send b)) m (record w { heap = sent })).1.heap
              ≡ malloc_at p w.heap)
unfolding deferring
freed-Keeps xs m w v k =
    elim (fault-cases (m (record w { heap = (alloc malloced xs w.heap).1 })).0) [
      | inl bad ↦ inl (ground arith)
      | inr fine ↦ elim k.kept [
        | inl bad ↦ inl (ground arith)
        | inr same ↦
            let n : ℕ = w.heap.next in
            let after : Heap = (m (record w { heap = (alloc malloced xs w.heap).1 })).1.heap in
            inr λ p. ground (
              arith,
              same p,
              same n,
              Below-absent n w.heap.blocks v,
              free_after_send-sent n xs after,
              malloc_at-erase p n after,
            )
      ]
    ]

null-Keeps :
    {H A : Type 0} (m : Go (World H) A) (w : World H)
    → Keeps m w
    → Keeps (deferring (on_heap (free_after_send null_buffer)) m) w
unfolding deferring free_after_send
null-Keeps m w k = elim k.kept [
  | inl bad ↦ record { kept = inl (ground arith) }
  | inr same ↦ record { kept = inr λ p. ground (arith, same p) }
]

pub sending-Keeps :
    {H A : Type 0} (x : Slice) (k : Buffer → Go (World H) A) (w : World H)
    → IsValid w.heap
    → ((b : Buffer) (h : Heap) → IsValid h → Keeps (k b) (record w { heap = h }))
    → Keeps (sending x k) w
unfolding sending send_slice
sending-Keeps none k w v h = record {
  kept = (null-Keeps (k null_buffer) w (h null_buffer w.heap v)).kept;
}
sending-Keeps (some xs) k w v h = record {
  kept = freed-Keeps xs _ w v (
      h (record { ptr = Ptr.at w.heap.next; len = length xs; cap = length xs }) _
        (omega arith, Below-suc w.heap.next w.heap.blocks v));
}
