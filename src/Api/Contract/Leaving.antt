-- ===== src/Api/Contract/Leaving.antt =====
-- A computation that returns, and what it leaves in Rust's heap.
use go_cosmwasm.Base.{ℕ, ◌≡◌, refl, none, some, List, [], ◌∷◌, arith}
use go_cosmwasm.Go.{Go, ok, Bytes, Slice}
use go_cosmwasm.Ffi.Memory.{Heap, Block, Buffer, malloced, IsValid}
use go_cosmwasm.Ffi.Memory.Grown.{Grown, Holds, Grown-lookup, Grown-erase}
use go_cosmwasm.Api.World.{World}
use go_cosmwasm.Api.Memory.{send_slice, free_after_send}
use go_cosmwasm.Api.Library.{deferring}
use go_cosmwasm.Api.Contract.{sending}
use go_cosmwasm.Api.Contract.Sending.{Ends, sent, sent_buffer}

-- From `w`, a computation returns `a` in the state `t`, with the blocks of the heap as they were and
-- one more of Rust's for each of `given`.
pub record Leaves {H A : Type 0} (a : A) (given : List Bytes) (m : Go (World H) A) (w t : World H)
    : Type 0 where
  pub heap : Heap
  pub grown : Grown w.heap given heap
  pub ends : m w ≡ (ok a, record t { heap = heap })

pub sending-Leaves :
    {H A : Type 0} (a : A) (given : List Bytes) (x : Slice) (k : Buffer → Go (World H) A)
    (w t : World H)
    → IsValid w.heap
    → Leaves a given (k (sent_buffer x w.heap)) (record w { heap = sent x w.heap }) t
    → Leaves a given (sending x k) w t
unfolding sending deferring send_slice free_after_send
sending-Leaves a given none k w t v e = record {
  heap = e.heap;
  grown = e.grown;
  ends = ground (arith, e.ends);
}
sending-Leaves a given (some ys) k w t v e = record {
  heap = _;
  grown = Grown-erase malloced ys w.heap given e.heap e.grown v;
  ends = ground (arith, e.ends, Grown-lookup malloced ys w.heap given e.heap e.grown);
}

-- The heap of the state that is named does not count.
pub Leaves-state :
    {H A : Type 0} (a : A) (given : List Bytes) (m : Go (World H) A) (w t u : World H)
    → t.tables ≡ u.tables
    → t.host ≡ u.host
    → Leaves a given m w t
    → Leaves a given m w u
Leaves-state a given m w t u x y e = record {
  heap = e.heap;
  grown = e.grown;
  ends = ground (arith, e.ends, x, y);
}

Holds-none : (n : ℕ) (extra : List (ℕ × Block)) → Holds n [] extra → extra ≡ []
Holds-none n [] h = refl
Holds-none n (e ∷ extra) h = elim h [ ]

-- What leaves nothing ends with the blocks that were there.
pub Leaves-Ends :
    {H A : Type 0} (a : A) (m : Go (World H) A) (w t : World H) → Leaves a [] m w t → Ends a m w t
Leaves-Ends a m w t e = record {
  next = e.heap.next;
  grows = e.grown.grows;
  ends =
      ground
        (arith, e.ends, e.grown.same_blocks, Holds-none w.heap.next e.grown.extra e.grown.holds);
}
