-- ===== src/Api/Contract/Sending.antt =====
-- A buffer that is lent to Rust for the length of a call, and freed at its end.
use go_cosmwasm.Base.{ℕ, ◌≤◌, ◌<◌, ◌^◌, ◌≡◌, refl, none, some, [], ◌∷◌, length, take-length, arith}
use go_cosmwasm.Go.{Go, ok, ◌>>=◌, Bytes, Slice}
use go_cosmwasm.Ffi.Memory.{
  Heap, Buffer, Ptr, null_buffer, malloced, rust, from_vec, IsValid, Below-suc, erase-alloc,
}
use go_cosmwasm.Api.World.{World}
use go_cosmwasm.Api.Memory.{send_slice, free_after_send, receive_vector}
use go_cosmwasm.Api.Library.{deferring}
use go_cosmwasm.Api.Contract.{sending}

-- The heap that a call of C finds once `x` is sent, and the buffer that it is given.
abbrev pub sent : Slice → Heap → Heap
sent x h = (send_slice x h).1

abbrev pub sent_buffer : Slice → Heap → Buffer
sent_buffer none h = null_buffer
sent_buffer (some xs) h = record { ptr = Ptr.at h.next; len = length xs; cap = length xs }

pub sent-IsValid : (x : Slice) (h : Heap) → IsValid h → IsValid (sent x h)
unfolding send_slice
sent-IsValid none h v = v
sent-IsValid (some xs) h v = (omega arith, Below-suc h.next h.blocks v)

-- From `w`, a computation returns `a` in the state `t`, with the blocks of the heap as they were.
pub record Ends {H A : Type 0} (a : A) (m : Go (World H) A) (w t : World H) : Type 0 where
  pub next : ℕ
  pub grows : w.heap.next ≤ next
  pub ends : m w ≡ (ok a, record t { heap = record { next = next; blocks = w.heap.blocks } })

pub sending-Ends :
    {H A : Type 0} (a : A) (x : Slice) (k : Buffer → Go (World H) A) (w t : World H)
    → IsValid w.heap
    → Ends a (k (sent_buffer x w.heap)) (record w { heap = sent x w.heap }) t
    → Ends a (sending x k) w t
unfolding sending deferring send_slice free_after_send
sending-Ends a none k w t v e = record {
  next = e.next;
  grows = e.grows;
  ends = ground (arith, e.ends);
}
sending-Ends a (some ys) k w t v e = record {
  next = e.next;
  grows = omega (arith, e.grows);
  ends = ground (arith, e.ends, erase-alloc malloced ys w.heap v);
}

pub from_vec-next : (xs : Bytes) (h : Heap) → h.next ≤ (from_vec xs h).1.next
unfolding from_vec
from_vec-next [] h = omega arith
from_vec-next (x ∷ xs) h = omega arith

pub from_vec-receive_vector :
    (xs : Bytes) (h : Heap)
    → IsValid h
    → length xs < 2 ^ 31
    → (from_vec xs >>= receive_vector) h
      ≡ (ok (some xs), record { next = (from_vec xs h).1.next; blocks = h.blocks })
unfolding from_vec receive_vector
from_vec-receive_vector [] h v s = refl
from_vec-receive_vector (x ∷ xs) h v s =
    ground (arith, take-length xs, erase-alloc rust (x ∷ xs) h v)

-- The heap of the state that is named does not count.
pub Ends-state :
    {H A : Type 0} (a : A) (m : Go (World H) A) (w t u : World H)
    → t.tables ≡ u.tables
    → t.host ≡ u.host
    → Ends a m w t
    → Ends a m w u
Ends-state a m w t u x y e = record {
  next = e.next;
  grows = e.grows;
  ends = ground (arith, e.ends, x, y);
}
