-- ===== src/Ffi/Storage/Exchange.antt =====
-- The two heaps over one callback: Rust lends a vector, Go answers with a slice or with none, and
-- Rust frees the one and takes the other.
use go_cosmwasm.Base.{
  ℕ, suc, ◌≤◌, ◌<◌, ◌^◌, ◌≡◌, refl, none, some, [], ◌∷◌, length, take-length, arith,
}
use go_cosmwasm.Go.{ok, Bytes, Slice}
use go_cosmwasm.Ffi.Memory.{
  Heap, Ptr, Buffer, null_buffer, rust, IsValid, alloc, erase-alloc, Below-suc, from_vec, consume,
}
use go_cosmwasm.Api.Memory.{allocate_rust, receive_slice}
use go_cosmwasm.Ffi.Storage.{value_of}

pub record Exchange (lent : Bytes) (answer : Slice) (h : Heap) : Type 0 where
  pub sent : Buffer
  pub got : Buffer
  pub after_send : Heap
  pub after_answer : Heap
  pub after_free : Heap
  pub after_take : Heap
  pub sends : from_vec lent h ≡ (ok sent, after_send)
  pub answers : allocate_rust answer after_send ≡ (ok got, after_answer)
  pub receives :
      length lent < 2 ^ 31 → receive_slice sent after_answer ≡ (ok (some lent), after_answer)
  pub frees : consume sent after_answer ≡ (ok lent, after_free)
  pub takes : value_of got after_free ≡ (ok answer, after_take)
  pub same_blocks : after_take.blocks ≡ h.blocks
  pub grows : h.next ≤ after_take.next
  pub valid : IsValid after_take

abbrev vector_at : ℕ → Bytes → Buffer
vector_at n xs = record { ptr = Ptr.at n; len = length xs; cap = length xs }

abbrev empty_vector : Buffer
empty_vector = record { ptr = Ptr.dangling; len = 0; cap = 0 }

abbrev next_by : ℕ → Heap → Heap
next_by n h = record h { next = n }

pub exchange : (lent : Bytes) (answer : Slice) (h : Heap) → IsValid h → Exchange lent answer h
unfolding from_vec allocate_rust consume value_of receive_slice
exchange [] none h v = record {
  sent = empty_vector;
  got = null_buffer;
  after_send = h;
  after_answer = h;
  after_free = h;
  after_take = h;
  sends = refl;
  answers = refl;
  receives = λ short. refl;
  frees = refl;
  takes = refl;
  same_blocks = refl;
  grows = omega arith;
  valid = v;
}
exchange [] (some []) h v = record {
  sent = empty_vector;
  got = empty_vector;
  after_send = h;
  after_answer = h;
  after_free = h;
  after_take = h;
  sends = refl;
  answers = refl;
  receives = λ short. refl;
  frees = refl;
  takes = refl;
  same_blocks = refl;
  grows = omega arith;
  valid = v;
}
exchange [] (some (y ∷ ys)) h v = record {
  sent = empty_vector;
  got = vector_at h.next (y ∷ ys);
  after_send = h;
  after_answer = (alloc rust (y ∷ ys) h).1;
  after_free = (alloc rust (y ∷ ys) h).1;
  after_take = next_by (suc h.next) h;
  sends = refl;
  answers = ground (arith, take-length ys);
  receives = λ short. refl;
  frees = refl;
  takes = ground (arith, take-length ys, erase-alloc rust (y ∷ ys) h v);
  same_blocks = refl;
  grows = omega arith;
  valid = Below-suc h.next h.blocks v;
}
exchange (x ∷ xs) none h v = record {
  sent = vector_at h.next (x ∷ xs);
  got = null_buffer;
  after_send = (alloc rust (x ∷ xs) h).1;
  after_answer = (alloc rust (x ∷ xs) h).1;
  after_free = next_by (suc h.next) h;
  after_take = next_by (suc h.next) h;
  sends = refl;
  answers = refl;
  receives = λ short. ground (arith, take-length xs);
  frees = ground (arith, take-length xs, erase-alloc rust (x ∷ xs) h v);
  takes = refl;
  same_blocks = refl;
  grows = omega arith;
  valid = Below-suc h.next h.blocks v;
}
exchange (x ∷ xs) (some []) h v = record {
  sent = vector_at h.next (x ∷ xs);
  got = empty_vector;
  after_send = (alloc rust (x ∷ xs) h).1;
  after_answer = (alloc rust (x ∷ xs) h).1;
  after_free = next_by (suc h.next) h;
  after_take = next_by (suc h.next) h;
  sends = refl;
  answers = refl;
  receives = λ short. ground (arith, take-length xs);
  frees = ground (arith, take-length xs, erase-alloc rust (x ∷ xs) h v);
  takes = refl;
  same_blocks = refl;
  grows = omega arith;
  valid = Below-suc h.next h.blocks v;
}
exchange (x ∷ xs) (some (y ∷ ys)) h v =
    let h1 : Heap = (alloc rust (x ∷ xs) h).1 in
    let h3 : Heap = next_by (suc h.next) h in
    record {
      sent = vector_at h.next (x ∷ xs);
      got = vector_at (suc h.next) (y ∷ ys);
      after_send = h1;
      after_answer = (alloc rust (y ∷ ys) h1).1;
      after_free = (alloc rust (y ∷ ys) h3).1;
      after_take = next_by (suc (suc h.next)) h;
      sends = refl;
      answers = ground (arith, take-length ys);
      receives = λ short. ground (arith, take-length xs);
      frees = ground (arith, take-length xs, erase-alloc rust (x ∷ xs) h v);
      takes =
          ground
            (arith, take-length ys, erase-alloc rust (y ∷ ys) h3 (Below-suc h.next h.blocks v));
      same_blocks = refl;
      grows = omega arith;
      valid = Below-suc (suc h.next) h.blocks (Below-suc h.next h.blocks v);
    }

-- What Rust lends, a callback receives.
pub from_vec-receive_slice :
    (lent : Bytes) (h : Heap) {b : Buffer} {h' : Heap}
    → length lent < 2 ^ 31
    → from_vec lent h ≡ (ok b, h')
    → receive_slice b h' ≡ (ok (some lent), h')
unfolding from_vec receive_slice
from_vec-receive_slice [] h s e = ground arith
from_vec-receive_slice (x ∷ xs) h s e = ground (arith, take-length xs)

-- `allocateRust` of a slice that is not nil makes what `Buffer::from_vec` makes of its bytes.
pub allocate_rust-from_vec : (xs : Bytes) (h : Heap) → from_vec xs h ≡ allocate_rust (some xs) h
unfolding from_vec allocate_rust
allocate_rust-from_vec [] h = refl
allocate_rust-from_vec (x ∷ xs) h = ground (arith, take-length xs)

pub value_of-consume :
    (b : Buffer) (xs : Bytes) (h h' : Heap)
    → value_of b h ≡ (ok (some xs), h')
    → consume b h ≡ (ok xs, h')
unfolding value_of
value_of-consume b xs h h' e = ground arith
