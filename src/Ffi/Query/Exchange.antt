-- ===== src/Ffi/Query/Exchange.antt =====
-- The two heaps over one query: Rust lends the request, the querier may leave blocks of Rust's, Go
-- answers with a slice, and Rust frees the request and takes the answer.
use go_cosmwasm.Base.{suc, ◌≡◌, refl, none, some, List, [], ◌∷◌, length, take-length, arith}
use go_cosmwasm.Base.Dict.{erase, erase_absent}
use go_cosmwasm.Go.{ok, Bytes, Slice}
use go_cosmwasm.Ffi.Memory.{
  Heap, Ptr, Buffer, null_buffer, rust, IsValid, alloc, Below-mono, Below-absent, Below-erase,
  from_vec, consume,
}
use go_cosmwasm.Ffi.Memory.Grown.{Grown, Grown-same, Grown-lookup, Grown-erase}
use go_cosmwasm.Api.Memory.{allocate_rust}
use go_cosmwasm.Ffi.Storage.{value_of}

-- The buffer and the heap of a request that was sent.
abbrev pub lent_buffer : Bytes → Heap → Buffer
lent_buffer [] h = record { ptr = Ptr.dangling; len = 0; cap = 0 }
lent_buffer (x ∷ xs) h = record {
  ptr = Ptr.at h.next;
  len = length (x ∷ xs);
  cap = length (x ∷ xs);
}

abbrev pub lent_heap : Bytes → Heap → Heap
lent_heap xs h = (from_vec xs h).1

-- From the heap `g` that the querier leaves: the answer, and what Rust makes of it.
pub record Taken (lent : Bytes) (answer : Slice) (h : Heap) (given : List Bytes) (g : Heap)
    : Type 0 where
  pub got : Buffer
  pub after_answer : Heap
  pub after_free : Heap
  pub after_take : Heap
  pub answers : allocate_rust answer g ≡ (ok got, after_answer)
  pub frees : consume (lent_buffer lent h) after_answer ≡ (ok lent, after_free)
  pub takes : value_of got after_free ≡ (ok answer, after_take)
  pub grown : Grown h given after_take

-- A vector that is made and consumed at once, in a heap of which the request is gone.
pub taken :
    (lent : Bytes) (answer : Slice) (h : Heap) (given : List Bytes) (g : Heap)
    → IsValid h
    → Grown (lent_heap lent h) given g
    → Taken lent answer h given g
unfolding from_vec allocate_rust consume value_of
taken [] none h given g v k = record {
  got = null_buffer;
  after_answer = g;
  after_free = g;
  after_take = g;
  answers = refl;
  frees = refl;
  takes = refl;
  grown = k;
}
taken [] (some []) h given g v k = record {
  got = record { ptr = Ptr.dangling; len = 0; cap = 0 };
  after_answer = g;
  after_free = g;
  after_take = g;
  answers = refl;
  frees = refl;
  takes = refl;
  grown = k;
}
taken [] (some (y ∷ ys)) h given g v k =
    let gone = erase_absent g.next g.blocks (Below-absent g.next g.blocks k.valid) in
    record {
      got = record { ptr = Ptr.at g.next; len = length (y ∷ ys); cap = length (y ∷ ys) };
      after_answer = (alloc rust (y ∷ ys) g).1;
      after_free = (alloc rust (y ∷ ys) g).1;
      after_take = record { next = suc g.next; blocks = g.blocks };
      answers = ground (arith, take-length ys);
      frees = refl;
      takes = ground (arith, take-length ys, gone);
      grown =
          Grown-same h given g _ k refl (omega arith)
            (Below-mono g.next (suc g.next) g.blocks (omega arith) k.valid);
    }
taken (x ∷ xs) none h given g v k = record {
  got = null_buffer;
  after_answer = g;
  after_free = record g { blocks = erase h.next g.blocks };
  after_take = record g { blocks = erase h.next g.blocks };
  answers = refl;
  frees = ground (arith, take-length xs, Grown-lookup rust (x ∷ xs) h given g k);
  takes = refl;
  grown = Grown-erase rust (x ∷ xs) h given g k v;
}
taken (x ∷ xs) (some []) h given g v k = record {
  got = record { ptr = Ptr.dangling; len = 0; cap = 0 };
  after_answer = g;
  after_free = record g { blocks = erase h.next g.blocks };
  after_take = record g { blocks = erase h.next g.blocks };
  answers = refl;
  frees = ground (arith, take-length xs, Grown-lookup rust (x ∷ xs) h given g k);
  takes = refl;
  grown = Grown-erase rust (x ∷ xs) h given g k v;
}
taken (x ∷ xs) (some (y ∷ ys)) h given g v k =
    let rest = erase h.next g.blocks in
    let still = Below-erase g.next h.next g.blocks k.valid in
    let gone = erase_absent g.next rest (Below-absent g.next rest still) in
    record {
      got = record { ptr = Ptr.at g.next; len = length (y ∷ ys); cap = length (y ∷ ys) };
      after_answer = (alloc rust (y ∷ ys) g).1;
      after_free = record {
        next = suc g.next;
        blocks = (g.next, record { owner = rust; bytes = y ∷ ys }) ∷ rest;
      };
      after_take = record { next = suc g.next; blocks = rest };
      answers = ground (arith, take-length ys);
      frees = ground (arith, take-length xs, k.grows, Grown-lookup rust (x ∷ xs) h given g k);
      takes = ground (arith, take-length ys, gone);
      grown =
          Grown-same h given (record g { blocks = rest }) _
            (Grown-erase rust (x ∷ xs) h given g k v) refl (omega arith)
            (Below-mono g.next (suc g.next) rest (omega arith) still);
    }
