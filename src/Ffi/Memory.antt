-- ===== src/Ffi/Memory.antt =====
-- src/memory.rs, and the two heaps that the binding allocates from: malloc's and Rust's.
pub mod Grown
use go_cosmwasm.Base.{
  ℕ, zero, suc, Bool, true, false, Option, none, some, List, [], ◌∷◌, length, ◌==◌, leb, take, ◌<◌,
  ◌≤◌, ◌≡◌, refl, arith, if◌then◌else◌,
}
use go_cosmwasm.Base.Dict.{lookup, erase, erase_absent}
use go_cosmwasm.Go.{Go, ok, fault, pure, corrupt, ◌>>=◌, ◌>>◌, Bytes}

pub data Owner : Type 0 where
  malloced rust : Owner

pub record Block : Type 0 where
  pub owner : Owner
  pub bytes : Bytes

-- Blocks are numbered in the order of their allocation; an allocation does not fail.
pub record Heap : Type 0 where
  pub next : ℕ
  pub blocks : List (ℕ × Block)

-- `dangling` is the pointer of a Rust vector without an allocation: not null, and not to be read.
pub data Ptr : Type 0 where
  null dangling : Ptr
  at : ℕ → Ptr

pub record Buffer : Type 0 where
  pub ptr : Ptr
  pub len : ℕ
  pub cap : ℕ

-- `Buffer::default()`, and `C.Buffer{}` in Go.
abbrev pub null_buffer : Buffer
null_buffer = record { ptr = null; len = 0; cap = 0 }

abbrev pub alloc : Owner → Bytes → Heap → ℕ × Heap
alloc o xs h = (
  h.next,
  record { next = suc h.next; blocks = (h.next, record { owner = o; bytes = xs }) ∷ h.blocks },
)

abbrev pub same_owner : Owner → Owner → Bool
same_owner malloced malloced = true
same_owner rust rust = true
same_owner _ _ = false

-- Gives a block back to its heap; a block that is not there, or another heap's, is a fault.
abbrev pub free_block : Owner → ℕ → Go Heap (Unit {0})
free_block o p h = elim (lookup p h.blocks) [
  | none ↦ (fault, h)
  | some b ↦
      if same_owner o b.owner then (ok tt, record h { blocks = erase p h.blocks }) else (fault, h)
]

-- `Buffer::from_vec`, of a vector whose capacity is its length.
unfoldable pub from_vec : Bytes → Go Heap Buffer
from_vec [] h = (ok (record { ptr = dangling; len = 0; cap = 0 }), h)
from_vec (x ∷ xs) h =
    let (p, h') = alloc rust (x ∷ xs) h in
    (ok (record { ptr = at p; len = length (x ∷ xs); cap = length (x ∷ xs) }), h')

-- `allocate_rust(ptr, length)`: the first `length` bytes at a Go pointer are copied.
unfoldable pub allocate_rust : Bytes → ℕ → Go Heap Buffer
unfolding from_vec
allocate_rust xs n = if n == 0 then from_vec [] else from_vec (take n xs)

-- The bytes at a pointer, `slice::from_raw_parts(ptr, len)`: a read past the block is a fault.
abbrev pub raw_parts : Ptr → ℕ → Go Heap Bytes
raw_parts ptr zero h = (ok [], h)
raw_parts (at p) (suc n) h = elim (lookup p h.blocks) [
  | none ↦ (fault, h)
  | some b ↦ if leb (suc n) (length b.bytes) then (ok (take (suc n) b.bytes), h) else (fault, h)
]
raw_parts ptr (suc n) h = (fault, h)

-- `Buffer::read`
unfoldable pub read : Buffer → Go Heap (Option Bytes)
read b = elim b.ptr [
  | null ↦ pure none
  | dangling ↦ raw_parts dangling b.len >>= λ xs. pure (some xs)
  | at p ↦ raw_parts (at p) b.len >>= λ xs. pure (some xs)
]

-- What dropping a vector does: without capacity it owns no block.
abbrev pub drop_vec : Ptr → ℕ → Go Heap (Unit {0})
drop_vec ptr zero = pure tt
drop_vec (at p) (suc n) = free_block rust p
drop_vec ptr (suc n) = corrupt

-- `Buffer::consume`, with the vector dropped once its bytes are read.
unfoldable pub consume : Buffer → Go Heap Bytes
consume b = elim b.ptr [
  | null ↦ pure []
  | dangling ↦ do xs ← raw_parts dangling b.len; drop_vec dangling b.cap; pure xs
  | at p ↦ do xs ← raw_parts (at p) b.len; drop_vec (at p) b.cap; pure xs
]

-- `free_rust`
unfoldable pub free_rust : Buffer → Go Heap (Unit {0})
unfolding consume
free_rust b = do consume b; pure tt

-- Every block's number is below `next`.
abbrev pub Below : ℕ → List (ℕ × Block) → Type 0
Below n [] = Unit {0}
Below n ((p, b) ∷ d) = (p < n) × Below n d

abbrev pub IsValid : Heap → Type 0
IsValid h = Below h.next h.blocks

pub Below-absent : (n : ℕ) (d : List (ℕ × Block)) → Below n d → lookup n d ≡ none
Below-absent n [] v = refl
Below-absent n (e ∷ d) v = ground (arith, Below-absent n d v.1)

pub Below-suc : (n : ℕ) (d : List (ℕ × Block)) → Below n d → Below (suc n) d
Below-suc n [] v = tt
Below-suc n (e ∷ d) v = (omega arith, Below-suc n d v.1)

pub Below-mono : (n m : ℕ) (d : List (ℕ × Block)) → n ≤ m → Below n d → Below m d
Below-mono n m [] l v = tt
Below-mono n m (e ∷ d) l v = (omega (arith, l, v.0), Below-mono n m d l v.1)

pub Below-erase : (n p : ℕ) (d : List (ℕ × Block)) → Below n d → Below n (erase p d)
Below-erase n p [] v = tt
Below-erase n p (e ∷ d) v = ground (arith, Below-erase n p d v.1)

-- Giving back the block that was allocated last leaves the blocks that were there before.
pub erase-alloc :
    (o : Owner) (xs : Bytes) (h : Heap)
    → IsValid h
    → erase h.next (alloc o xs h).1.blocks ≡ h.blocks
erase-alloc o xs h v = ground (arith, erase_absent h.next h.blocks (Below-absent h.next h.blocks v))
