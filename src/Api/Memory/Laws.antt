-- ===== src/Api/Memory/Laws.antt =====
-- What api/memory.go promises of a slice that crosses the boundary.
use go_cosmwasm.Base.{ℕ, ◌<◌, ◌^◌, ◌≡◌, refl, none, some, [], ◌∷◌, length, take-length, arith}
use go_cosmwasm.Go.{ok, ◌>>=◌, Slice}
use go_cosmwasm.Ffi.Memory.{Heap, IsValid, erase-alloc, read, consume, rust, malloced}
use go_cosmwasm.Ffi.Storage.{value_of}
use go_cosmwasm.Api.Memory.{
  allocate_rust, send_slice, receive_slice, receive_vector, free_after_send,
}

abbrev pub len : Slice → ℕ
len none = 0
len (some xs) = length xs

-- A slice of fewer than 2^31 bytes that `allocateRust` copied is what `receiveSlice` reads back, nil
-- told apart from empty, and the heap is left as it is.
pub allocate_rust-receive_slice :
    (data' : Slice) (h : Heap)
    → len data' < 2 ^ 31
    → (allocate_rust data' >>= receive_slice) h ≡ (ok data', (allocate_rust data' h).1)
unfolding allocate_rust receive_slice
allocate_rust-receive_slice none h s = refl
allocate_rust-receive_slice (some []) h s = refl
allocate_rust-receive_slice (some (x ∷ xs)) h s = ground (arith, take-length xs)

-- What `allocateRust` made of a slice of fewer than 2^31 bytes, `receiveVector` gives back, nil told
-- apart from empty, and its block is freed.
pub allocate_rust-receive_vector :
    (data' : Slice) (h : Heap)
    → IsValid h
    → len data' < 2 ^ 31
    → (allocate_rust data' >>= receive_vector) h
      ≡ (ok data', record { next = (allocate_rust data' h).1.next; blocks = h.blocks })
unfolding allocate_rust receive_vector
allocate_rust-receive_vector none h v s = refl
allocate_rust-receive_vector (some []) h v s = refl
allocate_rust-receive_vector (some (x ∷ xs)) h v s =
    ground (arith, take-length xs, erase-alloc (rust) (x ∷ xs) h v)

-- What `allocateRust` made of a slice, Rust takes as the same slice, nil told apart from empty, and its
-- block is freed: the blocks of a valid heap are as they were.
pub allocate_rust-consume :
    (data' : Slice) (h : Heap)
    → IsValid h
    → (allocate_rust data' >>= value_of) h
      ≡ (ok data', record { next = (allocate_rust data' h).1.next; blocks = h.blocks })
unfolding allocate_rust value_of consume
allocate_rust-consume none h v = refl
allocate_rust-consume (some []) h v = refl
allocate_rust-consume (some (x ∷ xs)) h v =
    ground (arith, take-length xs, erase-alloc rust (x ∷ xs) h v)

-- What `sendSlice` lends to Rust is read there as the same slice, and stays allocated.
pub send_slice-read :
    (data' : Slice) (h : Heap) → (send_slice data' >>= read) h ≡ (ok data', (send_slice data' h).1)
unfolding send_slice read
send_slice-read none h = refl
send_slice-read (some []) h = refl
send_slice-read (some (x ∷ xs)) h = ground (arith, take-length xs)

-- `freeAfterSend` frees exactly the block that `sendSlice` made.
pub send_slice-free_after_send :
    (data' : Slice) (h : Heap)
    → IsValid h
    → (send_slice data' >>= free_after_send) h
      ≡ (ok tt, record { next = (send_slice data' h).1.next; blocks = h.blocks })
unfolding send_slice free_after_send
send_slice-free_after_send none h v = refl
send_slice-free_after_send (some xs) h v = ground (arith, erase-alloc malloced xs h v)
