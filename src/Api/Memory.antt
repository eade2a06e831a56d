-- ===== src/Api/Memory.antt =====
-- api/memory.go: byte slices that cross the boundary between Go and Rust.
pub mod Laws
use go_cosmwasm.Base.{
  ℕ, ◌^◌, ◌%◌, Bool, true, false, none, some, List, [], ◌∷◌, length, ◌==◌, leb, if◌then◌else◌,
  u32_mod,
}
use go_cosmwasm.Go.{Go, ok, pure, throw, fault, ◌>>=◌, ◌>>◌, error_string, Bytes, Slice}
use go_cosmwasm.Ffi.Memory.{
  Heap, Ptr, null, dangling, at, Buffer, null_buffer, alloc, malloced, free_block, raw_parts,
  free_rust,
}
use go_cosmwasm.Ffi.Memory.{allocate_rust as c_allocate_rust}

-- `allocateRust`
unfoldable pub allocate_rust : Slice → Go Heap Buffer
unfolding c_allocate_rust
allocate_rust none h = (ok null_buffer, h)
allocate_rust (some []) h = c_allocate_rust [] 0 h
allocate_rust (some (x ∷ xs)) h = c_allocate_rust (x ∷ xs) (length (x ∷ xs)) h

-- `sendSlice`: `C.CBytes` copies into malloc's heap, and is not null for an empty slice either.
unfoldable pub send_slice : Slice → Go Heap Buffer
send_slice none h = (ok null_buffer, h)
send_slice (some xs) h =
    let (p, h') = alloc malloced xs h in
    (ok (record { ptr = at p; len = length xs; cap = length xs }), h')

-- `bufIsNil`
unfoldable pub buf_is_nil : Buffer → Bool
buf_is_nil b = elim b.ptr [ null ↦ true | dangling ↦ false | at p ↦ false ]

-- `C.GoBytes(ptr, cint(len))`: the length is cut to a C int, and a negative one panics.
unfoldable pub go_bytes : Ptr → ℕ → Go Heap Bytes
go_bytes ptr len =
    let n : ℕ = len % u32_mod in
    if n == 0 then pure [] else if leb (2 ^ 31) n then throw error_string else raw_parts ptr n

-- `receiveVector`
unfoldable pub receive_vector : Buffer → Go Heap Slice
unfolding buf_is_nil go_bytes free_rust
receive_vector b =
    if buf_is_nil b then pure none else do res ← go_bytes b.ptr b.len; free_rust b; pure (some res)

-- `receiveSlice`
unfoldable pub receive_slice : Buffer → Go Heap Slice
unfolding buf_is_nil go_bytes
receive_slice b = if buf_is_nil b then pure none else do res ← go_bytes b.ptr b.len; pure (some res)

-- `C.free`
unfoldable pub c_free : Ptr → Go Heap (Unit {0})
c_free null h = (ok tt, h)
c_free dangling h = (fault, h)
c_free (at p) h = free_block malloced p h

-- `freeAfterSend`
unfoldable pub free_after_send : Buffer → Go Heap (Unit {0})
unfolding buf_is_nil c_free
free_after_send b = if buf_is_nil b then pure tt else c_free b.ptr
