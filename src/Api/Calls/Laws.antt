-- ===== src/Api/Calls/Laws.antt =====
-- What a call that Rust answers leaves behind: the value, and no block of either heap.
use go_cosmwasm.Base.{ℕ, ◌<◌, ◌^◌, ◌≡◌, none, some, [], ◌∷◌, length, ◌==◌, if◌then◌else◌, arith}
use go_cosmwasm.Go.{Go, ok, pure, ◌>>=◌, Bytes, Slice}
use go_cosmwasm.Ffi.Memory.{Heap, Buffer, null_buffer, from_vec, IsValid}
use go_cosmwasm.Types.Errors.{Error}
use go_cosmwasm.Api.World.{World, on_heap}
use go_cosmwasm.Api.Library.{Cache, Reply, Library, error_with_message}
use go_cosmwasm.Api.Contract.{sending}
use go_cosmwasm.Api.Contract.Sending.{
  sent, sent_buffer, sent-IsValid, Ends, sending-Ends, from_vec-next, from_vec-receive_vector,
}
use go_cosmwasm.Api.Calls.{Loaded, finish_bytes, create, get_code, get_encrypted_seed}

-- For a message that Rust handed over, `errorWithMessage` gives the error with its text and frees
-- the message; for errno 2 it gives the error for out of gas, and the message is not freed.
pub error_with_message_lem :
    (t : ℕ → Bytes) (errno : ℕ) (xs : Bytes) (h : Heap)
    → IsValid h
    → length xs < 2 ^ 31
    → (from_vec xs >>= error_with_message t errno) h ≡ (
        if errno == 2
        then (ok Error.out_of_gas_error, (from_vec xs h).1)
        else (ok (Error.other xs), record { next = (from_vec xs h).1.next; blocks = h.blocks }))
unfolding error_with_message from_vec
error_with_message_lem t errno [] h v s = ground (arith, from_vec-receive_vector [] h v s)
error_with_message_lem t errno (x ∷ xs) h v s =
    ground (arith, from_vec-receive_vector (x ∷ xs) h v s)

-- How Rust hands over a result.
abbrev pub handing : {H : Type 0} → Bytes → Go (World H) (Reply Buffer)
handing xs = do
  b ← on_heap (from_vec xs)
  pure (record { res = b; errno = 0; gas_used = 0; errmsg = null_buffer })

handing-finish_bytes :
    {H : Type 0} (t : ℕ → Bytes) (xs : Bytes) (w : World H)
    → IsValid w.heap
    → length xs < 2 ^ 31
    → (handing xs >>= finish_bytes t) w ≡ (
      ok (record { value = some xs; error = none }),
      record w { heap = record { next = (from_vec xs w.heap).1.next; blocks = w.heap.blocks } },
    )
unfolding from_vec finish_bytes
handing-finish_bytes t [] w v s = ground (arith, from_vec-receive_vector [] w.heap v s)
handing-finish_bytes t (x ∷ xs) w v s = ground (arith, from_vec-receive_vector (x ∷ xs) w.heap v s)

-- Rust answers a call with the bytes `xs`; the host's state and the tables may change.
abbrev pub Answers :
    {H : Type 0}
    → Slice
    → Bytes
    → (Buffer → Go (World H) (Reply Buffer))
    → World H
    → World H
    → Type 0
Answers x xs call w t =
    call (sent_buffer x w.heap) (record w { heap = sent x w.heap })
    ≡ handing xs (record t { heap = sent x w.heap })

-- What a call gives: its bytes, and a heap with the blocks it had.
abbrev pub Gives : {H : Type 0} → Bytes → Go (World H) (Loaded Slice) → World H → World H → Type 0
Gives xs m w t = Ends (record { value = some xs; error = none }) m w t

sending-Gives :
    {H : Type 0} (e : ℕ → Bytes) (x : Slice) (xs : Bytes)
    (call : Buffer → Go (World H) (Reply Buffer)) (w t : World H)
    → IsValid w.heap
    → length xs < 2 ^ 31
    → Answers x xs call w t
    → Gives xs (sending x λ b. call b >>= finish_bytes e) w t
sending-Gives e x xs call w t v s h = sending-Ends _ x _ w t v (record {
  next = (from_vec xs (sent x w.heap)).1.next;
  grows = from_vec-next xs (sent x w.heap);
  ends = ground (
    arith,
    h,
    handing-finish_bytes e xs (record t { heap = sent x w.heap }) (sent-IsValid x w.heap v) s,
  );
})

-- When Rust answers Create with bytes, Create returns them, and no block of either heap is left
-- behind: not the argument's, and not the result's.
pub create_clean :
    {H : Type 0} (lib : Library H) (cache : Cache) (x : Slice) (xs : Bytes) (w t : World H)
    → IsValid w.heap
    → length xs < 2 ^ 31
    → Answers x xs (lib.create cache.ptr) w t
    → Gives xs (create lib cache x) w t
unfolding create
create_clean lib cache x xs w t v s =
    sending-Gives lib.errno_text x xs (lib.create cache.ptr) w t v s

-- When Rust answers GetCode with fewer than 2^31 bytes, GetCode returns them, and no block of
-- either heap is left behind: not the argument's, and not the result's.
pub get_code_clean :
    {H : Type 0} (lib : Library H) (cache : Cache) (x : Slice) (xs : Bytes) (w t : World H)
    → IsValid w.heap
    → length xs < 2 ^ 31
    → Answers x xs (lib.get_code cache.ptr) w t
    → Gives xs (get_code lib cache x) w t
unfolding get_code
get_code_clean lib cache x xs w t v s =
    sending-Gives lib.errno_text x xs (lib.get_code cache.ptr) w t v s

-- When Rust answers GetEncryptedSeed with bytes, GetEncryptedSeed returns them, and no block of either heap is left
-- behind: not the argument's, and not the result's.
pub get_encrypted_seed_clean :
    {H : Type 0} (lib : Library H) (x : Slice) (xs : Bytes) (w t : World H)
    → IsValid w.heap
    → length xs < 2 ^ 31
    → Answers x xs lib.get_encrypted_seed w t
    → Gives xs (get_encrypted_seed lib x) w t
unfolding get_encrypted_seed
get_encrypted_seed_clean lib x xs w t v s =
    sending-Gives lib.errno_text x xs lib.get_encrypted_seed w t v s
