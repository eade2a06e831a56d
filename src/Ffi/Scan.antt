-- ===== src/Ffi/Scan.antt =====
-- src/iterator.rs: the virtual machine's view of an iterator of the store.
pub mod Entries
use go_cosmwasm.Base.{
  ℕ, Bool, true, false, Option, none, some, ◌==◌, ◌≡◌, refl, if◌then◌else◌, [], ◌∷◌, take-length,
  arith,
}
use go_cosmwasm.Base.Text.{text}
use go_cosmwasm.Go.{Go, Outcome, ok, panic, fault, pure, ◌>>=◌, ◌>>◌, Bytes, Slice}
use go_cosmwasm.Ffi.Memory.{Heap, Buffer, null_buffer, read}
use go_cosmwasm.Ffi.Status.{GoResult, FfiError, FfiResult, done, failed, into_ffi_result}
use go_cosmwasm.Ffi.Storage.{buffer_in, gas_in, call_back}
use go_cosmwasm.Api.World.{World, on_heap}
use go_cosmwasm.Api.Host.{GasMeter, DbIterator}
use go_cosmwasm.Api.Memory.{allocate_rust}
use go_cosmwasm.Api.Iterator.{retrieve_iterator}
use go_cosmwasm.Api.Callbacks.{GoIter, IteratorRef, Slots, panic_status, gas_between}
use go_cosmwasm.Api.Gateways.{iterator_vtable}

-- The variables of the call: `used_gas`, `key_buf`, `value_buf` and `err`.
abbrev pub next_slots : Slots
next_slots = record {
  used_gas = some 0;
  key = some null_buffer;
  val = some null_buffer;
  err_out = some null_buffer;
  iter = none;
}

-- The match on the value that was read behind a key.
unfoldable pub with_value : Bytes → Option Bytes → FfiResult (Option (Bytes × Bytes))
with_value k none =
    failed
      (FfiError.unknown (some (text "Failed to read value while reading the next key in the db")))
with_value k (some v) = done (some (k, v))

-- The match on the key: a null buffer ends the iteration. The buffers are read, and not consumed.
unfoldable pub read_entry : Buffer → Buffer → Go Heap (FfiResult (Option (Bytes × Bytes)))
unfolding with_value
read_entry key_buf value_buf = do
  okey ← read key_buf
  elim okey [ none ↦ pure (done none) | some k ↦ read value_buf >>= λ v. pure (with_value k v) ]

-- The early return of an error.
unfoldable pub after_check :
    FfiResult (Unit {0})
    → Go Heap (FfiResult (Option (Bytes × Bytes)))
    → Go Heap (FfiResult (Option (Bytes × Bytes)))
after_check (failed e) rest h = (ok (failed e), h)
after_check (done u) rest h = rest h

module _ {H : Type 0} where
  -- What follows the call: the check of its status, and the entry.
  unfoldable pub finish_next :
      GoResult × Slots → Go (World H) (FfiResult (Option (Bytes × Bytes)) × ℕ)
  unfolding read_entry after_check into_ffi_result
  finish_next (status, out) = do
    checked ← on_heap (into_ffi_result status (buffer_in out.err_out))
    result ← on_heap (after_check checked (read_entry (buffer_in out.key) (buffer_in out.val)))
    pure (result, gas_in out.used_gas)

  -- `GoIter::next`, with the gas meter of the iterator.
  unfoldable pub next :
      DbIterator H → GoIter → GasMeter H → Go (World H) (FfiResult (Option (Bytes × Bytes)) × ℕ)
  unfolding finish_next
  next d it gm =
      if it.vtable
      then call_back next_slots (iterator_vtable.next_db d it.state (some gm)) >>= finish_next
      else pure (failed (FfiError.unknown (some (text "iterator vtable not set"))), 0)
