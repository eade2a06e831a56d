-- ===== src/Api/Callbacks/Scan.antt =====
-- cScan and cNext of api/callbacks.go, and `buildIterator`.
use go_cosmwasm.Base.{ℕ, true, Option, none, some, ◌==◌, ◌||◌, if◌then◌else◌, is_null}
use go_cosmwasm.Go.{Go, ok, pure, ◌>>=◌, ◌>>◌, Slice}
use go_cosmwasm.Ffi.Memory.{Heap, Ptr, Buffer}
use go_cosmwasm.Ffi.Status.{GoResult}
use go_cosmwasm.Api.Host.{GasMeter, KvStore, DbIterator}
use go_cosmwasm.Api.World.{Tables}
use go_cosmwasm.Api.Memory.{allocate_rust, receive_slice}
use go_cosmwasm.Api.Iterator.{store_iterator, retrieve_iterator}
use go_cosmwasm.Api.Callbacks.{
  Callback, DbState, IteratorRef, recover_panic, with_tables, with_heap, with_host, write_used_gas,
  write_key, write_val, write_iter, gas_between,
}

-- `buildIterator`
unfoldable pub build_iterator : ℕ → ℕ → Go Tables IteratorRef
build_iterator counter it = do
  idx ← store_iterator counter it
  pure (record { db_counter = counter; iterator_index = idx })

-- `if start.ptr != nil { s = receiveSlice(start) }`
unfoldable pub receive_bound : Buffer → Go Heap Slice
receive_bound b = elim b.ptr [
  | Ptr.null ↦ pure none
  | Ptr.dangling ↦ receive_slice b
  | Ptr.at p ↦ receive_slice b
]

module _ {H : Type 0} where
  -- The `switch` on the order: 1 is ascending, 2 descending, and `none` the default case.
  unfoldable pub open_iterator : KvStore H → ℕ → Slice → Slice → Option (Go H ℕ)
  open_iterator kv order s e =
      if order == 1
      then some (kv.iterator s e)
      else if order == 2
      then some (kv.reverse_iterator s e)
      else none

  -- What follows the switch, once an iterator is at hand.
  unfoldable pub finish_scan :
      DbState H → GasMeter H → ℕ → Option (Go H ℕ) → Go (Callback H) GoResult
  unfolding build_iterator
  finish_scan db gm before none c = (ok GoResult.bad_argument, c)
  finish_scan db gm before (some opened) c =
      (do
        it ← with_host opened
        after ← with_host gm.gas_consumed
        write_used_gas (gas_between before after)
        ref ← with_tables (build_iterator db.iterator_stack_id it)
        write_iter (record { state = ref; vtable = true })
        pure GoResult.ok)
        c

  unfoldable pub scan_body :
      Option (DbState H) → Option (GasMeter H) → Buffer → Buffer → ℕ → Go (Callback H) GoResult
  unfolding receive_bound open_iterator finish_scan
  scan_body (some db) (some gm) start end order c =
      if is_null c.slots.used_gas || is_null c.slots.iter
      then (ok GoResult.bad_argument, c)
      else (do
        s ← with_heap (receive_bound start)
        e ← with_heap (receive_bound end)
        before ← with_host gm.gas_consumed
        finish_scan db gm before (open_iterator db.store order s e))
          c
  scan_body _ _ start end order c = (ok GoResult.bad_argument, c)

  -- `cScan`
  unfoldable pub c_scan :
      Option (DbState H) → Option (GasMeter H) → Buffer → Buffer → ℕ → Go (Callback H) GoResult
  unfolding scan_body recover_panic
  c_scan ptr gm start end order = recover_panic (scan_body ptr gm start end order)

  -- `if k != nil { *key = allocateRust(k); *val = allocateRust(v) }`
  unfoldable pub write_entry : Slice → Slice → Go (Callback H) (Unit {0})
  write_entry none v c = (ok tt, c)
  write_entry (some k) v c =
      (do
        write_key (← with_heap (allocate_rust (some k)))
        write_val (← with_heap (allocate_rust v)))
        c

  -- What `cNext` does with an iterator that is not at its end.
  unfoldable pub advance : DbIterator H → GasMeter H → ℕ → Go (Callback H) GoResult
  unfolding write_entry
  advance d gm it = do
    before ← with_host gm.gas_consumed
    k ← with_host (d.key it)
    v ← with_host (d.value it)
    with_host (d.next it)
    after ← with_host gm.gas_consumed
    write_used_gas (gas_between before after)
    write_entry k v
    pure GoResult.ok

  unfoldable pub next_body :
      DbIterator H → IteratorRef → Option (GasMeter H) → Go (Callback H) GoResult
  unfolding advance
  next_body d ref none c = (ok GoResult.bad_argument, c)
  next_body d ref (some gm) c =
      if ref.db_counter == 0
        || is_null c.slots.used_gas
        || is_null c.slots.key
        || is_null c.slots.val
      then (ok GoResult.bad_argument, c)
      else (do
        it ← with_tables (retrieve_iterator ref.db_counter ref.iterator_index)
        more ← with_host (d.valid it)
        if more then advance d gm it else pure GoResult.ok)
          c

  -- `cNext`
  unfoldable pub c_next :
      DbIterator H → IteratorRef → Option (GasMeter H) → Go (Callback H) GoResult
  unfolding next_body recover_panic
  c_next d ref gm = recover_panic (next_body d ref gm)
