-- ===== src/Ffi/Range.antt =====
-- `range` of src/db.rs: the virtual machine opens an iterator of the store.
pub mod Bounds
pub mod Opens
pub mod Iterates
use go_cosmwasm.Base.{ℕ, Bool, false, Option, none, some}
use go_cosmwasm.Go.{Go, pure, ◌>>=◌, ◌>>◌, Bytes, Slice}
use go_cosmwasm.Ffi.Memory.{Heap, Buffer, null_buffer, from_vec, consume}
use go_cosmwasm.Ffi.Status.{GoResult, FfiResult, done, failed, into_ffi_result}
use go_cosmwasm.Ffi.Storage.{buffer_in, gas_in, call_back}
use go_cosmwasm.Api.World.{World, on_heap}
use go_cosmwasm.Api.Host.{GasMeter}
use go_cosmwasm.Api.Callbacks.{DbState, GoIter, Slots}
use go_cosmwasm.Api.Gateways.{db_vtable}

-- `cosmwasm_std::Order`, whose numbers are what `cScan` takes.
pub data Order : Type 0 where
  ascending descending : Order

abbrev pub order_number : Order → ℕ
order_number Order.ascending = 1
order_number Order.descending = 2

-- A null buffer stands for no bound.
unfoldable pub bound : Option Bytes → Go Heap Buffer
unfolding from_vec
bound none h = pure null_buffer h
bound (some xs) h = from_vec xs h

-- `GoIter::new`, without the gas meter.
abbrev pub new_iter : GoIter
new_iter = record { state = record { db_counter = 0; iterator_index = 0 }; vtable = false }

-- The variables of the call: `used_gas`, `iter` and `err`.
abbrev pub range_slots : Slots
range_slots = record {
  used_gas = some 0;
  key = none;
  val = none;
  err_out = some null_buffer;
  iter = some new_iter;
}

abbrev pub iter_in : Option GoIter → GoIter
iter_in none = new_iter
iter_in (some it) = it

abbrev pub with_iter : FfiResult (Unit {0}) → GoIter → FfiResult GoIter
with_iter (failed e) it = failed e
with_iter (done u) it = done it

module _ {H : Type 0} where
  -- What follows the call.
  unfoldable pub finish_range :
      Buffer → Buffer → GoResult × Slots → Go (World H) (FfiResult GoIter × ℕ)
  unfolding into_ffi_result
  finish_range start_buf end_buf (status, out) = do
    on_heap (consume start_buf)
    on_heap (consume end_buf)
    checked ← on_heap (into_ffi_result status (buffer_in out.err_out))
    pure (with_iter checked (iter_in out.iter), gas_in out.used_gas)

  -- `Storage::range`
  unfoldable pub range :
      DbState H
      → GasMeter H
      → Option Bytes
      → Option Bytes
      → Order
      → Go (World H) (FfiResult GoIter × ℕ)
  unfolding bound finish_range
  range db gm start end order = do
    start_buf ← on_heap (bound start)
    end_buf ← on_heap (bound end)
    reply ←
        call_back range_slots
          (db_vtable.scan_db (some db) (some gm) start_buf end_buf (order_number order))
    finish_range start_buf end_buf reply
