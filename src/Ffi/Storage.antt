-- ===== src/Ffi/Storage.antt =====
-- src/db.rs: the virtual machine's view of the store, through the callbacks.
pub mod Exchange
pub mod Refines
use go_cosmwasm.Base.{ℕ, zero, none, some, Option}
use go_cosmwasm.Go.{Go, ok, panic, fault, pure, ◌>>=◌, ◌>>◌, Bytes, Slice}
use go_cosmwasm.Ffi.Memory.{Heap, Ptr, Buffer, null_buffer, from_vec, consume}
use go_cosmwasm.Ffi.Status.{GoResult, FfiResult, done, failed, into_ffi_result}
use go_cosmwasm.Api.World.{World, on_heap}
use go_cosmwasm.Api.Host.{GasMeter}
use go_cosmwasm.Api.Callbacks.{Callback, DbState, Slots}
use go_cosmwasm.Api.Gateways.{db_vtable}

-- What Rust reads in a variable whose address it passed.
abbrev pub buffer_in : Option Buffer → Buffer
buffer_in none = null_buffer
buffer_in (some b) = b

abbrev pub gas_in : Option ℕ → ℕ
gas_in none = 0
gas_in (some g) = g

-- The variables of a call: `used_gas`, `result_buf` and `err`.
abbrev pub fresh_slots : Slots
fresh_slots = record {
  used_gas = some 0;
  key = none;
  val = some null_buffer;
  err_out = some null_buffer;
  iter = none;
}

-- `if result_buf.ptr.is_null() { None } else { Some(result_buf.consume()) }`
unfoldable pub value_of : Buffer → Go Heap Slice
value_of b = elim b.ptr [
  | Ptr.null ↦ pure none
  | Ptr.dangling ↦ consume b >>= λ xs. pure (some xs)
  | Ptr.at p ↦ consume b >>= λ xs. pure (some xs)
]

-- The answer of a call that has no value.
unfoldable pub answer : {A : Type 0} → FfiResult (Unit {0}) → Go Heap A → Go Heap (FfiResult A)
answer (failed e) value h = (ok (failed e), h)
answer (done _) value h = (value >>= λ a. pure (done a)) h

module _ {H : Type 0} where
  -- A call through the vtable.
  unfoldable pub call_back : Slots → Go (Callback H) GoResult → Go (World H) (GoResult × Slots)
  call_back slots cb w =
      let (r, c) = cb (record { slots = slots; world = w }) in
      elim r [
        | ok status ↦ (ok (status, c.slots), c.world)
        | panic p ↦ (panic p, c.world)
        | fault ↦ (fault, c.world)
      ]

  -- `Storage::get`
  unfoldable pub get : DbState H → GasMeter H → Bytes → Go (World H) (FfiResult Slice × ℕ)
  unfolding into_ffi_result answer
  get db gm key = do
    key_buf ← on_heap (from_vec key)
    (status, out) ← call_back fresh_slots (db_vtable.read_db (some db) (some gm) key_buf)
    on_heap (consume key_buf)
    checked ← on_heap (into_ffi_result status (buffer_in out.err_out))
    value ← on_heap (answer checked (value_of (buffer_in out.val)))
    pure (value, gas_in out.used_gas)

  -- `Storage::set`
  unfoldable pub set :
      DbState H → GasMeter H → Bytes → Bytes → Go (World H) (FfiResult (Unit {0}) × ℕ)
  unfolding into_ffi_result
  set db gm key value = do
    key_buf ← on_heap (from_vec key)
    value_buf ← on_heap (from_vec value)
    (status, out) ← call_back fresh_slots (db_vtable.write_db (some db) (some gm) key_buf value_buf)
    on_heap (consume key_buf)
    on_heap (consume value_buf)
    checked ← on_heap (into_ffi_result status (buffer_in out.err_out))
    pure (checked, gas_in out.used_gas)

  -- `Storage::remove`
  unfoldable pub remove : DbState H → GasMeter H → Bytes → Go (World H) (FfiResult (Unit {0}) × ℕ)
  unfolding into_ffi_result
  remove db gm key = do
    key_buf ← on_heap (from_vec key)
    (status, out) ← call_back fresh_slots (db_vtable.remove_db (some db) (some gm) key_buf)
    on_heap (consume key_buf)
    checked ← on_heap (into_ffi_result status (buffer_in out.err_out))
    pure (checked, gas_in out.used_gas)
