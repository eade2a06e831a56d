-- ===== src/Ffi/Scan/Entries.antt =====
-- What a step of an iterator gives the virtual machine, and what it leaves in the heap.
use go_cosmwasm.Base.{
  ℕ, Bool, true, false, Option, none, some, ◌==◌, ◌≡◌, refl, ap, ◌∙◌, [], ◌∷◌, length, take-length,
  arith,
}
use go_cosmwasm.Go.{Go, Outcome, ok, panic, fault, pure, bounds_error, ◌>>=◌, ◌>>◌, Bytes, Slice}
use go_cosmwasm.Ffi.Memory.{Heap, Buffer, Ptr, null_buffer, read}
use go_cosmwasm.Ffi.Status.{GoResult, FfiResult, done, failed, into_ffi_result}
use go_cosmwasm.Ffi.Storage.{call_back}
use go_cosmwasm.Ffi.Storage.Refines.{metered, panic_error}
use go_cosmwasm.Ffi.Scan.{next_slots, with_value, read_entry, after_check, finish_next, next}
use go_cosmwasm.Api.World.{World}
use go_cosmwasm.Api.Host.{GasMeter, DbIterator}
use go_cosmwasm.Api.Memory.{allocate_rust}
use go_cosmwasm.Api.Iterator.{retrieve_iterator}
use go_cosmwasm.Api.Callbacks.{IteratorRef, Slots, panic_status}
use go_cosmwasm.Api.Callbacks.Scan.{c_next, write_entry}

-- The application's own step, by whether the iterator is valid: the entry that the iterator stands on, with the gas of reading it and
-- of moving on; past the end there is none, and it costs nothing.
abbrev pub step_if :
    {H : Type 0} → DbIterator H → GasMeter H → ℕ → Bool → Go H ((Slice × Slice) × ℕ)
step_if d gm it false = pure ((none, none), 0)
step_if d gm it true = metered gm (do k ← d.key it; v ← d.value it; d.next it; pure (k, v))

abbrev pub step_of : {H : Type 0} → DbIterator H → GasMeter H → ℕ → Go H ((Slice × Slice) × ℕ)
step_of d gm it = d.valid it >>= step_if d gm it

-- The heap with both parts of an entry in it.
abbrev pub with_entry : Bytes → Slice → Heap → Heap
with_entry k v h = (allocate_rust v (allocate_rust (some k) h).1).1

-- What the virtual machine gets of the application's step.
abbrev pub stepped :
    {H : Type 0}
    → World H
    → Outcome ((Slice × Slice) × ℕ) × H
    → Outcome (FfiResult (Option (Bytes × Bytes)) × ℕ) × World H
stepped w (ok ((none, v), g), s) = (ok (done none, g), record w { host = s })
stepped w (ok ((some k, v), g), s) =
    (ok (with_value k v, g), record w { host = s; heap = with_entry k v w.heap })
stepped w (panic p, s) = (ok (failed (panic_error (panic_status p)), 0), record w { host = s })
stepped w (fault, s) = (fault, record w { host = s })

-- The buffer that `allocateRust` makes.
abbrev given : Slice → Heap → Buffer
given none h = null_buffer
given (some []) h = record { ptr = Ptr.dangling; len = 0; cap = 0 }
given (some (x ∷ xs)) h = record {
  ptr = Ptr.at h.next;
  len = length (x ∷ xs);
  cap = length (x ∷ xs);
}

allocate_rust-given :
    (x : Slice) (h : Heap) → allocate_rust x h ≡ (ok (given x h), (allocate_rust x h).1)
unfolding allocate_rust
allocate_rust-given none h = refl
allocate_rust-given (some []) h = refl
allocate_rust-given (some (x ∷ xs)) h = ground (arith, take-length xs)

-- The caller's variables and the world once an entry is written, or none for a nil key.
abbrev after_entry : {H : Type 0} → ℕ → Slice → Slice → World H → (GoResult × Slots) × World H
after_entry g none v w = ((GoResult.ok, record next_slots { used_gas = some g }), w)
after_entry g (some k) v w = (
  (
    GoResult.ok,
    record next_slots {
      used_gas = some g;
      key = some (given (some k) w.heap);
      val = some (given v (allocate_rust (some k) w.heap).1);
    },
  ),
  record w { heap = with_entry k v w.heap },
)

write_entry_lem :
    {H : Type 0} (g : ℕ) (k v : Slice) (w : World H)
    → write_entry k v (record { slots = record next_slots { used_gas = some g }; world = w })
      ≡ (ok tt, record { slots = (after_entry g k v w).0.1; world = (after_entry g k v w).1 })
unfolding write_entry
write_entry_lem g none v w = refl
write_entry_lem g (some k) v w = ground (
  arith,
  allocate_rust-given (some k) w.heap,
  allocate_rust-given v (allocate_rust (some k) w.heap).1,
)

-- What `cNext` leaves in the variables of its caller.
abbrev reply :
    {H : Type 0}
    → World H
    → Outcome ((Slice × Slice) × ℕ) × H
    → Outcome (GoResult × Slots) × World H
reply w (ok ((k, v), g), s) = (
  ok (after_entry g k v (record w { host = s })).0,
  (after_entry g k v (record w { host = s })).1,
)
reply w (panic p, s) = (ok (panic_status p, next_slots), record w { host = s })
reply w (fault, s) = (fault, record w { host = s })

c_next-reply :
    {H : Type 0} (d : DbIterator H) (gm : GasMeter H) (ref : IteratorRef) (it : ℕ) (w : World H)
    → (ref.db_counter == 0) ≡ false
    → retrieve_iterator ref.db_counter ref.iterator_index w.tables ≡ (ok it, w.tables)
    → call_back next_slots (c_next d ref (some gm)) w ≡ reply w (step_of d gm it w.host)
unfolding c_next call_back
c_next-reply d gm ref it w z e = grind (arith, z, e, write_entry_lem)

c_next-panic :
    {H : Type 0} (d : DbIterator H) (gm : GasMeter H) (ref : IteratorRef) (w : World H)
    → (ref.db_counter == 0) ≡ false
    → retrieve_iterator ref.db_counter ref.iterator_index w.tables ≡ (panic bounds_error, w.tables)
    → call_back next_slots (c_next d ref (some gm)) w ≡ reply w (panic bounds_error, w.host)
unfolding c_next call_back
c_next-panic d gm ref w z e = ground (arith, z, e)

read_entry-given :
    (k : Bytes) (v : Slice) (h : Heap)
    → read_entry (given (some k) h) (given v (allocate_rust (some k) h).1) (with_entry k v h)
      ≡ (ok (with_value k v), with_entry k v h)
unfolding allocate_rust read_entry read
read_entry-given [] none h = refl
read_entry-given [] (some []) h = refl
read_entry-given [] (some (y ∷ ys)) h = ground (arith, take-length ys)
read_entry-given (x ∷ xs) none h = ground (arith, take-length xs)
read_entry-given (x ∷ xs) (some []) h = ground (arith, take-length xs)
read_entry-given (x ∷ xs) (some (y ∷ ys)) h = ground (arith, take-length xs, take-length ys)

finish_next-reply :
    {H : Type 0} (w : World H) (o : Outcome ((Slice × Slice) × ℕ) × H)
    → ((λ u. reply w o) >>= finish_next) w ≡ stepped w o
unfolding finish_next after_check into_ffi_result read_entry read panic_status
finish_next-reply w (ok ((none, v), g), s) = refl
finish_next-reply w (ok ((some k, v), g), s) = ground (arith, read_entry-given k v w.heap)
finish_next-reply w (panic p, s) = ground arith
finish_next-reply w (fault, s) = refl

-- A step of an iterator that the call's frame holds gives the virtual machine the application's own
-- step: the entry with its gas, the end, or a panic as an error. A key without a value is an error.
-- The two buffers of an entry stay allocated.
pub next-stepped :
    {H : Type 0} (d : DbIterator H) (gm : GasMeter H) (ref : IteratorRef) (it : ℕ) (w : World H)
    → (ref.db_counter == 0) ≡ false
    → retrieve_iterator ref.db_counter ref.iterator_index w.tables ≡ (ok it, w.tables)
    → next d (record { state = ref; vtable = true }) gm w ≡ stepped w (step_of d gm it w.host)
unfolding next
next-stepped d gm ref it w z e =
    ap (λ o. ((λ u. o) >>= finish_next) w) (c_next-reply d gm ref it w z e)
    ∙ finish_next-reply w (step_of d gm it w.host)

-- The same where the frame has no such iterator: the panic of the index shows as an error.
pub next-out_of_range :
    {H : Type 0} (d : DbIterator H) (gm : GasMeter H) (ref : IteratorRef) (w : World H)
    → (ref.db_counter == 0) ≡ false
    → retrieve_iterator ref.db_counter ref.iterator_index w.tables ≡ (panic bounds_error, w.tables)
    → next d (record { state = ref; vtable = true }) gm w ≡ stepped w (panic bounds_error, w.host)
unfolding next
next-out_of_range d gm ref w z e =
    ap (λ o. ((λ u. o) >>= finish_next) w) (c_next-panic d gm ref w z e)
    ∙ finish_next-reply w (panic bounds_error, w.host)
