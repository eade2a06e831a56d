-- ===== src/Ffi/Range/Opens.antt =====
-- What opening an iterator gives the virtual machine, and what it leaves behind.
use go_cosmwasm.Base.{
  ℕ, ◌+◌, ◌<◌, ◌^◌, ◌≡◌, refl, ap, ◌∙◌, true, Option, some, [], ◌∷◌, length, length-append, arith,
}
use go_cosmwasm.Base.Dict.{lookup}
use go_cosmwasm.Go.{Go, Outcome, ok, panic, fault, ◌>>=◌, Bytes, Slice}
use go_cosmwasm.Ffi.Memory.{Buffer, IsValid}
use go_cosmwasm.Ffi.Status.{GoResult, FfiResult, done, failed, into_ffi_result}
use go_cosmwasm.Ffi.Storage.{call_back}
use go_cosmwasm.Ffi.Storage.Refines.{metered, panic_error}
use go_cosmwasm.Ffi.Range.{Order, order_number, bound, range_slots, finish_range, range}
use go_cosmwasm.Api.World.{Tables, World, on_heap}
use go_cosmwasm.Api.Host.{GasMeter, KvStore}
use go_cosmwasm.Api.Iterator.{store_iterator, frame_of}
use go_cosmwasm.Api.Callbacks.{DbState, GoIter, Slots, panic_status}
use go_cosmwasm.Api.Callbacks.Scan.{c_scan, receive_bound}
use go_cosmwasm.Ffi.Range.Bounds.{bound_buffer, bounded, short, bound-buffer, Bounds, bounds}

-- The application's own opening of an iterator.
abbrev pub opening : {H : Type 0} → KvStore H → Order → Slice → Slice → Go H ℕ
opening kv Order.ascending s e = kv.iterator s e
opening kv Order.descending s e = kv.reverse_iterator s e

-- The handle of an iterator that is stored last in the frame of the call.
abbrev pub handle_of : {H : Type 0} → DbState H → World H → GoIter
handle_of db w = record {
  state = record {
    db_counter = db.iterator_stack_id;
    iterator_index = length (frame_of (lookup db.iterator_stack_id w.tables.iterator_stack)) + 1;
  };
  vtable = true;
}

abbrev pub stored : {H : Type 0} → DbState H → ℕ → World H → World H
stored db it w = record w { tables = (store_iterator db.iterator_stack_id it w.tables).1 }

-- The world without the blocks of the two bounds.
abbrev pub unbounded : {H : Type 0} → Option Bytes → Option Bytes → World H → World H
unbounded x y w = record w {
  heap = record { next = (bounded y (bounded x w.heap)).next; blocks = w.heap.blocks };
}

-- What the virtual machine gets of the application's opening.
abbrev pub ranged :
    {H : Type 0}
    → DbState H
    → Option Bytes
    → Option Bytes
    → World H
    → Outcome (ℕ × ℕ) × H
    → Outcome (FfiResult GoIter × ℕ) × World H
ranged db x y w (ok (it, g), s) =
    (ok (done (handle_of db w), g), stored db it (unbounded x y (record w { host = s })))
ranged db x y w (panic p, s) =
    (ok (failed (panic_error (panic_status p)), 0), unbounded x y (record w { host = s }))
ranged db x y w (fault, s) = (fault, record w { host = s; heap = bounded y (bounded x w.heap) })

-- What `cScan` leaves in the variables of its caller.
abbrev reply :
    {H : Type 0} → DbState H → World H → Outcome (ℕ × ℕ) × H → Outcome (GoResult × Slots) × World H
reply db w (ok (it, g), s) = (
  ok (GoResult.ok, record range_slots { used_gas = some g; iter = some (handle_of db w) }),
  stored db it (record w { host = s }),
)
reply db w (panic p, s) = (ok (panic_status p, range_slots), record w { host = s })
reply db w (fault, s) = (fault, record w { host = s })

pub store_iterator_index :
    (c it : ℕ) (t : Tables)
    → store_iterator c it t
      ≡ (ok (length (frame_of (lookup c t.iterator_stack)) + 1), (store_iterator c it t).1)
unfolding store_iterator
store_iterator_index c it t =
    ground (arith, length-append (frame_of (lookup c t.iterator_stack)) (it ∷ []))

c_scan-reply :
    {H : Type 0} (db : DbState H) (gm : GasMeter H) (b c : Buffer) (x y : Slice) (o : Order)
    (w : World H)
    → receive_bound b w.heap ≡ (ok x, w.heap)
    → receive_bound c w.heap ≡ (ok y, w.heap)
    → call_back range_slots (c_scan (some db) (some gm) b c (order_number o)) w
      ≡ reply db w (metered gm (opening db.store o x y) w.host)
unfolding c_scan call_back
c_scan-reply db gm b c x y Order.ascending w e f = grind (arith, e, f, store_iterator_index)
c_scan-reply db gm b c x y Order.descending w e f = grind (arith, e, f, store_iterator_index)

after_ok :
    {S A B : Type 0} (m : Go S A) (f : A → Go S B) (s t : S) (a : A)
    → m s ≡ (ok a, t)
    → (m >>= f) s ≡ f a t
after_ok m f s t a e = ap (λ o. ((λ u. o) >>= f) s) e

on_heap-bound :
    {H : Type 0} (x : Option Bytes) (w : World H)
    → on_heap (bound x) w ≡ (ok (bound_buffer x w.heap), record w { heap = bounded x w.heap })
on_heap-bound x w = ap (λ r. (r.0, record w { heap = r.1 })) (bound-buffer x w.heap)

finish_range-reply :
    {H : Type 0} (db : DbState H) (x y : Option Bytes) (w : World H) (o : Outcome (ℕ × ℕ) × H)
    → Bounds x y w.heap
    → let lent : World H = record w { heap = bounded y (bounded x w.heap) } in
      ((λ u. reply db lent o)
          >>= finish_range (bound_buffer x w.heap) (bound_buffer y (bounded x w.heap)))
        lent
      ≡ ranged db x y w o
unfolding finish_range into_ffi_result panic_status
finish_range-reply db x y w (ok (it, g), s) b = ground (arith, b.frees)
finish_range-reply db x y w (panic p, s) b = ground (arith, b.frees)
finish_range-reply db x y w (fault, s) b = refl

-- Over the boundary, `Storage::range` is the store's iterator in the order asked for, with its gas:
-- the virtual machine gets the handle under which the call's frame holds the iterator, or a panic
-- as an error, and no block is left allocated, for bounds of fewer than 2^31 bytes.
pub range-ranged :
    {H : Type 0} (db : DbState H) (gm : GasMeter H) (x y : Option Bytes) (o : Order) (w : World H)
    → IsValid w.heap
    → short x < 2 ^ 31
    → short y < 2 ^ 31
    → range db gm x y o w ≡ ranged db x y w (metered gm (opening db.store o x y) w.host)
unfolding range
range-ranged {H} db gm x y o w v s t =
    let scan : Buffer → Buffer → Go (World H) (FfiResult GoIter × ℕ) = λ b c.
      call_back range_slots (c_scan (some db) (some gm) b c (order_number o))
      >>= finish_range b c in
    let b = bounds x y w.heap v s t in
    let one : World H = record w { heap = bounded x w.heap } in
    let two : World H = record w { heap = bounded y (bounded x w.heap) } in
    after_ok (on_heap (bound x)) (λ b. on_heap (bound y) >>= scan b) w one (bound_buffer x w.heap)
      (on_heap-bound x w)
    ∙ after_ok (on_heap (bound y)) (scan (bound_buffer x w.heap)) one two
        (bound_buffer y (bounded x w.heap)) (on_heap-bound y one)
    ∙ ap
        (λ r.
          ((λ u. r) >>= finish_range (bound_buffer x w.heap) (bound_buffer y (bounded x w.heap)))
            two)
        (c_scan-reply db gm _ _ x y o two b.start b.end)
    ∙ finish_range-reply db x y w _ b
