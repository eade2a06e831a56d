-- ===== src/Ffi/Range/Iterates.antt =====
-- An iterator that the virtual machine has just opened, and its first step.
use go_cosmwasm.Base.{ℕ, ◌+◌, ◌<◌, ◌^◌, ◌≡◌, ap, ◌∙◌, false, Option, length, ◌==◌, u64_mod}
use go_cosmwasm.Go.{ok, Bytes}
use go_cosmwasm.Ffi.Memory.{IsValid}
use go_cosmwasm.Ffi.Status.{done}
use go_cosmwasm.Ffi.Storage.Refines.{metered}
use go_cosmwasm.Ffi.Scan.{next}
use go_cosmwasm.Ffi.Scan.Entries.{step_of, stepped, next-stepped}
use go_cosmwasm.Ffi.Range.{Order, range}
use go_cosmwasm.Ffi.Range.Bounds.{short}
use go_cosmwasm.Ffi.Range.Opens.{
  opening, handle_of, stored, unbounded, ranged, range-ranged, store_iterator_index,
}
use go_cosmwasm.Api.World.{World}
use go_cosmwasm.Api.Host.{GasMeter, DbIterator}
use go_cosmwasm.Api.Iterator.Laws.{open_iterators, retrieve_iterator-store_iterator}
use go_cosmwasm.Api.Callbacks.{DbState}

-- When the store opens an iterator, `range` succeeds with a handle, and `next` on that handle steps
-- the very iterator that the store opened. The bounds are shorter than 2^31 bytes, the call's counter
-- is not 0, and its frame has fewer than 2^64 - 1 iterators.
pub range-next :
    {H : Type 0} (d : DbIterator H) (db : DbState H) (gm : GasMeter H) (x y : Option Bytes)
    (o : Order) (w : World H) (it g : ℕ) (s : H)
    → IsValid w.heap
    → short x < 2 ^ 31
    → short y < 2 ^ 31
    → (db.iterator_stack_id == 0) ≡ false
    → length (open_iterators db.iterator_stack_id w.tables) + 1 < u64_mod
    → metered gm (opening db.store o x y) w.host ≡ (ok (it, g), s)
    → let opened : World H = stored db it (unbounded x y (record w { host = s })) in
      (range db gm x y o w ≡ (ok (done (handle_of db w), g), opened))
      × (next d (handle_of db w) gm opened ≡ stepped opened (step_of d gm it s))
range-next d db gm x y o w it g s v short_x short_y z room opens =
    let found =
      retrieve_iterator-store_iterator db.iterator_stack_id it w.tables room
        (store_iterator_index db.iterator_stack_id it w.tables) in
    (
      range-ranged db gm x y o w v short_x short_y ∙ ap (ranged db x y w) opens,
      next-stepped d gm (handle_of db w).state it
          (stored db it (unbounded x y (record w { host = s }))) z found.1,
    )
