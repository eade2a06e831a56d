-- ===== src/Ffi/Program/Iterators.antt =====
-- Opening and stepping an iterator over the boundary, against the application's own.
use mathlib.Core.Path.{subst}
use go_cosmwasm.Base.{
  ℕ, ◌+◌, ◌≤◌, ◌<◌, ◌^◌, ◌≡◌, refl, sym, ap, ◌∙◌, false, Option, none, some, [], ◌∷◌, ◌++◌, length,
  ◌==◌, arith,
}
use go_cosmwasm.Base.Dict.{lookup, insert}
use go_cosmwasm.Go.{Outcome, ok, panic, fault, bounds_error, Bytes, Slice}
use go_cosmwasm.Ffi.Memory.{Heap, from_vec, Below-mono}
use go_cosmwasm.Ffi.Memory.Grown.{Grown, Grown-same, Grown-allocate_rust}
use go_cosmwasm.Ffi.Status.{done}
use go_cosmwasm.Ffi.Storage.Refines.{metered}
use go_cosmwasm.Ffi.Scan.{next}
use go_cosmwasm.Ffi.Scan.Entries.{step_of, stepped, next-stepped, next-out_of_range}
use go_cosmwasm.Ffi.Range.{Order, bound, range}
use go_cosmwasm.Ffi.Range.Bounds.{bounded, short}
use go_cosmwasm.Ffi.Range.Opens.{opening, unbounded, ranged, range-ranged}
use go_cosmwasm.Ffi.Program.{handle}
use go_cosmwasm.Ffi.Program.Direct.{Local, joined, entered, step_at, indexed}
use go_cosmwasm.Ffi.Program.Mirrors.{
  with_frame, Mirrors, Matches, lookup-with_frame, insert-with_frame,
}
use go_cosmwasm.Api.World.{Tables, World}
use go_cosmwasm.Api.Host.{DbIterator, GasMeter}
use go_cosmwasm.Api.Iterator.{Frame, frame_of, at_index, store_iterator, retrieve_iterator}
use go_cosmwasm.Api.Callbacks.{DbState, IteratorRef}

bounded-next : (x : Option Bytes) (h : Heap) → h.next ≤ (bounded x h).next
unfolding bound from_vec
bounded-next none h = omega arith
bounded-next (some []) h = omega arith
bounded-next (some (x ∷ xs)) h = omega arith

module _ {H : Type 0} (db : DbState H) (base : World H)
    (fresh : lookup db.iterator_stack_id base.tables.iterator_stack ≡ none) (l : Local H)
    (w : World H) (m : Mirrors db.iterator_stack_id base l w) where
  -- The frame that the tables hold is the one that the run has in mind.
  same_frame : frame_of (lookup db.iterator_stack_id w.tables.iterator_stack) ≡ l.frame
  same_frame =
      ap (λ t. frame_of (lookup db.iterator_stack_id t.iterator_stack)) m.same_tables
      ∙ lookup-with_frame db.iterator_stack_id base.tables.iterator_stack fresh l.frame

  stored_tables :
      (it : ℕ)
      → (store_iterator db.iterator_stack_id it w.tables).1 ≡ record base.tables {
        db_counter = base.tables.db_counter + l.spent;
        iterator_stack =
            with_frame db.iterator_stack_id (l.frame ++ it ∷ []) base.tables.iterator_stack;
      }
  unfolding store_iterator
  stored_tables it =
      let stack = base.tables.iterator_stack in
      let put : Frame → Tables → Tables = λ f t. record t {
        iterator_stack = insert db.iterator_stack_id (f ++ it ∷ []) t.iterator_stack;
      } in
      ap (λ f. put f w.tables) same_frame
      ∙ ap (put l.frame) m.same_tables
      ∙ ap
          (λ d. record base.tables {
            db_counter = base.tables.db_counter + l.spent;
            iterator_stack = d;
          })
          (insert-with_frame db.iterator_stack_id stack fresh l.frame it)

  unbounded-Grown :
      (x y : Option Bytes) (s : H)
      → Grown base.heap l.given (unbounded x y (record w { host = s })).heap
  unbounded-Grown x y s =
      let more : w.heap.next ≤ (bounded y (bounded x w.heap)).next =
        omega (arith, bounded-next x w.heap, bounded-next y (bounded x w.heap)) in
      Grown-same base.heap l.given w.heap _ m.grown refl more
        (Below-mono w.heap.next _ w.heap.blocks more m.grown.valid)

  ranged-Matches :
      (x y : Option Bytes) (o : Outcome (ℕ × ℕ) × H)
      → Matches db.iterator_stack_id base (joined db.iterator_stack_id l o) (ranged db x y w o)
  ranged-Matches x y (ok (it, g), s) = (
    ap (λ f. ok (done (handle db.iterator_stack_id (length f + 1)), g)) same_frame,
    record { same_host = refl; same_tables = stored_tables it; grown = unbounded-Grown x y s },
  )
  ranged-Matches x y (panic p, s) = (
    refl,
    record { same_host = refl; same_tables = m.same_tables; grown = unbounded-Grown x y s },
  )
  ranged-Matches x y (fault, s) = refl

  stepped-Matches :
      (o : Outcome ((Slice × Slice) × ℕ) × H)
      → Matches db.iterator_stack_id base (entered l o) (stepped w o)
  stepped-Matches (ok ((none, v), g), s) =
      (refl, record { same_host = refl; same_tables = m.same_tables; grown = m.grown })
  stepped-Matches (ok ((some k, v), g), s) = (
    refl,
    record {
      same_host = refl;
      same_tables = m.same_tables;
      grown =
          Grown-allocate_rust base.heap _ _ v
            (Grown-allocate_rust base.heap l.given w.heap (some k) m.grown);
    },
  )
  stepped-Matches (panic p, s) =
      (refl, record { same_host = refl; same_tables = m.same_tables; grown = m.grown })
  stepped-Matches (fault, s) = refl

  retrieved :
      (i : ℕ)
      → retrieve_iterator db.iterator_stack_id i w.tables ≡ (at_index (indexed l.frame i), w.tables)
  unfolding retrieve_iterator
  retrieved i = ap (λ f. (at_index (indexed f i), w.tables)) same_frame

  -- `Storage::range` opens the iterator that the application opens, and puts it in the call's frame.
  pub range-Matches :
      (gm : GasMeter H) (x y : Option Bytes) (o : Order)
      → short x < 2 ^ 31
      → short y < 2 ^ 31
      → Matches db.iterator_stack_id base
          (joined db.iterator_stack_id l (metered gm (opening db.store o x y) l.host))
          (range db gm x y o w)
  range-Matches gm x y o s t =
      let opens : H → Outcome (ℕ × ℕ) × H = metered gm (opening db.store o x y) in
      subst (Matches db.iterator_stack_id base (joined db.iterator_stack_id l (opens l.host)))
        (sym (
          range-ranged db gm x y o w m.grown.valid s t
          ∙ ap (λ h. ranged db x y w (opens h)) m.same_host))
        (ranged-Matches x y (opens l.host))

  next_at-Matches :
      (d : DbIterator H) (gm : GasMeter H) (i : ℕ) (o : Option ℕ)
      → (db.iterator_stack_id == 0) ≡ false
      → retrieve_iterator db.iterator_stack_id i w.tables ≡ (at_index o, w.tables)
      → Matches db.iterator_stack_id base
          (entered l (step_at d gm o l.host))
          (next d (handle db.iterator_stack_id i) gm w)
  next_at-Matches d gm i none z e =
      let ref : IteratorRef = record { db_counter = db.iterator_stack_id; iterator_index = i } in
      subst (Matches db.iterator_stack_id base (entered l (panic bounds_error, l.host)))
        (sym (
          next-out_of_range d gm ref w z e
          ∙ ap (λ h. stepped w (panic bounds_error, h)) m.same_host))
        (stepped-Matches (panic bounds_error, l.host))
  next_at-Matches d gm i (some it) z e =
      let ref : IteratorRef = record { db_counter = db.iterator_stack_id; iterator_index = i } in
      subst (Matches db.iterator_stack_id base (entered l (step_of d gm it l.host)))
        (sym (next-stepped d gm ref it w z e ∙ ap (λ h. stepped w (step_of d gm it h)) m.same_host))
        (stepped-Matches (step_of d gm it l.host))

  -- A step of the iterator with an index is a step of the one at this place of the frame.
  pub next-Matches :
      (d : DbIterator H) (gm : GasMeter H) (i : ℕ)
      → (db.iterator_stack_id == 0) ≡ false
      → Matches db.iterator_stack_id base
          (entered l (step_at d gm (indexed l.frame i) l.host))
          (next d (handle db.iterator_stack_id i) gm w)
  next-Matches d gm i z = next_at-Matches d gm i (indexed l.frame i) z (retrieved i)
