-- ===== src/Api/Iterator/Laws.antt =====
-- One operation on the iterator tables at a time.
use go_cosmwasm.Base.{
  ℕ, ◌+◌, ◌-◌, ◌%◌, ◌<◌, ◌≡◌, ◌⊎◌, none, [], ◌∷◌, length, arith, ◌==◌, if◌then◌else◌,
  get_elem?-append_last, get_elem?-none, length-append, u64_mod,
}
use go_cosmwasm.Base.Dict.{lookup, lookup-erase}
use go_cosmwasm.Go.{ok, panic, bounds_error}
use go_cosmwasm.Api.World.{Tables, World}
use go_cosmwasm.Api.Host.{DbIterator}
use go_cosmwasm.Api.Iterator.{Frame, frame_of, end_contract, store_iterator, retrieve_iterator}

-- The iterators that a call has open.
abbrev pub open_iterators : ℕ → Tables → Frame
open_iterators c t = frame_of (lookup c t.iterator_stack)

-- Counting from 1 in `storeIterator` and subtracting 1 in `retrieveIterator` cancel.
index_back : (n : ℕ) → n + 1 < u64_mod → (n + 1 + u64_mod - 1) % u64_mod ≡ n
index_back n h = omega arith

-- Storing an iterator yields an index, never 0, under which it is found.
pub retrieve_iterator-store_iterator :
    (c it : ℕ) (t : Tables) {i : ℕ} {t' : Tables}
    → length (open_iterators c t) + 1 < u64_mod
    → store_iterator c it t ≡ (ok i, t')
    → (0 < i) × (retrieve_iterator c i t' ≡ (ok it, t'))
unfolding store_iterator retrieve_iterator
retrieve_iterator-store_iterator c it t h e =
    let f : Frame = open_iterators c t in
    ground (arith, length-append f (it ∷ []), get_elem?-append_last f it, index_back (length f))

-- An index that no `storeIterator` of the call has returned, 0 included, panics.
pub retrieve_iterator_out_of_range :
    (c i : ℕ) (t : Tables)
    → i < u64_mod
    → length (open_iterators c t) < u64_mod
    → (i ≡ 0) ⊎ (length (open_iterators c t) < i)
    → retrieve_iterator c i t ≡ (panic bounds_error, t)
unfolding retrieve_iterator
retrieve_iterator_out_of_range c i t hi hl out =
    ground (arith, get_elem?-none (open_iterators c t) ((i + u64_mod - 1) % u64_mod))

-- Whatever `Close` does, a panic included, the frame is gone and no other is touched.
pub end_contract_frames :
    {H : Type 0} (d : DbIterator H) (c j : ℕ) (w : World H)
    → lookup j (end_contract d c w).1.tables.iterator_stack
      ≡ (if j == c then none else lookup j w.tables.iterator_stack)
unfolding end_contract
end_contract_frames d c j w = ground (arith, lookup-erase j c w.tables.iterator_stack)
