-- ===== src/Api/Contract/Closing.antt =====
-- The end of a call's frame: the iterators that the call opened are closed in their order, and the
-- frames of other calls stay.
use go_cosmwasm.Base.{ℕ, ◌+◌, ◌≡◌, ap, ◌∙◌, List, none}
use go_cosmwasm.Base.Dict.{lookup, erase}
use go_cosmwasm.Go.{ok}
use go_cosmwasm.Ffi.Memory.{Heap}
use go_cosmwasm.Ffi.Program.Direct.{Local}
use go_cosmwasm.Ffi.Program.Mirrors.{Mirrors, lookup-with_frame, erase-with_frame}
use go_cosmwasm.Api.World.{Tables, World}
use go_cosmwasm.Api.Host.{DbIterator}
use go_cosmwasm.Api.Iterator.{frame_of, close_all}
use go_cosmwasm.Api.Contract.Lifecycle.{next_counter}
use go_cosmwasm.Api.Contract.Answers.{frame_opened, frame_closed}

module _ {H : Type 0} (w t : World H) (h : Heap) (l : Local H)
    (fresh : lookup (next_counter w) w.tables.iterator_stack ≡ none)
    (m : Mirrors (next_counter w) (frame_opened (record w { heap = h })) l t) (s : H) where
  pub closing_tables :
      (frame_closed (next_counter w) t s).tables
      ≡ record w.tables { db_counter = next_counter w + l.spent }
  closing_tables =
      let closing : Tables → Tables =
        λ ts. record ts { iterator_stack = erase (next_counter w) ts.iterator_stack } in
      let with_stack : List (ℕ × List ℕ) → Tables =
        λ d. record { db_counter = next_counter w + l.spent; iterator_stack = d } in
      ap closing m.same_tables
      ∙ ap with_stack (erase-with_frame (next_counter w) w.tables.iterator_stack fresh l.frame)

  pub closing_all :
      (it : DbIterator H)
      → close_all it l.frame l.host ≡ (ok tt, s)
      → close_all it (frame_of (lookup (next_counter w) t.tables.iterator_stack)) t.host
        ≡ (ok tt, s)
  closing_all it closes =
      let c : ℕ = next_counter w in
      ap (λ ts. close_all it (frame_of (lookup c ts.iterator_stack)) t.host) m.same_tables
      ∙ ap (λ f. close_all it f t.host) (lookup-with_frame c w.tables.iterator_stack fresh l.frame)
      ∙ ap (close_all it l.frame) m.same_host
      ∙ closes
