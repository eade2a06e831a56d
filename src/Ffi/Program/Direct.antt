-- ===== src/Ffi/Program/Direct.antt =====
-- The same tree run on the application itself, which keeps in mind the iterators that it opened and
-- the bytes that the iterators gave.
use go_cosmwasm.Base.{
  ◌≤◌, arith, ℕ, ◌+◌, ◌-◌, ◌%◌, Option, none, some, List, [], ◌∷◌, ◌++◌, length, get_elem?, u64_mod,
}
use go_cosmwasm.Go.{Go, Outcome, ok, panic, fault, pure, throw, ◌>>=◌, bounds_error, Bytes, Slice}
use go_cosmwasm.Ffi.Memory.Grown.{keep}
use go_cosmwasm.Ffi.Status.{FfiResult, done, failed}
use go_cosmwasm.Ffi.Error.{VmResult}
use go_cosmwasm.Ffi.Agreement.{attempt}
use go_cosmwasm.Ffi.Storage.Refines.{metered, panic_error}
use go_cosmwasm.Ffi.Scan.{with_value}
use go_cosmwasm.Ffi.Scan.Entries.{step_of}
use go_cosmwasm.Ffi.Range.Opens.{opening}
use go_cosmwasm.Ffi.Address.Agrees.{told, canonical_of, texted}
use go_cosmwasm.Ffi.Query.Agrees.{heard}
use go_cosmwasm.Ffi.Query.Realises.{Effect}
use go_cosmwasm.Ffi.Program.{Program, Deps, handle}
use go_cosmwasm.Api.Callbacks.{GoIter, panic_status}
use go_cosmwasm.Api.Host.{DbIterator, GasMeter}

-- The state of a run: the call's iterators in the order of their opening, how many calls of other
-- contracts were counted, the bytes of the blocks of Rust's that stay allocated, the last ones first
-- (the entries of iterators, and what the querier leaves), and the application's own.
pub record Local (H : Type 0) : Type 0 where
  pub frame : List ℕ
  pub spent : ℕ
  pub given : List Bytes
  pub host : H

abbrev pub start : {H : Type 0} → H → Local H
start s = record { frame = []; spent = 0; given = []; host = s }

abbrev pub at_host : {H A : Type 0} → Go H A → Go (Local H) A
at_host m l = let (r, s) = m l.host in (r, record l { host = s })

-- An iterator that was opened joins the others.
abbrev pub joined :
    {H : Type 0} → ℕ → Local H → Outcome (ℕ × ℕ) × H → Outcome (FfiResult GoIter × ℕ) × Local H
joined c l (ok (it, gas), s) = (
  ok (done (handle c (length l.frame + 1)), gas),
  record l { frame = l.frame ++ it ∷ []; host = s },
)
joined c l (panic p, s) = (ok (failed (panic_error (panic_status p)), 0), record l { host = s })
joined c l (fault, s) = (fault, record l { host = s })

-- An iterator that was stepped gives an entry, or none at its end.
abbrev pub entered :
    {H : Type 0}
    → Local H
    → Outcome ((Slice × Slice) × ℕ) × H
    → Outcome (FfiResult (Option (Bytes × Bytes)) × ℕ) × Local H
entered l (ok ((none, v), gas), s) = (ok (done none, gas), record l { host = s })
entered l (ok ((some k, v), gas), s) =
    (ok (with_value k v, gas), record l { given = keep v (keep (some k) l.given); host = s })
entered l (panic p, s) = (ok (failed (panic_error (panic_status p)), 0), record l { host = s })
entered l (fault, s) = (fault, record l { host = s })

-- A step of the iterator at a place in the frame; where there is none, the index panics.
abbrev pub step_at :
    {H : Type 0} → DbIterator H → GasMeter H → Option ℕ → Go H ((Slice × Slice) × ℕ)
step_at d gm none s = (panic bounds_error, s)
step_at d gm (some it) s = step_of d gm it s

-- An answer to a query, and what it leaves.
abbrev pub asked : {H A : Type 0} → Local H → Outcome A × Effect H → Outcome A × Local H
asked l (r, e) =
    (r, record l { spent = l.spent + e.spent; given = e.given ++ l.given; host = e.host })

-- The iterator with an index, which counts from 1.
abbrev pub indexed : List ℕ → ℕ → Option ℕ
indexed frame i = get_elem? frame ((i + u64_mod - 1) % u64_mod)

unfoldable pub direct :
    {H I R : Type 0} → Deps H R → Program I R → Go (Local H) (VmResult Bytes × I)
direct d (Program.finish r i) l = pure (r, i) l
direct d (Program.crash p) l = throw p l
direct d (Program.get k f) l =
    (at_host (attempt (metered d.meter (d.db.store.get (some k)))) >>= λ r. direct d (f r)) l
direct d (Program.set k v f) l =
    (at_host (attempt (metered d.meter (d.db.store.set (some k) (some v)))) >>= λ r. direct d (f r))
      l
direct d (Program.remove k f) l =
    (at_host (attempt (metered d.meter (d.db.store.delete (some k)))) >>= λ r. direct d (f r)) l
direct d (Program.range x y o f) l =
    ((λ k. joined d.db.iterator_stack_id k (metered d.meter (opening d.db.store o x y) k.host))
        >>= λ r. direct d (f r))
      l
direct d (Program.next i f) l =
    ((λ k. entered k (step_at d.iterators d.meter (indexed k.frame i) k.host)) >>= λ r.
    direct d (f r))
      l
direct d (Program.canonical_address a f) l =
    (at_host (λ t. told (canonical_of d.api a t)) >>= λ r. direct d (f r)) l
direct d (Program.human_address a f) l =
    (at_host (λ t. texted d.utf8_error (told (d.api.human_address (some a) t))) >>= λ r.
    direct d (f r))
      l
direct d (Program.query a gas_limit f) l =
    ((λ k. asked k (heard d.serde (d.asks a gas_limit (d.db.iterator_stack_id + k.spent) k.host)))
        >>= λ r. direct d (f r))
      l

-- The count of calls only goes up.
bind-spent :
    {H A B : Type 0} (n : ℕ) (o : Outcome A × Local H) (here : A → Go (Local H) B) (l : Local H)
    → n ≤ o.1.spent
    → ((a : A) (k : Local H) → k.spent ≤ (here a k).1.spent)
    → n ≤ (((λ u. o) >>= here) l).1.spent
bind-spent n (ok a, k) here l x f = omega (arith, x, f a k)
bind-spent n (panic p, k) here l x f = x
bind-spent n (fault, k) here l x f = x

joined-spent :
    {H : Type 0} (c : ℕ) (l : Local H) (o : Outcome (ℕ × ℕ) × H) → l.spent ≤ (joined c l o).1.spent
joined-spent c l (ok (it, gas), s) = omega arith
joined-spent c l (panic p, s) = omega arith
joined-spent c l (fault, s) = omega arith

entered-spent :
    {H : Type 0} (l : Local H) (o : Outcome ((Slice × Slice) × ℕ) × H)
    → l.spent ≤ (entered l o).1.spent
entered-spent l (ok ((none, v), gas), s) = omega arith
entered-spent l (ok ((some k, v), gas), s) = omega arith
entered-spent l (panic p, s) = omega arith
entered-spent l (fault, s) = omega arith

pub direct-spent :
    {H I R : Type 0} (d : Deps H R) (p : Program I R) (l : Local H)
    → l.spent ≤ (direct d p l).1.spent
unfolding direct
direct-spent d (Program.finish r i) l = omega arith
direct-spent d (Program.crash p) l = omega arith
direct-spent d (Program.get k f) l =
    bind-spent l.spent (at_host (attempt (metered d.meter (d.db.store.get (some k)))) l)
      (λ r. direct d (f r)) l (omega arith) λ a k. direct-spent d (f a) k
direct-spent d (Program.set k v f) l =
    bind-spent l.spent (at_host (attempt (metered d.meter (d.db.store.set (some k) (some v)))) l)
      (λ r. direct d (f r)) l (omega arith) λ a k. direct-spent d (f a) k
direct-spent d (Program.remove k f) l =
    bind-spent l.spent (at_host (attempt (metered d.meter (d.db.store.delete (some k)))) l)
      (λ r. direct d (f r)) l (omega arith) λ a k. direct-spent d (f a) k
direct-spent d (Program.range x y o f) l =
    let opened = metered d.meter (opening d.db.store o x y) l.host in
    bind-spent l.spent (joined d.db.iterator_stack_id l opened) (λ r. direct d (f r)) l
      (joined-spent d.db.iterator_stack_id l opened) λ a k. direct-spent d (f a) k
direct-spent d (Program.next i f) l =
    let stepped = step_at d.iterators d.meter (indexed l.frame i) l.host in
    bind-spent l.spent (entered l stepped) (λ r. direct d (f r)) l (entered-spent l stepped)
      λ a k. direct-spent d (f a) k
direct-spent d (Program.canonical_address a f) l =
    bind-spent l.spent (at_host (λ t. told (canonical_of d.api a t)) l) (λ r. direct d (f r)) l
      (omega arith) λ a k. direct-spent d (f a) k
direct-spent d (Program.human_address a f) l =
    bind-spent l.spent
      (at_host (λ t. texted d.utf8_error (told (d.api.human_address (some a) t))) l)
      (λ r. direct d (f r)) l (omega arith) λ a k. direct-spent d (f a) k
direct-spent d (Program.query a gas_limit f) l =
    bind-spent l.spent
      (asked l (heard d.serde (d.asks a gas_limit (d.db.iterator_stack_id + l.spent) l.host)))
      (λ r. direct d (f r)) l (omega arith) λ a k. direct-spent d (f a) k
