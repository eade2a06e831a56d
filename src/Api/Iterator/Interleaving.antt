-- ===== src/Api/Iterator/Interleaving.antt =====
-- Contracts that run at the same time share the tables. Each operation is one step, since it holds
-- the mutex; the order of the steps of different calls is arbitrary.
use go_cosmwasm.Base.{
  ℕ, suc, ◌+◌, ◌-◌, ◌%◌, ◌<◌, ◌≤◌, ◌≡◌, refl, Bool, true, false, ◌||◌, none, List, [], ◌∷◌, ◌++◌,
  arith, ◌==◌, if◌then◌else◌, u64_mod, get_elem?-append_left,
}
use go_cosmwasm.Base.Dict.{lookup, lookup-erase, lookup-insert}
use go_cosmwasm.Go.{ok}
use go_cosmwasm.Api.World.{Tables}
use go_cosmwasm.Api.Iterator.{
  Frame, frame_of, start_contract, pop_frame, store_iterator, retrieve_iterator,
}

-- The tables, and the counters of the calls that run, the newest first.
pub record Calls : Type 0 where
  pub tables : Tables
  pub live : List ℕ

abbrev pub contains : ℕ → List ℕ → Bool
contains c [] = false
contains c (d ∷ ds) = (c == d) || contains c ds

abbrev pub remove : ℕ → List ℕ → List ℕ
remove c [] = []
remove c (d ∷ ds) = if c == d then ds else d ∷ remove c ds

pub data Event : Type 0 where
  starts : Event
  scans : ℕ → ℕ → Event
  finishes : ℕ → Event

-- A call begins (`startContract`), opens an iterator (`storeIterator`, from `cScan`) or ends
-- (`popFrame`, from `endContract`). Only a running call has its counter.
pub data Step : Event → Calls → Calls → Type 0 where
  start :
      (s : Calls) (c : ℕ) (t : Tables)
      → start_contract s.tables ≡ (ok c, t)
      → Step starts s (record { tables = t; live = c ∷ s.live })
  scan :
      (s : Calls) (c it i : ℕ) (t : Tables)
      → contains c s.live ≡ true
      → store_iterator c it s.tables ≡ (ok i, t)
      → Step (scans c it) s (record { tables = t; live = s.live })
  finish :
      (s : Calls) (c : ℕ) (f : Frame) (t : Tables)
      → contains c s.live ≡ true
      → pop_frame c s.tables ≡ (ok f, t)
      → Step (finishes c) s (record { tables = t; live = remove c s.live })

pub data Run : List Event → Calls → Calls → Type 0 where
  stop : {s : Calls} → Run [] s s
  next : {e : Event} {es : List Event} {s t u : Calls} → Step e s t → Run es t u → Run (e ∷ es) s u

-- The package's variables at program start.
abbrev pub boot : Calls
boot = record { tables = record { db_counter = 0; iterator_stack = [] }; live = [] }

abbrev pub count_starts : List Event → ℕ
count_starts [] = 0
count_starts (starts ∷ es) = suc (count_starts es)
count_starts (scans c it ∷ es) = count_starts es
count_starts (finishes c ∷ es) = count_starts es

-- The counters of the running calls fall along the list, below a bound, and none is 0.
abbrev pub Below : ℕ → List ℕ → Type 0
Below n [] = Unit {0}
Below n (c ∷ cs) = (c < n) × (0 < c) × Below c cs

pub record Inv (s : Calls) : Type 0 where
  pub distinct : Below (s.tables.db_counter + 1) s.live
  pub framed : (c : ℕ) → contains c s.live ≡ false → lookup c s.tables.iterator_stack ≡ none

Below-mono : {m n : ℕ} (cs : List ℕ) → m ≤ n → Below m cs → Below n cs
Below-mono [] h b = tt
Below-mono (c ∷ cs) h b = (omega arith, b.1, b.2)

Below-remove : (n c : ℕ) (cs : List ℕ) → Below n cs → Below n (remove c cs)
Below-remove n c [] b = tt
Below-remove n c (d ∷ cs) b = ground (arith, Below-remove d c cs b.2, Below-mono {m = d} {n = n} cs)

contains_above : (n c : ℕ) (cs : List ℕ) → Below n cs → n ≤ c → contains c cs ≡ false
contains_above n c [] b h = refl
contains_above n c (d ∷ cs) b h = ground (arith, contains_above d c cs b.2)

-- A call that has ended is gone, and the others stay.
contains-remove :
    (n c j : ℕ) (cs : List ℕ)
    → Below n cs
    → contains j (remove c cs) ≡ (if j == c then false else contains j cs)
contains-remove n c j [] b = ground arith
contains-remove n c j (d ∷ cs) b =
    ground (arith, contains-remove d c j cs b.2, contains_above d c cs b.2)

Step-Inv :
    (es : List Event) {e : Event} {s t : Calls}
    → Step e s t
    → s.tables.db_counter + count_starts (e ∷ es) < u64_mod
    → Inv s
    → Inv t
unfolding start_contract store_iterator pop_frame
Step-Inv es (start s c t e) h v = record {
  distinct = ground arith;
  framed = λ j out. ground (arith, v.framed j);
}
Step-Inv es (scan s c it i t l e) h v = record {
  distinct = ground arith;
  framed = λ j out. ground (
    arith,
    v.framed j,
    lookup-insert j c (frame_of (lookup c s.tables.iterator_stack) ++ it ∷ [])
        s.tables.iterator_stack,
  );
}
Step-Inv es (finish s c f t l e) h v = record {
  distinct = ground (arith, Below-remove (s.tables.db_counter + 1) c s.live v.distinct);
  framed = λ j out. ground (
    arith,
    v.framed j,
    lookup-erase j c s.tables.iterator_stack,
    contains-remove (s.tables.db_counter + 1) c j s.live v.distinct,
  );
}

-- The counter grows with each start only.
Step-counter :
    (es : List Event) {e : Event} {s t : Calls}
    → Step e s t
    → s.tables.db_counter + count_starts (e ∷ es) < u64_mod
    → t.tables.db_counter + count_starts es ≡ s.tables.db_counter + count_starts (e ∷ es)
unfolding start_contract store_iterator pop_frame
Step-counter es (start s c t e) h = ground arith
Step-counter es (scan s c it i t l e) h = ground arith
Step-counter es (finish s c f t l e) h = ground arith

pub Run-Inv :
    {es : List Event} {s t : Calls}
    → Run es s t
    → s.tables.db_counter + count_starts es < u64_mod
    → Inv s
    → Inv t × (t.tables.db_counter ≡ s.tables.db_counter + count_starts es)
Run-Inv stop h v = (v, omega arith)
Run-Inv (next {es = es} st r) h v =
    let grown = Step-counter es st h in
    let rest = Run-Inv r (omega (arith, grown)) (Step-Inv es st h v) in
    (rest.0, omega (arith, grown, rest.1))

boot-Inv : Inv boot
boot-Inv = record { distinct = tt; framed = λ c out. refl }

all_absent : (d : List (ℕ × Frame)) → ((c : ℕ) → lookup c d ≡ none) → d ≡ []
all_absent [] h = refl
all_absent ((k, f) ∷ d) h = ground (arith, h k)

-- For every interleaving of fewer than 2^64 calls: once the last running call has ended, no frame
-- is left in the iterator stack.
pub Run-drains :
    {es : List Event} {s : Calls}
    → Run es boot s
    → count_starts es < u64_mod
    → s.live ≡ []
    → s.tables.iterator_stack ≡ []
Run-drains r h e =
    let v = (Run-Inv r (omega arith) boot-Inv).0 in all_absent _ (λ c. v.framed c (rw e))

-- For every interleaving of fewer than 2^64 calls, the last included: a call that starts gets a
-- counter that is not 0, that no running call has, and whose frame is empty.
pub start_contract_fresh :
    {es : List Event} {s : Calls} (c : ℕ) (t : Tables)
    → Run es boot s
    → count_starts es + 1 < u64_mod
    → start_contract s.tables ≡ (ok c, t)
    → (0 < c) × (contains c s.live ≡ false) × (lookup c t.iterator_stack ≡ none)
unfolding start_contract
start_contract_fresh {es} {s} c t r h e =
    let (v, n) = Run-Inv r (omega arith) boot-Inv in
    let out =
      contains_above (s.tables.db_counter + 1) (s.tables.db_counter + 1) s.live v.distinct in
    ground (arith, n, out, v.framed (s.tables.db_counter + 1))

abbrev pub count_finishes : ℕ → List Event → ℕ
count_finishes c [] = 0
count_finishes c (starts ∷ es) = count_finishes c es
count_finishes c (scans d it ∷ es) = count_finishes c es
count_finishes c (finishes d ∷ es) =
    if c == d then suc (count_finishes c es) else count_finishes c es

retrieve_iterator-Step :
    (c i it : ℕ) (es : List Event) {e : Event} {s t : Calls}
    → Step e s t
    → count_finishes c (e ∷ es) ≡ 0
    → retrieve_iterator c i s.tables ≡ (ok it, s.tables)
    → (count_finishes c es ≡ 0) × (retrieve_iterator c i t.tables ≡ (ok it, t.tables))
unfolding retrieve_iterator start_contract store_iterator pop_frame
retrieve_iterator-Step c i it es (start s d t e) h r = ground arith
retrieve_iterator-Step c i it es (scan s d jt j t l e) h r =
    let stack = s.tables.iterator_stack in
    let f : Frame = frame_of (lookup d stack) in
    let g : Frame = frame_of (lookup c stack) in
    ground (
      arith,
      lookup-insert c d (f ++ jt ∷ []) stack,
      get_elem?-append_left g (jt ∷ []) ((i + u64_mod - 1) % u64_mod) {a = it},
    )
retrieve_iterator-Step c i it es (finish s d f t l e) h r =
    ground (arith, lookup-erase c d s.tables.iterator_stack)

-- An iterator keeps its index for as long as its own call has not ended, whatever the other calls
-- do in between, and however many iterators are opened.
pub retrieve_iterator-Run :
    (c i it : ℕ) {es : List Event} {s t : Calls}
    → Run es s t
    → count_finishes c es ≡ 0
    → retrieve_iterator c i s.tables ≡ (ok it, s.tables)
    → retrieve_iterator c i t.tables ≡ (ok it, t.tables)
retrieve_iterator-Run c i it stop h e = e
retrieve_iterator-Run c i it (next {es = es} st r) h e =
    let (h', e') = retrieve_iterator-Step c i it es st h e in retrieve_iterator-Run c i it r h' e'
