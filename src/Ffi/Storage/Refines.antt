-- ===== src/Ffi/Storage/Refines.antt =====
-- The store as the contract sees it is the application's: the way over the two heaps, the
-- callbacks and their status codes adds nothing and loses nothing.
use go_cosmwasm.Base.{ℕ, ◌≤◌, ◌<◌, ◌^◌, ◌≡◌, refl, ap, ◌∙◌, none, some, length, arith}
use go_cosmwasm.Go.{Go, Outcome, ok, panic, fault, Panic, pure, ◌>>=◌, Bytes, Slice}
use go_cosmwasm.Ffi.Memory.{IsValid, Buffer, from_vec, consume}
use go_cosmwasm.Ffi.Status.{GoResult, FfiError, FfiResult, done, failed}
use go_cosmwasm.Api.World.{World}
use go_cosmwasm.Api.Host.{GasMeter}
use go_cosmwasm.Api.Memory.{allocate_rust, receive_slice}
use go_cosmwasm.Api.Callbacks.{DbState, Slots, panic_status, gas_between}
use go_cosmwasm.Api.Callbacks.Db.{write_found, c_get, c_set, c_delete}
use go_cosmwasm.Ffi.Memory.{allocate_rust as c_allocate_rust}
use go_cosmwasm.Ffi.Storage.Exchange.{
  Exchange, exchange, from_vec-receive_slice, allocate_rust-from_vec, value_of-consume,
}
use go_cosmwasm.Ffi.Storage.{value_of, call_back, fresh_slots, get, set, remove}

-- An operation of the application's, with the gas that the meter shows before and after it.
abbrev pub metered : {H A : Type 0} → GasMeter H → Go H A → Go H (A × ℕ)
metered gm op = do
  before ← gm.gas_consumed
  a ← op
  after ← gm.gas_consumed
  pure (a, gas_between before after)

-- How a panic shows in the virtual machine.
abbrev pub panic_error : GoResult → FfiError
panic_error GoResult.out_of_gas = FfiError.out_of_gas
panic_error _ = FfiError.foreign_panic

-- The tables and the allocated blocks are as before.
abbrev pub Clean : {H : Type 0} → World H → World H → Type 0
Clean w w' =
    (w'.tables ≡ w.tables)
    × (w'.heap.blocks ≡ w.heap.blocks)
    × (w.heap.next ≤ w'.heap.next)
    × IsValid w'.heap

-- A result over the boundary from `w` against the application's own: the same value and gas, a
-- panic as an error with no gas, and the application's state the same.
abbrev pub Refines :
    {H A : Type 0} → World H → Outcome (A × ℕ) × H → Outcome (FfiResult A × ℕ) × World H → Type 0
Refines w (ok (a, used), s) (r, w') = (r ≡ ok (done a, used)) × (w'.host ≡ s) × Clean w w'
Refines w (panic p, s) (r, w') =
    (r ≡ ok (failed (panic_error (panic_status p)), 0)) × (w'.host ≡ s) × Clean w w'
Refines w (fault, s) (r, w') = (r ≡ fault) × (w'.host ≡ s)

-- What a callback with one metered operation leaves in the variables of its caller.
abbrev reply : {H A : Type 0} → World H → Outcome (A × ℕ) × H → Outcome (GoResult × Slots) × World H
reply w (ok (a, used), s) =
    (ok (GoResult.ok, record fresh_slots { used_gas = some used }), record w { host = s })
reply w (panic p, s) = (ok (panic_status p, fresh_slots), record w { host = s })
reply w (fault, s) = (fault, record w { host = s })

c_delete-reply :
    {H : Type 0} (db : DbState H) (gm : GasMeter H) (b : Buffer) (k : Slice) (w : World H)
    → receive_slice b w.heap ≡ (ok k, w.heap)
    → call_back fresh_slots (c_delete (some db) (some gm) b) w
      ≡ reply w (metered gm (db.store.delete k) w.host)
unfolding c_delete call_back
c_delete-reply db gm b k w e = ground arith

c_set-reply :
    {H : Type 0} (db : DbState H) (gm : GasMeter H) (b c : Buffer) (k x : Slice) (w : World H)
    → receive_slice b w.heap ≡ (ok k, w.heap)
    → receive_slice c w.heap ≡ (ok x, w.heap)
    → call_back fresh_slots (c_set (some db) (some gm) b c) w
      ≡ reply w (metered gm (db.store.set k x) w.host)
unfolding c_set call_back
c_set-reply db gm b c k x w e f = ground arith

-- As `reply`, with the value that was read written to `val`.
abbrev reply_value :
    {H : Type 0} → World H → Outcome (Slice × ℕ) × H → Outcome (GoResult × Slots) × World H
reply_value w (ok (a, used), s) =
    let (r, h) = allocate_rust a w.heap in
    elim r [
      | ok b ↦ (
        ok (GoResult.ok, record fresh_slots { used_gas = some used; val = some b }),
        record w { host = s; heap = h },
      )
      | panic p ↦ (panic p, record w { host = s; heap = h })
      | fault ↦ (fault, record w { host = s; heap = h })
    ]
reply_value w (panic p, s) = (ok (panic_status p, fresh_slots), record w { host = s })
reply_value w (fault, s) = (fault, record w { host = s })

c_get-reply :
    {H : Type 0} (db : DbState H) (gm : GasMeter H) (b : Buffer) (k : Slice) (w : World H)
    → receive_slice b w.heap ≡ (ok k, w.heap)
    → call_back fresh_slots (c_get (some db) (some gm) b) w
      ≡ reply_value w (metered gm (db.store.get k) w.host)
unfolding c_get call_back write_found allocate_rust c_allocate_rust
c_get-reply db gm b k w e = ground (arith)

-- `remove` once the callback's answer is known.
remove-step :
    {H : Type 0} (db : DbState H) (gm : GasMeter H) (key : Bytes) (w : World H)
    (m : Outcome (Unit {0} × ℕ) × H) (x : Exchange key none w.heap)
    → call_back fresh_slots (c_delete (some db) (some gm) x.sent) (record w { heap = x.after_send })
      ≡ reply (record w { heap = x.after_send }) m
    → Refines w m (remove db gm key w)
unfolding remove panic_status allocate_rust value_of
remove-step db gm key w (ok (a, used), s) x e =
    ground (arith, x.sends, x.answers, x.frees, x.takes, x.same_blocks, x.grows, x.valid)
remove-step db gm key w (panic p, s) x e =
    ground (arith, x.sends, x.answers, x.frees, x.takes, x.same_blocks, x.grows, x.valid)
remove-step db gm key w (fault, s) x e =
    ground (arith, x.sends, x.answers, x.frees, x.takes, x.same_blocks, x.grows, x.valid)

get-step :
    {H : Type 0} (db : DbState H) (gm : GasMeter H) (key : Bytes) (w : World H) (a : Slice)
    (used : ℕ) (s : H) (x : Exchange key a w.heap)
    → call_back fresh_slots (c_get (some db) (some gm) x.sent) (record w { heap = x.after_send })
      ≡ reply_value (record w { heap = x.after_send }) (ok (a, used), s)
    → Refines w (ok (a, used), s) (get db gm key w)
unfolding get
get-step db gm key w a used s x e =
    ground (arith, x.sends, x.answers, x.frees, x.takes, x.same_blocks, x.grows, x.valid)

get_panic-step :
    {H : Type 0} (db : DbState H) (gm : GasMeter H) (key : Bytes) (w : World H) (p : Panic) (s : H)
    (x : Exchange key none w.heap)
    → call_back fresh_slots (c_get (some db) (some gm) x.sent) (record w { heap = x.after_send })
      ≡ reply_value (record w { heap = x.after_send }) (panic p, s)
    → Refines {A = Slice} w (panic p, s) (get db gm key w)
unfolding get panic_status allocate_rust value_of
get_panic-step db gm key w p s x e =
    ground (arith, x.sends, x.answers, x.frees, x.takes, x.same_blocks, x.grows, x.valid)

get_fault-step :
    {H : Type 0} (db : DbState H) (gm : GasMeter H) (key : Bytes) (w : World H) (s : H)
    (x : Exchange key none w.heap)
    → call_back fresh_slots (c_get (some db) (some gm) x.sent) (record w { heap = x.after_send })
      ≡ reply_value (record w { heap = x.after_send }) (fault, s)
    → Refines {A = Slice} w (fault, s) (get db gm key w)
unfolding get
get_fault-step db gm key w s x e = ground (arith, x.sends)

set-step :
    {H : Type 0} (db : DbState H) (gm : GasMeter H) (key value : Bytes) (w : World H)
    (m : Outcome (Unit {0} × ℕ) × H) (x : Exchange key (some value) w.heap)
    → from_vec value x.after_send ≡ (ok x.got, x.after_answer)
    → consume x.got x.after_free ≡ (ok value, x.after_take)
    → call_back fresh_slots
        (c_set (some db) (some gm) x.sent x.got)
        (record w { heap = x.after_answer })
      ≡ reply (record w { heap = x.after_answer }) m
    → Refines w m (set db gm key value w)
unfolding set panic_status
set-step db gm key value w (ok (a, used), s) x f g e =
    ground (arith, x.sends, x.frees, x.same_blocks, x.grows, x.valid)
set-step db gm key value w (panic p, s) x f g e =
    ground (arith, x.sends, x.frees, x.same_blocks, x.grows, x.valid)
set-step db gm key value w (fault, s) x f g e =
    ground (arith, x.sends, x.frees, x.same_blocks, x.grows, x.valid)

-- Over the boundary, `Storage::remove` is the store's `Delete`: the same effect and gas, a panic as
-- an error, and no block left allocated, for a key of fewer than 2^31 bytes.
pub remove-Refines :
    {H : Type 0} (db : DbState H) (gm : GasMeter H) (key : Bytes) (w : World H)
    → IsValid w.heap
    → length key < 2 ^ 31
    → Refines w (metered gm (db.store.delete (some key)) w.host) (remove db gm key w)
remove-Refines db gm key w v s =
    let x = exchange key none w.heap v in
    remove-step db gm key w _ x (
      c_delete-reply db gm x.sent (some key) (record w { heap = x.after_send })
        (from_vec-receive_slice key w.heap s x.sends))

-- Over the boundary, `Storage::set` is the store's `Set`: the same effect and gas, a panic as an
-- error, and no block left allocated, for a key and a value of fewer than 2^31 bytes.
pub set-Refines :
    {H : Type 0} (db : DbState H) (gm : GasMeter H) (key value : Bytes) (w : World H)
    → IsValid w.heap
    → length key < 2 ^ 31
    → length value < 2 ^ 31
    → Refines w (metered gm (db.store.set (some key) (some value)) w.host) (set db gm key value w)
set-Refines db gm key value w v s t =
    let x = exchange key (some value) w.heap v in
    let made = allocate_rust-from_vec value x.after_send ∙ x.answers in
    set-step db gm key value w _ x made
      (value_of-consume x.got value x.after_free x.after_take x.takes)
      (c_set-reply db gm x.sent x.got (some key) (some value) (record w { heap = x.after_answer })
        (x.receives s) (from_vec-receive_slice value x.after_send t made))

-- With the answer named, `get` for each way that the application can end.
get-cases :
    {H : Type 0} (db : DbState H) (gm : GasMeter H) (key : Bytes) (w : World H)
    → IsValid w.heap
    → length key < 2 ^ 31
    → (m : Outcome (Slice × ℕ) × H) → metered gm (db.store.get (some key)) w.host ≡ m
    → Refines w m (get db gm key w)
get-cases db gm key w v s (ok (a, used), t) e =
    let x = exchange key a w.heap v in
    get-step db gm key w a used t x (
      c_get-reply db gm x.sent (some key) (record w { heap = x.after_send })
        (from_vec-receive_slice key w.heap s x.sends)
      ∙ ap (reply_value (record w { heap = x.after_send })) e)
get-cases db gm key w v s (panic p, t) e =
    let x = exchange key none w.heap v in
    get_panic-step db gm key w p t x (
      c_get-reply db gm x.sent (some key) (record w { heap = x.after_send })
        (from_vec-receive_slice key w.heap s x.sends)
      ∙ ap (reply_value (record w { heap = x.after_send })) e)
get-cases db gm key w v s (fault, t) e =
    let x = exchange key none w.heap v in
    get_fault-step db gm key w t x (
      c_get-reply db gm x.sent (some key) (record w { heap = x.after_send })
        (from_vec-receive_slice key w.heap s x.sends)
      ∙ ap (reply_value (record w { heap = x.after_send })) e)

-- Over the boundary, `Storage::get` is the store's `Get`: the same value (a missing key told apart
-- from an empty value) and gas, a panic as an error, and no block left allocated, for a key of
-- fewer than 2^31 bytes.
pub get-Refines :
    {H : Type 0} (db : DbState H) (gm : GasMeter H) (key : Bytes) (w : World H)
    → IsValid w.heap
    → length key < 2 ^ 31
    → Refines w (metered gm (db.store.get (some key)) w.host) (get db gm key w)
get-Refines db gm key w v s = get-cases db gm key w v s _ refl
