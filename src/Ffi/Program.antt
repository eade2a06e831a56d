-- ===== src/Ffi/Program.antt =====
-- A contract's run as the virtual machine sees it: a tree of calls of the traits `Storage`, `Api` and
-- `Querier`, and of the iterators of the storage, each answered before the next, that ends with a
-- result and the state of the instance.
pub mod Direct
pub mod Mirrors
pub mod Iterators
pub mod Simulates
use go_cosmwasm.Base.{ℕ, ◌<◌, ◌^◌, ◌≡◌, true, false, Option, some, length, ◌==◌}
use go_cosmwasm.Go.{Go, Panic, pure, throw, ◌>>=◌, Bytes, Slice}
use go_cosmwasm.Ffi.Status.{FfiError, FfiResult}
use go_cosmwasm.Ffi.Error.{VmResult}
use go_cosmwasm.Ffi.Storage
use go_cosmwasm.Ffi.Range
use go_cosmwasm.Ffi.Range.{Order}
use go_cosmwasm.Ffi.Range.Bounds.{short}
use go_cosmwasm.Ffi.Scan
use go_cosmwasm.Ffi.Address
use go_cosmwasm.Ffi.Query.{ResultJson, query_raw}
use go_cosmwasm.Ffi.Query.Realises.{Asks}
use go_cosmwasm.Types.Queries.{Querier}
use go_cosmwasm.Api.Callbacks.Query.{QueryJson}
use go_cosmwasm.Api.World.{World}
use go_cosmwasm.Api.Host.{GasMeter, GoApi, DbIterator}
use go_cosmwasm.Api.Callbacks.{DbState, GoIter}

pub data Program (I R : Type 0) : Type 0 where
  finish : VmResult Bytes → I → Program I R
  crash : Panic → Program I R
  get : Bytes → (FfiResult Slice × ℕ → Program I R) → Program I R
  set : Bytes → Bytes → (FfiResult (Unit {0}) × ℕ → Program I R) → Program I R
  remove : Bytes → (FfiResult (Unit {0}) × ℕ → Program I R) → Program I R
  range : Option Bytes → Option Bytes → Order → (FfiResult GoIter × ℕ → Program I R) → Program I R
  -- The iterator that `range` returned under this index.
  next : ℕ → (FfiResult (Option (Bytes × Bytes)) × ℕ → Program I R) → Program I R
  canonical_address human_address : Bytes → (FfiResult Bytes × ℕ → Program I R) → Program I R
  query : Bytes → ℕ → (FfiResult R × ℕ → Program I R) → Program I R

-- What the calls need of the application: the store, its iterators, its gas meter, the addresses and
-- a querier, which may run other contracts, next to its answers as far as the application goes, with
-- the encodings at the type R of its results, and which bytes are no text.
pub record Deps (H R : Type 0) : Type 0 where
  pub db : DbState H
  pub iterators : DbIterator H
  pub meter : GasMeter H
  pub api : GoApi H
  pub querier : Querier (World H)
  pub asks : Asks H
  pub json : QueryJson
  pub serde : ResultJson R
  pub utf8_error : Bytes → Option FfiError

-- The handle of the iterator with an index in the frame of the call `c`.
abbrev pub handle : ℕ → ℕ → GoIter
handle c i = record { state = record { db_counter = c; iterator_index = i }; vtable = true }

-- The run of a tree through src/db.rs, src/iterator.rs, src/api.rs and src/querier.rs.
unfoldable pub run : {H I R : Type 0} → Deps H R → Program I R → Go (World H) (VmResult Bytes × I)
run d (Program.finish r i) w = pure (r, i) w
run d (Program.crash p) w = throw p w
run d (Program.get k f) w = (Storage.get d.db d.meter k >>= λ r. run d (f r)) w
run d (Program.set k v f) w = (Storage.set d.db d.meter k v >>= λ r. run d (f r)) w
run d (Program.remove k f) w = (Storage.remove d.db d.meter k >>= λ r. run d (f r)) w
run d (Program.range x y o f) w = (Range.range d.db d.meter x y o >>= λ r. run d (f r)) w
run d (Program.next i f) w =
    (Scan.next d.iterators (handle d.db.iterator_stack_id i) d.meter >>= λ r. run d (f r)) w
run d (Program.canonical_address a f) w =
    (Address.canonical_address (some d.api) a >>= λ r. run d (f r)) w
run d (Program.human_address a f) w =
    (Address.human_address d.utf8_error (some d.api) a >>= λ r. run d (f r)) w
run d (Program.query a gas_limit f) w =
    (query_raw d.json d.serde (some d.querier) a gas_limit >>= λ r. run d (f r)) w

-- Keys, values, bounds, addresses and queries are shorter than 2^31 bytes, whatever the answers, and
-- a call `c` that steps an iterator does not have the counter 0.
abbrev pub Bounded : {I R : Type 0} → ℕ → Program I R → Type 0
Bounded c (Program.finish r i) = Unit {0}
Bounded c (Program.crash p) = Unit {0}
Bounded c (Program.get k f) = (length k < 2 ^ 31) × ((r : FfiResult Slice × ℕ) → Bounded c (f r))
Bounded c (Program.set k v f) =
    (length k < 2 ^ 31) × (length v < 2 ^ 31) × ((r : FfiResult (Unit {0}) × ℕ) → Bounded c (f r))
Bounded c (Program.remove k f) =
    (length k < 2 ^ 31) × ((r : FfiResult (Unit {0}) × ℕ) → Bounded c (f r))
Bounded c (Program.range x y o f) =
    (short x < 2 ^ 31) × (short y < 2 ^ 31) × ((r : FfiResult GoIter × ℕ) → Bounded c (f r))
Bounded c (Program.next i f) =
    ((c == 0) ≡ false) × ((r : FfiResult (Option (Bytes × Bytes)) × ℕ) → Bounded c (f r))
Bounded c (Program.canonical_address a f) =
    (length a < 2 ^ 31) × ((r : FfiResult Bytes × ℕ) → Bounded c (f r))
Bounded c (Program.human_address a f) =
    (length a < 2 ^ 31) × ((r : FfiResult Bytes × ℕ) → Bounded c (f r))
Bounded c (Program.query a gas_limit f) =
    (length a < 2 ^ 31) × ((r : FfiResult _ × ℕ) → Bounded c (f r))
