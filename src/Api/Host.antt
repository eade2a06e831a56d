-- ===== src/Api/Host.antt =====
-- What the embedding application supplies: the interfaces of api/callbacks.go and of tm-db, whose
-- methods act on a state `H` of their own, and may panic.
use go_cosmwasm.Base.{ℕ, Bool, Option}
use go_cosmwasm.Go.{Go, Bytes, Slice}

-- `GasMeter`
pub record GasMeter (H : Type 0) : Type 0 where
  pub gas_consumed : Go H ℕ

-- `KVStore`; an iterator is named by a number.
pub record KvStore (H : Type 0) : Type 0 where
  pub get : Slice → Go H Slice
  pub set : Slice → Slice → Go H (Unit {0})
  pub delete : Slice → Go H (Unit {0})
  pub iterator : Slice → Slice → Go H ℕ
  pub reverse_iterator : Slice → Slice → Go H ℕ

-- The methods of a `dbm.Iterator` that the callbacks use.
pub record DbIterator (H : Type 0) : Type 0 where
  pub valid : ℕ → Go H Bool
  pub key : ℕ → Go H Slice
  pub value : ℕ → Go H Slice
  pub next : ℕ → Go H (Unit {0})
  pub close : ℕ → Go H (Unit {0})

-- `GoAPI`: an address, its cost, and the text of the error if there is one.
pub record GoApi (H : Type 0) : Type 0 where
  pub human_address : Slice → Go H (Bytes × ℕ × Option Bytes)
  pub canonical_address : Bytes → Go H (Slice × ℕ × Option Bytes)
