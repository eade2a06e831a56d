-- ===== src/Tests/Mock.antt =====
-- A store with a gas meter, after api/mock_test.go: every operation of the store costs gas, and
-- panics once the limit is passed.
use go_cosmwasm.Base.{
  ℕ, ◌+◌, Bool, true, false, none, some, List, [], ◌∷◌, ◌==◌, ◌&&◌, leb, if◌then◌else◌,
}
use go_cosmwasm.Go.{Go, ok, panic, pure, ◌>>◌, Panic, Bytes, Slice}
use go_cosmwasm.Ffi.Memory.{Heap}
use go_cosmwasm.Api.World.{World}
use go_cosmwasm.Api.Host.{GasMeter, KvStore, DbIterator}
use go_cosmwasm.Api.Callbacks.{DbState}

pub record Mock : Type 0 where
  pub limit : ℕ
  pub consumed : ℕ
  pub pairs : List (Bytes × Bytes)

abbrev pub out_of_gas : Panic
out_of_gas = record { type_name = "ErrorOutOfGas" }

abbrev pub same_bytes : Bytes → Bytes → Bool
same_bytes [] [] = true
same_bytes (x ∷ xs) (y ∷ ys) = x == y && same_bytes xs ys
same_bytes _ _ = false

abbrev pub find : Bytes → List (Bytes × Bytes) → Slice
find k [] = none
find k ((j, v) ∷ d) = if same_bytes j k then some v else find k d

abbrev pub bytes_in : Slice → Bytes
bytes_in none = []
bytes_in (some xs) = xs

abbrev pub consume_gas : ℕ → Go Mock (Unit {0})
consume_gas n m =
    let spent : Mock = record m { consumed = m.consumed + n } in
    if leb spent.consumed m.limit then (ok tt, spent) else (panic out_of_gas, spent)

abbrev pub mock_meter : GasMeter Mock
mock_meter = record { gas_consumed = λ m. (ok m.consumed, m) }

abbrev pub mock_store : KvStore Mock
mock_store = record {
  get = λ k. consume_gas 99000 >> λ m. (ok (find (bytes_in k) m.pairs), m);
  set = λ k v.
      consume_gas 187000 >> λ m. (ok tt, record m { pairs = (bytes_in k, bytes_in v) ∷ m.pairs });
  delete = λ k. consume_gas 142000;
  iterator = λ s e. consume_gas 261000 >> pure 1;
  reverse_iterator = λ s e. consume_gas 261000 >> pure 2;
}

abbrev pub mock_db : DbState Mock
mock_db = record { store = mock_store; iterator_stack_id = 1 }

abbrev pub empty_heap : Heap
empty_heap = record { next = 0; blocks = [] }

abbrev pub mock_world : World Mock
mock_world = record {
  tables = record { db_counter = 1; iterator_stack = (1, 7 ∷ []) ∷ [] };
  heap = empty_heap;
  host = record { limit = 300000; consumed = 1000; pairs = (1 ∷ 2 ∷ [], 9 ∷ []) ∷ [] };
}

-- Closing an iterator of the mock costs nothing.
abbrev pub mock_iterators : DbIterator Mock
mock_iterators = record {
  valid = λ it. pure false;
  key = λ it. pure none;
  value = λ it. pure none;
  next = λ it. pure tt;
  close = λ it. pure tt;
}
