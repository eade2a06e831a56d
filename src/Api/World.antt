-- ===== src/Api/World.antt =====
-- The state that the package `api` works on: its package-level tables (api/iterator.go), the heaps
-- that it shares with Rust, and what lies outside of it, of any type `H`.
use go_cosmwasm.Base.{ℕ, List}
use go_cosmwasm.Go.{Go}
use go_cosmwasm.Ffi.Memory.{Heap}

-- `dbCounter` and `iteratorStack`; an iterator is an interface value, known by a number.
pub record Tables : Type 0 where
  pub db_counter : ℕ
  pub iterator_stack : List (ℕ × List ℕ)

pub record World (H : Type 0) : Type 0 where
  pub tables : Tables
  pub heap : Heap
  pub host : H

module _ {H : Type 0} {A : Type 0} where
  abbrev pub on_tables : Go Tables A → Go (World H) A
  on_tables m w = let (r, t) = m w.tables in (r, record w { tables = t })

  abbrev pub on_heap : Go Heap A → Go (World H) A
  on_heap m w = let (r, h) = m w.heap in (r, record w { heap = h })

  abbrev pub on_host : Go H A → Go (World H) A
  on_host m w = let (r, h) = m w.host in (r, record w { host = h })
