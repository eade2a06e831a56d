-- ===== src/Api/Callbacks.antt =====
-- api/callbacks.go: what the exported callbacks share. A callback runs on the world, and writes to
-- the variables that its pointer arguments lead to; `none` is a null pointer.
pub mod Db
pub mod Scan
pub mod Address
pub mod Query
use Prim.Native.Nat.{◌+◌, ◌-◌, ◌%◌}
use text.Mathlib.Text.{◌==◌ as str_eq}
use go_cosmwasm.Base.{ℕ, Bool, Option, none, some, if◌then◌else◌, u64_mod}
use go_cosmwasm.Go.{Go, Outcome, ok, panic, fault, Panic, error_string}
use go_cosmwasm.Ffi.Memory.{Heap, Buffer}
use go_cosmwasm.Ffi.Status.{GoResult}
use go_cosmwasm.Api.World.{Tables, World, on_tables, on_heap, on_host}
use go_cosmwasm.Api.Host.{KvStore}

-- `C.iterator_t`
pub record IteratorRef : Type 0 where
  pub db_counter : ℕ
  pub iterator_index : ℕ

-- The part of `C.GoIter` that Go fills in: `state`, and whether `vtable` holds `cNext`.
pub record GoIter : Type 0 where
  pub state : IteratorRef
  pub vtable : Bool

-- The out-parameters. `val` is also `human`, `canon` and `result`.
pub record Slots : Type 0 where
  pub used_gas : Option ℕ
  pub key : Option Buffer
  pub val : Option Buffer
  pub err_out : Option Buffer
  pub iter : Option GoIter

pub record Callback (H : Type 0) : Type 0 where
  pub slots : Slots
  pub world : World H

-- `DBState`
pub record DbState (H : Type 0) : Type 0 where
  pub store : KvStore H
  pub iterator_stack_id : ℕ

-- `buildDBState`
unfoldable pub build_db_state : {H : Type 0} → KvStore H → ℕ → DbState H
build_db_state kv counter = record { store = kv; iterator_stack_id = counter }

-- The status for a panic, by the name of the type of its value.
unfoldable pub panic_status : Panic → GoResult
panic_status p = if str_eq p.type_name "ErrorOutOfGas" then GoResult.out_of_gas else GoResult.panic

-- `defer recoverPanic(&ret)`
unfoldable pub recover_panic : {S : Type 0} → Go S GoResult → Go S GoResult
recover_panic m s =
    let (r, s') = m s in
    elim r [
      | ok status ↦ (ok status, s')
      | panic p ↦ (ok (panic_status p), s')
      | fault ↦ (fault, s')
    ]

module _ {H : Type 0} {A : Type 0} where
  abbrev pub in_world : Go (World H) A → Go (Callback H) A
  in_world m c = let (r, w) = m c.world in (r, record c { world = w })

  abbrev pub with_tables : Go Tables A → Go (Callback H) A
  with_tables m = in_world (on_tables m)

  abbrev pub with_heap : Go Heap A → Go (Callback H) A
  with_heap m = in_world (on_heap m)

  abbrev pub with_host : Go H A → Go (Callback H) A
  with_host m = in_world (on_host m)

-- `*p = v`: a write through a null pointer panics.
module _ {H : Type 0} where
  abbrev pub write_used_gas : ℕ → Go (Callback H) (Unit {0})
  write_used_gas g c = elim c.slots.used_gas [
    | none ↦ (panic error_string, c)
    | some _ ↦ (ok tt, record c { slots = record c.slots { used_gas = some g } })
  ]

  abbrev pub write_key : Buffer → Go (Callback H) (Unit {0})
  write_key b c = elim c.slots.key [
    | none ↦ (panic error_string, c)
    | some _ ↦ (ok tt, record c { slots = record c.slots { key = some b } })
  ]

  abbrev pub write_val : Buffer → Go (Callback H) (Unit {0})
  write_val b c = elim c.slots.val [
    | none ↦ (panic error_string, c)
    | some _ ↦ (ok tt, record c { slots = record c.slots { val = some b } })
  ]

  abbrev pub write_err_out : Buffer → Go (Callback H) (Unit {0})
  write_err_out b c = elim c.slots.err_out [
    | none ↦ (panic error_string, c)
    | some _ ↦ (ok tt, record c { slots = record c.slots { err_out = some b } })
  ]

  abbrev pub write_iter : GoIter → Go (Callback H) (Unit {0})
  write_iter i c = elim c.slots.iter [
    | none ↦ (panic error_string, c)
    | some _ ↦ (ok tt, record c { slots = record c.slots { iter = some i } })
  ]

-- `gasAfter - gasBefore`, of two uint64.
abbrev pub gas_between : ℕ → ℕ → ℕ
gas_between before after = (after + u64_mod - before) % u64_mod
