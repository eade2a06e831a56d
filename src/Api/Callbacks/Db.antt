-- ===== src/Api/Callbacks/Db.antt =====
-- cGet, cSet and cDelete of api/callbacks.go.
use go_cosmwasm.Base.{Option, none, some, ◌||◌, if◌then◌else◌, is_null}
use go_cosmwasm.Go.{Go, ok, pure, ◌>>=◌, ◌>>◌, Slice}
use go_cosmwasm.Ffi.Memory.{Buffer}
use go_cosmwasm.Ffi.Status.{GoResult}
use go_cosmwasm.Api.Host.{GasMeter}
use go_cosmwasm.Api.Memory.{allocate_rust, receive_slice}
use go_cosmwasm.Api.Callbacks.{
  Callback, DbState, recover_panic, with_heap, with_host, write_used_gas, write_val, gas_between,
}

module _ {H : Type 0} where
  -- `if v != nil { *val = allocateRust(v) }`
  unfoldable pub write_found : Slice → Go (Callback H) (Unit {0})
  write_found none c = (ok tt, c)
  write_found (some xs) c = (do write_val (← with_heap (allocate_rust (some xs)))) c

  unfoldable pub get_body :
      Option (DbState H) → Option (GasMeter H) → Buffer → Go (Callback H) GoResult
  unfolding write_found
  get_body (some db) (some gm) key c =
      if is_null c.slots.used_gas || is_null c.slots.val
      then (ok GoResult.bad_argument, c)
      else (do
        k ← with_heap (receive_slice key)
        before ← with_host gm.gas_consumed
        v ← with_host (db.store.get k)
        after ← with_host gm.gas_consumed
        write_used_gas (gas_between before after)
        write_found v
        pure GoResult.ok)
          c
  get_body _ _ key c = (ok GoResult.bad_argument, c)

  -- `cGet`
  unfoldable pub c_get :
      Option (DbState H) → Option (GasMeter H) → Buffer → Go (Callback H) GoResult
  unfolding get_body recover_panic
  c_get ptr gm key = recover_panic (get_body ptr gm key)

  unfoldable pub set_body :
      Option (DbState H) → Option (GasMeter H) → Buffer → Buffer → Go (Callback H) GoResult
  set_body (some db) (some gm) key val c =
      if is_null c.slots.used_gas
      then (ok GoResult.bad_argument, c)
      else (do
        k ← with_heap (receive_slice key)
        v ← with_heap (receive_slice val)
        before ← with_host gm.gas_consumed
        with_host (db.store.set k v)
        after ← with_host gm.gas_consumed
        write_used_gas (gas_between before after)
        pure GoResult.ok)
          c
  set_body _ _ key val c = (ok GoResult.bad_argument, c)

  -- `cSet`
  unfoldable pub c_set :
      Option (DbState H) → Option (GasMeter H) → Buffer → Buffer → Go (Callback H) GoResult
  unfolding set_body recover_panic
  c_set ptr gm key val = recover_panic (set_body ptr gm key val)

  unfoldable pub delete_body :
      Option (DbState H) → Option (GasMeter H) → Buffer → Go (Callback H) GoResult
  delete_body (some db) (some gm) key c =
      if is_null c.slots.used_gas
      then (ok GoResult.bad_argument, c)
      else (do
        k ← with_heap (receive_slice key)
        before ← with_host gm.gas_consumed
        with_host (db.store.delete k)
        after ← with_host gm.gas_consumed
        write_used_gas (gas_between before after)
        pure GoResult.ok)
          c
  delete_body _ _ key c = (ok GoResult.bad_argument, c)

  -- `cDelete`
  unfoldable pub c_delete :
      Option (DbState H) → Option (GasMeter H) → Buffer → Go (Callback H) GoResult
  unfolding delete_body recover_panic
  c_delete ptr gm key = recover_panic (delete_body ptr gm key)
