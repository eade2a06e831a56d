-- ===== src/Api/Contract.antt =====
-- Instantiate, Handle, Migrate and Query of api/lib.go.
pub mod Lifecycle
pub mod Lent
pub mod Sending
pub mod Leaving
pub mod Answers
pub mod Sparing
pub mod Buffers
pub mod Arguments
pub mod Closing
pub mod Application
pub mod Whole
pub mod Refused
pub mod Asked
pub mod Depleted
pub mod Callee
pub mod Nested
pub mod Reentrant
use go_cosmwasm.Base.{ℕ, Option, none, some, ◌==◌, if◌then◌else◌}
use go_cosmwasm.Go.{Go, pure, ◌>>=◌, ◌>>◌, Bytes, Slice}
use go_cosmwasm.Ffi.Memory.{Buffer}
use go_cosmwasm.Types.Errors.{Error}
use go_cosmwasm.Types.Queries.{Querier}
use go_cosmwasm.Api.World.{World, on_tables, on_heap}
use go_cosmwasm.Api.Host.{GasMeter, GoApi, KvStore, DbIterator}
use go_cosmwasm.Api.Memory.{send_slice, receive_vector, free_after_send}
use go_cosmwasm.Api.Iterator.{start_contract, end_contract}
use go_cosmwasm.Api.Callbacks.{build_db_state}
use go_cosmwasm.Api.Library.{
  Cache, Db, ApiRef, QuerierRef, build_db, build_api, build_querier, Reply, ContractFn, QueryFn,
  Library, deferring, error_with_message,
}

-- ([]byte, uint64, error)
pub record Returned : Type 0 where
  pub bytes : Slice
  pub gas_used : ℕ
  pub error : Option Error

-- What the application passes for one contract.
pub record Environment (H : Type 0) : Type 0 where
  pub gas_meter : Option (GasMeter H)
  pub store : KvStore H
  pub api : Option (GoApi H)
  pub querier : Option (Querier (World H))

module _ {H : Type 0} where
  -- The end of the four functions: the error, or the bytes of the result.
  unfoldable pub read_reply : (ℕ → Bytes) → Reply Buffer → Go (World H) Returned
  unfolding error_with_message
  read_reply errno_text r =
      if r.errno == 0
      then (do
        data' ← on_heap (receive_vector r.res)
        pure (record { bytes = data'; gas_used = r.gas_used; error = none }))
      else (do
        e ← on_heap (error_with_message errno_text r.errno r.errmsg)
        pure (record { bytes = none; gas_used = r.gas_used; error = some e }))

  -- `x := sendSlice(s)` and `defer freeAfterSend(x)`, around the rest of the function.
  unfoldable pub sending : {A : Type 0} → Slice → (Buffer → Go (World H) A) → Go (World H) A
  unfolding deferring
  sending x body = do b ← on_heap (send_slice x); deferring (on_heap (free_after_send b)) (body b)

  -- From `startContract` on: the call stands between the two ends of its frame.
  unfoldable pub in_frame :
      DbIterator H
      → (ℕ → Bytes)
      → Environment H
      → (Db H → Go (World H) (Reply Buffer))
      → Go (World H) Returned
  unfolding deferring build_db_state build_db
  in_frame d errno_text env call = do
    counter ← on_tables start_contract
    deferring (end_contract d counter) (
        call (build_db (some (build_db_state env.store counter)) env.gas_meter)
        >>= read_reply errno_text)

  -- The body that Instantiate, Handle and Migrate share.
  unfoldable pub run_contract :
      DbIterator H
      → (ℕ → Bytes)
      → ContractFn H
      → Cache
      → Slice
      → Slice
      → Slice
      → Environment H
      → ℕ
      → Go (World H) Returned
  unfolding build_api build_querier
  run_contract d errno_text c_fn cache code_id params msg env gas_limit = sending code_id λ id.
      sending params λ p. sending msg λ m.
        in_frame d errno_text env
          λ db. c_fn cache.ptr id p m db (build_api env.api) (build_querier env.querier) gas_limit

  -- `Instantiate`
  unfoldable pub instantiate :
      DbIterator H
      → Library H
      → Cache
      → Slice
      → Slice
      → Slice
      → Environment H
      → ℕ
      → Go (World H) Returned
  unfolding run_contract
  instantiate d lib = run_contract d lib.errno_text lib.instantiate

  -- `Handle`
  unfoldable pub handle :
      DbIterator H
      → Library H
      → Cache
      → Slice
      → Slice
      → Slice
      → Environment H
      → ℕ
      → Go (World H) Returned
  unfolding run_contract
  handle d lib = run_contract d lib.errno_text lib.handle

  -- `Migrate`
  unfoldable pub migrate :
      DbIterator H
      → Library H
      → Cache
      → Slice
      → Slice
      → Slice
      → Environment H
      → ℕ
      → Go (World H) Returned
  unfolding run_contract
  migrate d lib = run_contract d lib.errno_text lib.migrate

  -- `Query`
  unfoldable pub query :
      DbIterator H → Library H → Cache → Slice → Slice → Environment H → ℕ → Go (World H) Returned
  unfolding build_api build_querier
  query d lib cache code_id msg env gas_limit = sending code_id λ id. sending msg λ m.
      in_frame d lib.errno_text env
        λ db. lib.query cache.ptr id m db (build_api env.api) (build_querier env.querier) gas_limit
