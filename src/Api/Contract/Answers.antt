-- ===== src/Api/Contract/Answers.antt =====
-- A contract call that Rust answers, with a result or with an error: what it returns, and what it
-- leaves behind.
use go_cosmwasm.Base.{
  ℕ, ◌<◌, ◌^◌, ◌≡◌, refl, false, none, some, List, [], ◌∷◌, length, ◌==◌, if◌then◌else◌, arith,
}
use go_cosmwasm.Base.Dict.{lookup, erase}
use go_cosmwasm.Go.{Go, ok, pure, ◌>>=◌, Bytes, Slice}
use go_cosmwasm.Ffi.Memory.{Heap, Buffer, Ptr, null_buffer, from_vec, IsValid, Below-mono}
use go_cosmwasm.Ffi.Memory.Grown.{Grown, Grown-same}
use go_cosmwasm.Types.Errors.{Error}
use go_cosmwasm.Api.World.{World, on_heap}
use go_cosmwasm.Api.Host.{DbIterator}
use go_cosmwasm.Api.Iterator.{frame_of, close_all, start_contract, end_contract}
use go_cosmwasm.Api.Callbacks.{build_db_state}
use go_cosmwasm.Api.Library.{
  build_db, build_api, build_querier, Cache, Db, Reply, ContractFn, Library, deferring,
  error_with_message,
}
use go_cosmwasm.Api.Contract.{
  Returned, Environment, read_reply, in_frame, run_contract, instantiate, handle, migrate,
}
use go_cosmwasm.Api.Contract.Sending.{
  sent, sent_buffer, sent-IsValid, from_vec-next, from_vec-receive_vector,
}
use go_cosmwasm.Api.Contract.Leaving.{Leaves, sending-Leaves}
use go_cosmwasm.Api.Contract.Lifecycle.{next_counter}

-- The buffer of an empty vector, which goes with an error.
abbrev pub empty_result : Buffer
empty_result = record { ptr = Ptr.dangling; len = 0; cap = 0 }

-- How Rust ends a contract call: errno, and the bytes of the result or of the error's message.
abbrev pub reporting : {H : Type 0} → ℕ → ℕ → Bytes → Go (World H) (Reply Buffer)
reporting gas errno xs = do
  b ← on_heap (from_vec xs)
  pure (
      if errno == 0
      then record { res = b; errno = errno; gas_used = gas; errmsg = null_buffer }
      else record { res = empty_result; errno = errno; gas_used = gas; errmsg = b })

-- What the caller of the package `api` gets of it.
abbrev pub reported : ℕ → ℕ → Bytes → Returned
reported gas errno xs =
    if errno == 0
    then record { bytes = some xs; gas_used = gas; error = none }
    else record { bytes = none; gas_used = gas; error = some (Error.other xs) }

reporting-read_reply :
    {H : Type 0} (e : ℕ → Bytes) (gas errno : ℕ) (xs : Bytes) (w : World H)
    → IsValid w.heap
    → length xs < 2 ^ 31
    → (errno == 2) ≡ false
    → (reporting gas errno xs >>= read_reply e) w ≡ (
      ok (reported gas errno xs),
      record w { heap = record { next = (from_vec xs w.heap).1.next; blocks = w.heap.blocks } },
    )
unfolding from_vec read_reply error_with_message
reporting-read_reply e gas errno [] w v s n =
    ground (arith, n, from_vec-receive_vector [] w.heap v s)
reporting-read_reply e gas errno (x ∷ xs) w v s n =
    ground (arith, n, from_vec-receive_vector (x ∷ xs) w.heap v s)

-- The state once the frame of the call `c` is taken away and its iterators are closed.
abbrev pub frame_closed : {H : Type 0} → ℕ → World H → H → World H
frame_closed c t s = record t {
  tables = record t.tables { iterator_stack = erase c t.tables.iterator_stack };
  host = s;
}

abbrev pub frame_opened : {H : Type 0} → World H → World H
frame_opened w = record w { tables = record w.tables { db_counter = next_counter w } }

pub in_frame-Leaves :
    {H : Type 0} (d : DbIterator H) (e : ℕ → Bytes) (env : Environment H)
    (call : Db H → Go (World H) (Reply Buffer)) (gas errno : ℕ) (xs : Bytes) (given : List Bytes)
    (w t : World H) (s : H)
    → length xs < 2 ^ 31
    → (errno == 2) ≡ false
    → call
        (build_db (some (build_db_state env.store (next_counter w))) env.gas_meter)
        (frame_opened w)
      ≡ reporting gas errno xs t
    → Grown w.heap given t.heap
    → close_all d (frame_of (lookup (next_counter w) t.tables.iterator_stack)) t.host ≡ (ok tt, s)
    → Leaves
        (reported gas errno xs)
        given
        (in_frame d e env call)
        w
        (frame_closed (next_counter w) t s)
unfolding in_frame start_contract deferring end_contract
in_frame-Leaves d e env call gas errno xs given w t s small n run k closes =
    let more = from_vec-next xs t.heap in
    record {
      heap = record { next = (from_vec xs t.heap).1.next; blocks = t.heap.blocks };
      grown =
          Grown-same w.heap given t.heap _ k refl more
            (Below-mono t.heap.next _ t.heap.blocks more k.valid);
      ends = ground (arith, run, closes, reporting-read_reply e gas errno xs t k.valid small n);
    }

-- The heap with the three arguments lent, and the call of C on them.
abbrev pub lent : Slice → Slice → Slice → Heap → Heap
lent code_id params msg h = sent msg (sent params (sent code_id h))

abbrev pub called :
    {H : Type 0}
    → ContractFn H
    → Cache
    → Slice
    → Slice
    → Slice
    → Environment H
    → ℕ
    → Go (World H) (Reply Buffer)
called f cache code_id params msg env gas_limit w =
    f cache.ptr (sent_buffer code_id w.heap) (sent_buffer params (sent code_id w.heap))
      (sent_buffer msg (sent params (sent code_id w.heap)))
      (build_db (some (build_db_state env.store (next_counter w))) env.gas_meter)
      (build_api env.api) (build_querier env.querier) gas_limit
      (frame_opened (record w { heap = lent code_id params msg w.heap }))

-- Rust answers a call in the state `t`, whose heap has, before the answer, the blocks that it had and
-- one for each of `given`. Closing the iterators of the call's frame leaves the application's state `s`.
pub record Answered {H : Type 0} (d : DbIterator H) (f : ContractFn H) (cache : Cache)
    (code_id params msg : Slice) (env : Environment H) (gas_limit gas errno : ℕ) (xs : Bytes)
    (given : List Bytes) (w t : World H) (s : H) : Type 0 where
  pub ran : called f cache code_id params msg env gas_limit w ≡ reporting gas errno xs t
  pub grown : Grown (lent code_id params msg w.heap) given t.heap
  pub closes :
      close_all d (frame_of (lookup (next_counter w) t.tables.iterator_stack)) t.host ≡ (ok tt, s)

pub run_contract-Leaves :
    {H : Type 0} (d : DbIterator H) (e : ℕ → Bytes) (f : ContractFn H) (cache : Cache)
    (code_id params msg : Slice) (env : Environment H) (gas_limit gas errno : ℕ) (xs : Bytes)
    (given : List Bytes) (w t : World H) (s : H)
    → IsValid w.heap
    → length xs < 2 ^ 31
    → (errno == 2) ≡ false
    → Answered d f cache code_id params msg env gas_limit gas errno xs given w t s
    → Leaves
        (reported gas errno xs)
        given
        (run_contract d e f cache code_id params msg env gas_limit)
        w
        (frame_closed (next_counter w) t s)
unfolding run_contract
run_contract-Leaves d e f cache code_id params msg env gas_limit gas errno xs given w t s v small n
      a =
    let v1 = sent-IsValid code_id w.heap v in
    let v2 = sent-IsValid params _ v1 in
    sending-Leaves _ given code_id _ w _ v (
      sending-Leaves _ given params _ _ _ v1 (
        sending-Leaves _ given msg _ _ _ v2 (
          in_frame-Leaves d e env _ gas errno xs given
            (record w { heap = lent code_id params msg w.heap }) t s small n a.ran a.grown
            a.closes)))

-- When Rust answers Handle with fewer than 2^31 bytes, of a result or of a message with an errno other
-- than 2, and `Close` does not panic, Handle returns that result or that error with the gas. The call's
-- frame is gone, its iterators are closed, and of the blocks of either heap none is left but those
-- that Rust kept before its answer.
pub handle_clean :
    {H : Type 0} (d : DbIterator H) (lib : Library H) (cache : Cache) (code_id params msg : Slice)
    (env : Environment H) (gas_limit gas errno : ℕ) (xs : Bytes) (given : List Bytes)
    (w t : World H) (s : H)
    → IsValid w.heap
    → length xs < 2 ^ 31
    → (errno == 2) ≡ false
    → Answered d lib.handle cache code_id params msg env gas_limit gas errno xs given w t s
    → Leaves
        (reported gas errno xs)
        given
        (handle d lib cache code_id params msg env gas_limit)
        w
        (frame_closed (next_counter w) t s)
unfolding handle
handle_clean d lib = run_contract-Leaves d lib.errno_text lib.handle

-- When Rust answers Instantiate with fewer than 2^31 bytes, of a result or of a message with an errno other
-- than 2, and `Close` does not panic, Instantiate returns that result or that error with the gas. The call's
-- frame is gone, its iterators are closed, and of the blocks of either heap none is left but those
-- that Rust kept before its answer.
pub instantiate_clean :
    {H : Type 0} (d : DbIterator H) (lib : Library H) (cache : Cache) (code_id params msg : Slice)
    (env : Environment H) (gas_limit gas errno : ℕ) (xs : Bytes) (given : List Bytes)
    (w t : World H) (s : H)
    → IsValid w.heap
    → length xs < 2 ^ 31
    → (errno == 2) ≡ false
    → Answered d lib.instantiate cache code_id params msg env gas_limit gas errno xs given w t s
    → Leaves
        (reported gas errno xs)
        given
        (instantiate d lib cache code_id params msg env gas_limit)
        w
        (frame_closed (next_counter w) t s)
unfolding instantiate
instantiate_clean d lib = run_contract-Leaves d lib.errno_text lib.instantiate

-- When Rust answers Migrate with fewer than 2^31 bytes, of a result or of a message with an errno other
-- than 2, and `Close` does not panic, Migrate returns that result or that error with the gas. The call's
-- frame is gone, its iterators are closed, and of the blocks of either heap none is left but those
-- that Rust kept before its answer.
pub migrate_clean :
    {H : Type 0} (d : DbIterator H) (lib : Library H) (cache : Cache) (code_id params msg : Slice)
    (env : Environment H) (gas_limit gas errno : ℕ) (xs : Bytes) (given : List Bytes)
    (w t : World H) (s : H)
    → IsValid w.heap
    → length xs < 2 ^ 31
    → (errno == 2) ≡ false
    → Answered d lib.migrate cache code_id params msg env gas_limit gas errno xs given w t s
    → Leaves
        (reported gas errno xs)
        given
        (migrate d lib cache code_id params msg env gas_limit)
        w
        (frame_closed (next_counter w) t s)
unfolding migrate
migrate_clean d lib = run_contract-Leaves d lib.errno_text lib.migrate
