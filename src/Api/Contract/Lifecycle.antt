-- ===== src/Api/Contract/Lifecycle.antt =====
-- The frame of a contract call is gone when the call is over, however the Rust library ends it.
use go_cosmwasm.Base.{ℕ, ◌+◌, ◌%◌, ◌≡◌, length, none, some, ◌⊎◌, u64_mod, arith}
use go_cosmwasm.Base.Dict.{lookup}
use go_cosmwasm.Go.{Go, fault, ◌>>=◌, Slice, Bytes}
use go_cosmwasm.Ffi.Memory.{Heap, Buffer, Ptr, null_buffer, alloc, malloced}
use go_cosmwasm.Api.World.{World, on_heap}
use go_cosmwasm.Api.Host.{DbIterator}
use go_cosmwasm.Api.Memory.{send_slice, free_after_send}
use go_cosmwasm.Api.Iterator.{start_contract, end_contract}
use go_cosmwasm.Api.Iterator.Laws.{end_contract_frames}
use go_cosmwasm.Api.Callbacks.{build_db_state}
use go_cosmwasm.Api.Library.{build_db, Cache, Db, Reply, ContractFn, Library, deferring}
use go_cosmwasm.Api.Contract.{
  Environment, sending, read_reply, in_frame, run_contract, instantiate, handle, migrate, query,
}

-- A computation from `w` ends with no frame for the call `c`, or has corrupted memory.
pub record Closes {H A : Type 0} (c : ℕ) (m : Go (World H) A) (w : World H) : Type 0 where
  pub closed : ((m w).0 ≡ fault) ⊎ (lookup c (m w).1.tables.iterator_stack ≡ none)

deferring-Closes :
    {H A : Type 0} (c : ℕ) (b : Buffer) (m : Go (World H) A) (w : World H)
    → Closes c m w
    → Closes c (deferring (on_heap (free_after_send b)) m) w
unfolding deferring
deferring-Closes c b m w h = record { closed = ground (arith, h.closed) }

sending-Closes :
    {H A : Type 0} (c : ℕ) (x : Slice) (k : Buffer → Go (World H) A) (w : World H)
    → ((b : Buffer) (h : Heap) → Closes c (k b) (record w { heap = h }))
    → Closes c (sending x k) w
unfolding sending send_slice
sending-Closes c none k w h = record {
  closed = (deferring-Closes c null_buffer (k null_buffer) w (h null_buffer w.heap)).closed;
}
sending-Closes c (some xs) k w h = record {
  closed =
      let b : Buffer = record { ptr = Ptr.at w.heap.next; len = length xs; cap = length xs } in
      (deferring-Closes c b (k b) (record w { heap = (alloc malloced xs w.heap).1 })
        (h b (alloc malloced xs w.heap).1)).closed;
}

-- The counter that the next call gets.
abbrev pub next_counter : {H : Type 0} → World H → ℕ
next_counter w = (w.tables.db_counter + 1) % u64_mod

end_contract-Closes :
    {H A : Type 0} (d : DbIterator H) (c : ℕ) (m : Go (World H) A) (w : World H)
    → Closes c (deferring (end_contract d c) m) w
unfolding deferring
end_contract-Closes d c m w = record { closed = ground (arith, end_contract_frames d c c (m w).1) }

in_frame-Closes :
    {H : Type 0} (d : DbIterator H) (t : ℕ → Bytes) (env : Environment H)
    (call : Db H → Go (World H) (Reply Buffer)) (w : World H)
    → Closes (next_counter w) (in_frame d t env call) w
unfolding in_frame start_contract
in_frame-Closes d t env call w =
    let c : ℕ = next_counter w in
    let started : World _ = record w { tables = record w.tables { db_counter = c } } in
    let db : Db _ = build_db (some (build_db_state env.store c)) env.gas_meter in
    record { closed = (end_contract-Closes d c (call db >>= read_reply t) started).closed }

run_contract-Closes :
    {H : Type 0} (d : DbIterator H) (t : ℕ → Bytes) (f : ContractFn H) (cache : Cache)
    (code_id params msg : Slice) (env : Environment H) (gas_limit : ℕ) (w : World H)
    → Closes (next_counter w) (run_contract d t f cache code_id params msg env gas_limit) w
unfolding run_contract
run_contract-Closes d t f cache code_id params msg env gas_limit w =
    sending-Closes _ code_id _ w λ id h1.
      sending-Closes _ params _ _
        λ p h2. sending-Closes _ msg _ _ λ m h3. in_frame-Closes d t env _ _

-- However the Rust library ends a call of Instantiate, Handle or Migrate, an error or a panic of
-- `Close` included, the frame of the call's counter is gone afterwards (or memory is corrupted).
pub contract_frame_closed :
    {H : Type 0} (d : DbIterator H) (lib : Library H) (cache : Cache) (code_id params msg : Slice)
    (env : Environment H) (gas_limit : ℕ) (w : World H)
    → Closes (next_counter w) (instantiate d lib cache code_id params msg env gas_limit) w
      × Closes (next_counter w) (handle d lib cache code_id params msg env gas_limit) w
      × Closes (next_counter w) (migrate d lib cache code_id params msg env gas_limit) w
unfolding instantiate handle migrate
contract_frame_closed d lib cache code_id params msg env gas_limit w = (
  run_contract-Closes d lib.errno_text lib.instantiate cache code_id params msg env gas_limit w,
  run_contract-Closes d lib.errno_text lib.handle cache code_id params msg env gas_limit w,
  run_contract-Closes d lib.errno_text lib.migrate cache code_id params msg env gas_limit w,
)

-- However the Rust library ends a call of Query, the frame of the call's counter is gone afterwards
-- (or memory is corrupted).
pub query_frame_closed :
    {H : Type 0} (d : DbIterator H) (lib : Library H) (cache : Cache) (code_id msg : Slice)
    (env : Environment H) (gas_limit : ℕ) (w : World H)
    → Closes (next_counter w) (query d lib cache code_id msg env gas_limit) w
unfolding query
query_frame_closed d lib cache code_id msg env gas_limit w =
    sending-Closes _ code_id _ w
      λ id h1. sending-Closes _ msg _ _ λ m h2. in_frame-Closes d lib.errno_text env _ _
