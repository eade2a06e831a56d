-- ===== src/Api/Contract/Buffers.antt =====
-- The buffers that a contract call lends to Rust are given back to malloc's heap, on every path.
use go_cosmwasm.Base.{ℕ, ◌+◌, ◌%◌, u64_mod, ◌≡◌, ◌∙◌, ap, Option, some, inl, inr, arith}
use go_cosmwasm.Go.{Go, fault, ◌>>=◌, Slice, Bytes}
use go_cosmwasm.Ffi.Memory.{Buffer, IsValid}
use go_cosmwasm.Ffi.Query.Sparing.{SparingQuerier}
use go_cosmwasm.Api.World.{World}
use go_cosmwasm.Api.Host.{DbIterator}
use go_cosmwasm.Api.Iterator.{start_contract, end_contract}
use go_cosmwasm.Api.Callbacks.{build_db_state}
use go_cosmwasm.Api.Library.{
  build_db, build_querier, Cache, Db, ApiRef, QuerierRef, Reply, ContractFn, Library, deferring,
}
use go_cosmwasm.Api.Contract.{
  Returned, Environment, read_reply, in_frame, run_contract, instantiate, handle, migrate,
}
use go_cosmwasm.Api.Contract.Lent.{malloc_at, Keeps, read_reply-Keeps, sending-Keeps}

-- A function of the Rust library that neither frees a block of malloc's nor makes one, if the querier
-- that it is given does not, or corrupts memory.
abbrev pub LeavesMalloc : {H : Type 0} → ContractFn H → Type 0
LeavesMalloc {H} f =
    (cache : Option ℕ) (id p m : Buffer) (db : Db H) (a : ApiRef H) (q : QuerierRef H) (gas : ℕ)
    (w : World H)
    → SparingQuerier q.state
    → IsValid w.heap
    → Keeps (f cache id p m db a q gas) w

end_contract-heap :
    {H : Type 0} (d : DbIterator H) (c : ℕ) (w : World H) → (end_contract d c w).1.heap ≡ w.heap
unfolding end_contract
end_contract-heap d c w = ground arith

ending-heap :
    {H A : Type 0} (d : DbIterator H) (c : ℕ) (m : Go (World H) A) (w : World H)
    → (deferring (end_contract d c) m w).1.heap ≡ (m w).1.heap
unfolding deferring
ending-heap d c m w = ground (arith, end_contract-heap d c (m w).1)

reply-malloc_at :
    {H : Type 0} (t : ℕ → Bytes) (call : Go (World H) (Reply Buffer)) (w : World H) (p : ℕ)
    → malloc_at p (call w).1.heap ≡ malloc_at p w.heap
    → malloc_at p ((call >>= read_reply t) w).1.heap ≡ malloc_at p w.heap
reply-malloc_at t call w p h = grind (arith, read_reply-Keeps)

ending-fault :
    {H A : Type 0} (d : DbIterator H) (c : ℕ) (m : Go (World H) A) (w : World H)
    → (m w).0 ≡ fault
    → (deferring (end_contract d c) m w).0 ≡ fault
unfolding deferring
ending-fault d c m w e = ground (arith, e)

reply-fault :
    {H : Type 0} (t : ℕ → Bytes) (call : Go (World H) (Reply Buffer)) (w : World H)
    → (call w).0 ≡ fault
    → ((call >>= read_reply t) w).0 ≡ fault
reply-fault t call w e = ground (arith, e)

in_frame-Keeps :
    {H : Type 0} (d : DbIterator H) (t : ℕ → Bytes) (env : Environment H)
    (call : Db H → Go (World H) (Reply Buffer)) (w : World H)
    → ((db : Db H) (v : World H) → IsValid v.heap → Keeps (call db) v)
    → IsValid w.heap
    → Keeps (in_frame d t env call) w
unfolding in_frame start_contract
in_frame-Keeps d t env call w h valid =
    let c : ℕ = (w.tables.db_counter + 1) % u64_mod in
    let started : World _ = record w { tables = record w.tables { db_counter = c } } in
    let db : Db _ = build_db (some (build_db_state env.store c)) env.gas_meter in
    let body : Go (World _) Returned = call db >>= read_reply t in
    record {
      kept = elim (h db started valid).kept [
        | inl bad ↦ inl (ending-fault d c body started (reply-fault t (call db) started bad))
        | inr same ↦ inr λ p.
            ap (malloc_at p) (ending-heap d c body started)
            ∙ reply-malloc_at t (call db) started p (same p)
      ];
    }

run_contract-Keeps :
    {H : Type 0} (d : DbIterator H) (t : ℕ → Bytes) (f : ContractFn H) (cache : Cache)
    (code_id params msg : Slice) (env : Environment H) (gas_limit : ℕ) (w : World H)
    → LeavesMalloc f
    → SparingQuerier env.querier
    → IsValid w.heap
    → Keeps (run_contract d t f cache code_id params msg env gas_limit) w
unfolding run_contract build_querier
run_contract-Keeps d t f cache code_id params msg env gas_limit w leaves q v =
    sending-Keeps code_id _ w v λ id h1 v1. sending-Keeps params _ _ v1 λ p h2 v2.
      sending-Keeps msg _ _ v2 λ m h3 v3.
        in_frame-Keeps d t env _ _
          (λ db u valid. leaves cache.ptr id p m db _ _ gas_limit u q valid) v3

-- If the functions of the Rust library neither free a block of malloc's nor make one, as long as the
-- querier that they call does not, and the application's querier does not, then neither do
-- Instantiate, Handle and Migrate: each buffer that they lend is freed, on every path (or memory is
-- corrupted).
pub contract_buffers_freed :
    {H : Type 0} (d : DbIterator H) (lib : Library H) (cache : Cache) (code_id params msg : Slice)
    (env : Environment H) (gas_limit : ℕ) (w : World H)
    → LeavesMalloc lib.instantiate
    → LeavesMalloc lib.handle
    → LeavesMalloc lib.migrate
    → SparingQuerier env.querier
    → IsValid w.heap
    → Keeps (instantiate d lib cache code_id params msg env gas_limit) w
      × Keeps (handle d lib cache code_id params msg env gas_limit) w
      × Keeps (migrate d lib cache code_id params msg env gas_limit) w
unfolding instantiate handle migrate
contract_buffers_freed d lib cache code_id params msg env gas_limit w i h m q v = (
  run_contract-Keeps d lib.errno_text lib.instantiate cache code_id params msg env gas_limit w i q
      v,
  run_contract-Keeps d lib.errno_text lib.handle cache code_id params msg env gas_limit w h q v,
  run_contract-Keeps d lib.errno_text lib.migrate cache code_id params msg env gas_limit w m q v,
)
