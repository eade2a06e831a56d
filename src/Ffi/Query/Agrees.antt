-- ===== src/Ffi/Query/Agrees.antt =====
-- The answers that a contract gets to its queries are the application's.
use go_cosmwasm.Base.{ℕ, ◌<◌, ◌^◌, ◌≡◌, refl, none, some, [], length, arith}
use go_cosmwasm.Go.{Go, Outcome, ok, panic, fault, pure, ◌>>=◌, Bytes, Slice}
use go_cosmwasm.Ffi.Memory.{Heap, IsValid, Buffer, consume}
use go_cosmwasm.Ffi.Status.{GoResult, FfiError, FfiResult, done, failed}
use go_cosmwasm.Ffi.Storage.{call_back, fresh_slots, value_of}
use go_cosmwasm.Ffi.Storage.Exchange.{Exchange, exchange, from_vec-receive_slice, value_of-consume}
use go_cosmwasm.Ffi.Storage.Refines.{panic_error, metered}
use go_cosmwasm.Ffi.Agreement.{Agrees}
use go_cosmwasm.Ffi.Query.{ResultJson, parse_result, query_raw}
use go_cosmwasm.Types.Queries.{
  Querier, QueryRequest, Decoded, decoded, malformed, rust_query, answer_query,
}
use go_cosmwasm.Api.World.{World, on_host}
use go_cosmwasm.Api.Memory.{allocate_rust, receive_slice}
use go_cosmwasm.Api.Callbacks.{Slots, panic_status}
use go_cosmwasm.Api.Callbacks.Query.{QueryJson, c_query_external}

-- A querier of the application's that stays outside of the package `api`: it runs no contract.
abbrev pub outside : {H : Type 0} → Querier H → Querier (World H)
outside q = record {
  query = λ request gas_limit. on_host (q.query request gas_limit);
  gas_consumed = on_host q.gas_consumed;
}

-- Its answer, encoded, with the gas that it shows before and after.
abbrev pub encoded_answer :
    {H : Type 0} → QueryJson → Querier H → Bytes → ℕ → Go H (Decoded Slice × ℕ)
encoded_answer json q request gas_limit =
    metered (record { gas_consumed = q.gas_consumed })
      (do
        r ← rust_query json.unmarshal_request q (some request) gas_limit
        pure (json.marshal_result r))

abbrev slice_bytes : Slice → Bytes
slice_bytes none = []
slice_bytes (some xs) = xs

-- What the machine is told of it.
abbrev pub heard :
    {H R : Type 0} → ResultJson R → Outcome (Decoded Slice × ℕ) × H → Outcome (FfiResult R × ℕ) × H
heard serde (ok (decoded bz, gas), s) =
    (ok (done (parse_result serde (slice_bytes bz) (serde.from_slice (slice_bytes bz))), gas), s)
heard serde (ok (malformed t, gas), s) = (ok (failed (FfiError.unknown (some t)), gas), s)
heard serde (panic p, s) = (ok (failed (panic_error (panic_status p)), 0), s)
heard serde (fault, s) = (fault, s)

-- What goes into the heap for it.
abbrev carried : {H : Type 0} → Outcome (Decoded Slice × ℕ) × H → Slice
carried (ok (decoded bz, gas), s) = bz
carried (ok (malformed t, gas), s) = some t
carried (panic p, s) = none
carried (fault, s) = none

abbrev responded :
    {H : Type 0} → Buffer → Outcome (Decoded Slice × ℕ) × H → Outcome (GoResult × Slots) × H
responded b (ok (decoded bz, gas), s) =
    (ok (GoResult.ok, record fresh_slots { used_gas = some gas; val = some b }), s)
responded b (ok (malformed t, gas), s) =
    (ok (GoResult.other, record fresh_slots { used_gas = some gas; err_out = some b }), s)
responded b (panic p, s) = (ok (panic_status p, fresh_slots), s)
responded b (fault, s) = (fault, s)

pub value_of-consume-none :
    (b : Buffer) (h h' : Heap) → value_of b h ≡ (ok none, h') → consume b h ≡ (ok [], h')
unfolding value_of consume
value_of-consume-none b h h' e = ground arith

-- A query once the callback's answer is known.
query-step :
    {H R : Type 0} (json : QueryJson) (serde : ResultJson R) (q : Querier (World H))
    (request : Bytes) (gas_limit : ℕ) (w : World H) (m : Outcome (Decoded Slice × ℕ) × H)
    (x : Exchange request (carried m) w.heap)
    → let (r, s) = responded x.got m in
      call_back fresh_slots
          (c_query_external json (some q) gas_limit x.sent)
          (record w { heap = x.after_send })
        ≡ (r, record w { host = s; heap = x.after_answer })
      → Agrees w (heard serde m) (query_raw json serde (some q) request gas_limit w)
unfolding query_raw panic_status value_of allocate_rust
query-step json serde q request gas_limit w (ok (decoded none, gas), s) x e = ground (
  arith,
  e,
  x.sends,
  x.answers,
  x.frees,
  value_of-consume-none x.got x.after_free x.after_take x.takes,
  x.same_blocks,
  x.grows,
  x.valid,
)
query-step json serde q request gas_limit w (ok (decoded (some bz), gas), s) x e = ground (
  arith,
  e,
  x.sends,
  x.answers,
  x.frees,
  value_of-consume x.got bz x.after_free x.after_take x.takes,
  x.same_blocks,
  x.grows,
  x.valid,
)
query-step json serde q request gas_limit w (ok (malformed t, gas), s) x e =
    ground (arith, e, x.sends, x.answers, x.frees, x.takes, x.same_blocks, x.grows, x.valid)
query-step json serde q request gas_limit w (panic p, s) x e =
    ground (arith, e, x.sends, x.answers, x.frees, x.takes, x.same_blocks, x.grows, x.valid)
query-step json serde q request gas_limit w (fault, s) x e = ground (arith, e, x.sends)

pub answer_query-outside :
    {H : Type 0} (q : Querier H) (gas_limit : ℕ) (d : Decoded QueryRequest) (w : World H)
    → answer_query (outside q) gas_limit d w ≡ on_host (answer_query q gas_limit d) w
unfolding answer_query
answer_query-outside q gas_limit (malformed t) w = refl
answer_query-outside q gas_limit (decoded r) w = ground arith

c_query_external-responded :
    {H : Type 0} (json : QueryJson) (q : Querier H) (request : Bytes) (gas_limit : ℕ) (w : World H)
    (m : Outcome (Decoded Slice × ℕ) × H) (x : Exchange request (carried m) w.heap)
    → receive_slice x.sent x.after_send ≡ (ok (some request), x.after_send)
    → encoded_answer json q request gas_limit w.host ≡ m
    → let (r, s) = responded x.got m in
      call_back fresh_slots
        (c_query_external json (some (outside q)) gas_limit x.sent)
        (record w { heap = x.after_send })
      ≡ (r, record w { host = s; heap = x.after_answer })
unfolding c_query_external call_back panic_status allocate_rust rust_query
c_query_external-responded json q request gas_limit w (ok (decoded bz, gas), s) x k e = ground (
  arith,
  k,
  e,
  x.answers,
  answer_query-outside q gas_limit (json.unmarshal_request (some request)),
)
c_query_external-responded json q request gas_limit w (ok (malformed t, gas), s) x k e = ground (
  arith,
  k,
  e,
  x.answers,
  answer_query-outside q gas_limit (json.unmarshal_request (some request)),
)
c_query_external-responded json q request gas_limit w (panic p, s) x k e = ground (
  arith,
  k,
  e,
  x.answers,
  answer_query-outside q gas_limit (json.unmarshal_request (some request)),
)
c_query_external-responded json q request gas_limit w (fault, s) x k e = ground (
  arith,
  k,
  e,
  x.answers,
  answer_query-outside q gas_limit (json.unmarshal_request (some request)),
)

-- The answer that a contract gets to a query of fewer than 2^31 bytes is that of the application's
-- querier, encoded and read back, with its gas; a failure to encode it and a panic are errors. No block
-- is left allocated. The querier is one that runs no contract.
pub query_raw-Agrees :
    {H R : Type 0} (json : QueryJson) (serde : ResultJson R) (q : Querier H) (request : Bytes)
    (gas_limit : ℕ) (w : World H)
    → IsValid w.heap
    → length request < 2 ^ 31
    → Agrees w
        (heard serde (encoded_answer json q request gas_limit w.host))
        (query_raw json serde (some (outside q)) request gas_limit w)
query_raw-Agrees json serde q request gas_limit w v s =
    let m = encoded_answer json q request gas_limit w.host in
    let x = exchange request (carried m) w.heap v in
    query-step json serde (outside q) request gas_limit w m x (
      c_query_external-responded json q request gas_limit w m x
        (from_vec-receive_slice request w.heap s x.sends) refl)
