-- ===== src/Api/Contract/Reentrant.antt =====
-- Queriers that answer with the queries of other contracts: a call of Query of api/lib.go within a call.
use go_cosmwasm.Base.{
  ℕ, ◌+◌, ◌<◌, ◌^◌, ◌%◌, ◌≡◌, refl, ap, Option, none, some, [], length, u64_mod, arith,
}
use go_cosmwasm.Base.Dict.{Within}
use go_cosmwasm.Go.{Go, ok, pure, ◌>>=◌, Bytes, Slice}
use go_cosmwasm.Ffi.Memory.{IsValid}
use go_cosmwasm.Ffi.Memory.Grown.{Grown-refl}
use go_cosmwasm.Ffi.Lockstep.{Abreast, Abreast-const, Abreast-bind}
use go_cosmwasm.Ffi.Machine.{Vm}
use go_cosmwasm.Ffi.Query.{ResultJson, query_raw}
use go_cosmwasm.Ffi.Query.Agrees.{encoded_answer, heard}
use go_cosmwasm.Ffi.Query.Realises.{Effect, Asks, Follows, Echoes, Realises}
use go_cosmwasm.Ffi.Query.Echoing.{query_raw-Echoes}
use go_cosmwasm.Types.Errors.{Error}
use go_cosmwasm.Types.Queries.{
  Querier, QueryRequest, QuerierResult, Decoded, decoded, malformed, rust_query, answer_query,
  to_querier_result,
}
use go_cosmwasm.Api.World.{Tables, World, on_host}
use go_cosmwasm.Api.Host.{DbIterator}
use go_cosmwasm.Api.Callbacks.{gas_between}
use go_cosmwasm.Api.Callbacks.Query.{QueryJson}
use go_cosmwasm.Api.Contract.Callee.{Callee, Room, at_effect, callee_answer, Callable, calling}
use go_cosmwasm.Api.Contract.Nested.{host-Abreast, callee-Abreast}

module _ {H I R : Type 0} (it : DbIterator H) (vm : Vm H I) (cache : ℕ) where
  -- What answers a request: a contract, or another part of the application.
  abbrev pub answered :
      Option (Callee H I R) → Querier H → QueryRequest → ℕ → Go (World H) (Slice × Option Error)
  answered none q request gas_limit = on_host (q.query request gas_limit)
  answered (some c) q request gas_limit = do
    r ← calling it vm cache c gas_limit
    pure (r.bytes, r.error)

  abbrev pub contract_querier :
      (QueryRequest → Option (Callee H I R)) → Querier H → Querier (World H)
  contract_querier route q = record {
    query = λ request gas_limit. answered (route request) q request gas_limit;
    gas_consumed = on_host q.gas_consumed;
  }

  -- The same on the application alone, from the counter `n` on.
  abbrev pub answered_directly :
      Option (Callee H I R)
      → Querier H
      → ℕ
      → QueryRequest
      → ℕ
      → Go (Effect H) (Slice × Option Error)
  answered_directly none q n request gas_limit = at_effect (q.query request gas_limit)
  answered_directly (some c) q n request gas_limit = do
    r ← λ e. callee_answer it vm cache c gas_limit ((n + e.spent + 1) % u64_mod) e
    pure (r.bytes, r.error)

  abbrev pub direct_querier :
      (QueryRequest → Option (Callee H I R)) → Querier H → ℕ → Querier (Effect H)
  direct_querier route q n = record {
    query = λ request gas_limit. answered_directly (route request) q n request gas_limit;
    gas_consumed = at_effect q.gas_consumed;
  }

  abbrev pub asks_through : QueryJson → (QueryRequest → Option (Callee H I R)) → Querier H → Asks H
  asks_through json route q request gas_limit n s =
      encoded_answer json (direct_querier route q n) request gas_limit
        (record { host = s; spent = 0; given = [] })

  module _ (w : World H) (counted : Within w.tables.db_counter w.tables.iterator_stack) where
    module _ (route : QueryRequest → Option (Callee H I R)) (q : Querier H)
        (a : (request : QueryRequest) (c : Callee H I R)
          → route request ≡ some c
          → Callable it vm cache c) where
      answered-Abreast :
          (request : QueryRequest) (gas_limit : ℕ) (r : Option (Callee H I R))
          → route request ≡ r
          → Abreast
              (Follows w)
              (Room w)
              (answered_directly r q w.tables.db_counter request gas_limit)
              (answered r q request gas_limit)
      answered-Abreast request gas_limit none e = host-Abreast w (q.query request gas_limit)
      answered-Abreast request gas_limit (some c) e =
          Abreast-bind (Follows w) (Room w)
            (λ e.
              callee_answer it vm cache c gas_limit ((w.tables.db_counter + e.spent + 1) % u64_mod)
                e)
            (calling it vm cache c gas_limit) (λ r. pure (r.bytes, r.error))
            (λ r. pure (r.bytes, r.error))
            (callee-Abreast it vm cache w counted c gas_limit (a request c e))
            λ r. Abreast-const (Follows w) (Room w) (ok (r.bytes, r.error))

      rust_query-Abreast :
          (gas_limit : ℕ) (request : Decoded QueryRequest)
          → Abreast
              (Follows w)
              (Room w)
              (answer_query (direct_querier route q w.tables.db_counter) gas_limit request)
              (answer_query (contract_querier route q) gas_limit request)
      unfolding answer_query
      rust_query-Abreast gas_limit (malformed t) =
          Abreast-const (Follows w) (Room w)
            (to_querier_result none (some (Error.unsupported_request (record { kind = t }))))
      rust_query-Abreast gas_limit (decoded request) =
          Abreast-bind (Follows w) (Room w)
            (answered_directly (route request) q w.tables.db_counter request gas_limit)
            (answered (route request) q request gas_limit) (λ r s. (to_querier_result r.0 r.1, s))
            (λ r s. (to_querier_result r.0 r.1, s))
            (answered-Abreast request gas_limit (route request) refl)
            λ r. Abreast-const (Follows w) (Room w) (to_querier_result r.0 r.1)

      encoded_answer-Abreast :
          (json : QueryJson) (request : Bytes) (gas_limit : ℕ)
          → Abreast
              (Follows w)
              (Room w)
              (encoded_answer json (direct_querier route q w.tables.db_counter) request gas_limit)
              (encoded_answer json (contract_querier route q) request gas_limit)
      unfolding rust_query
      encoded_answer-Abreast json request gas_limit =
          let d = direct_querier route q w.tables.db_counter in
          let c = contract_querier route q in
          let r : Decoded QueryRequest = json.unmarshal_request (some request) in
          let told : QuerierResult → Go (Effect H) (Decoded Slice) =
            λ y. pure (json.marshal_result y) in
          let told_over : QuerierResult → Go (World H) (Decoded Slice) =
            λ y. pure (json.marshal_result y) in
          let done : ℕ → Decoded Slice → ℕ → Go (Effect H) (Decoded Slice × ℕ) =
            λ x z g. pure (z, gas_between x g) in
          let done_over : ℕ → Decoded Slice → ℕ → Go (World H) (Decoded Slice × ℕ) =
            λ x z g. pure (z, gas_between x g) in
          let meter = host-Abreast w q.gas_consumed in
          Abreast-bind (Follows w) (Room w) d.gas_consumed c.gas_consumed
            (λ x. (answer_query d gas_limit r >>= told) >>= λ z. d.gas_consumed >>= done x z)
            (λ x.
              (answer_query c gas_limit r >>= told_over) >>= λ z. c.gas_consumed >>= done_over x z)
            meter
            λ x.
              Abreast-bind (Follows w) (Room w) (answer_query d gas_limit r >>= told)
                (answer_query c gas_limit r >>= told_over) (λ z. d.gas_consumed >>= done x z)
                (λ z. c.gas_consumed >>= done_over x z)
                (Abreast-bind (Follows w) (Room w) (answer_query d gas_limit r)
                  (answer_query c gas_limit r) told told_over (rust_query-Abreast gas_limit r)
                  λ y. Abreast-const (Follows w) (Room w) (ok (json.marshal_result y)))
                λ z.
                  Abreast-bind (Follows w) (Room w) d.gas_consumed c.gas_consumed (done x z)
                    (done_over x z) meter
                    λ g. Abreast-const (Follows w) (Room w) (ok (z, gas_between x g))

  -- What this querier relies on is that every contract that is asked can be called.
  pub contract_querier-Realises :
      (json : QueryJson) (route : QueryRequest → Option (Callee H I R)) (q : Querier H)
      → ((request : QueryRequest) (c : Callee H I R)
          → route request ≡ some c
          → Callable it vm cache c)
      → Realises json (contract_querier route q) (asks_through json route q)
  contract_querier-Realises json route q a = record {
    answers = λ request gas_limit w counted v room.
        let count : ℕ → Tables = λ n. record w.tables { db_counter = n } in
        let still : w.tables.db_counter ≡ w.tables.db_counter + 0 = omega arith in
        let same_count = ap count still in
        let first : Effect H = record { host = w.host; spent = 0; given = [] } in
        (encoded_answer-Abreast w counted route q a json request gas_limit).steps first w
          (record { same_host = refl; same_tables = same_count; grown = Grown-refl w.heap v }) room;
  }

-- A contract that asks a querier which answers with Query of api/lib.go, or with another part of
-- the application, gets what the application alone would answer: the bytes or the error that the
-- run of the other contract under the gas limit of the query ends with on it, encoded and read
-- back, with the gas. The world then has the application's state, a counter higher by the calls
-- that were made, and the frames as they were. The further blocks are Rust's: the bytes that
-- iterators of the other contract gave, the message of one that ran out of gas, and what its own
-- querier leaves. Every contract that a request is routed to can be called as `Callable` says: for
-- each gas limit the machine runs a tree of that limit, which may end out of gas. No frame is above
-- the counter, the counter does not wrap, and the request has fewer than 2^31 bytes.
pub query_reentrant :
    {H I R : Type 0} (it : DbIterator H) (vm : Vm H I) (cache : ℕ) (json : QueryJson)
    (serde : ResultJson R) (route : QueryRequest → Option (Callee H I R)) (q : Querier H)
    (request : Bytes) (gas_limit : ℕ) (w : World H)
    → ((r : QueryRequest) (c : Callee H I R) → route r ≡ some c → Callable it vm cache c)
    → Within w.tables.db_counter w.tables.iterator_stack
    → IsValid w.heap
    → length request < 2 ^ 31
    → let answer =
        asks_through it vm cache json route q request gas_limit w.tables.db_counter w.host in
      w.tables.db_counter + answer.1.spent < u64_mod
      → Echoes w
          (heard serde answer)
          (query_raw json serde (some (contract_querier it vm cache route q)) request gas_limit w)
query_reentrant it vm cache json serde route q request gas_limit w a counted v short room =
    query_raw-Echoes json serde (contract_querier it vm cache route q)
      (asks_through it vm cache json route q) request gas_limit w
      (contract_querier-Realises it vm cache json route q a) counted v short room
