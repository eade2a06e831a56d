-- ===== src/Ffi/Query/Sparing.antt =====
-- A query leaves malloc's heap alone if the querier that Go has does.
use go_cosmwasm.Base.{ℕ, refl, Option, none, some, Bool, true, false, ◌||◌, if◌then◌else◌, is_null}
use go_cosmwasm.Go.{Go, Outcome, ok, panic, fault, pure, ◌>>=◌, ◌>>◌, Bytes, Slice, error_string}
use go_cosmwasm.Ffi.Memory.{Heap, IsValid, Buffer, Ptr, from_vec, consume}
use go_cosmwasm.Ffi.Status.{GoResult, FfiResult, done, failed, into_ffi_result, read_error_msg}
use go_cosmwasm.Ffi.Storage.{call_back, fresh_slots, answer, buffer_in}
use go_cosmwasm.Ffi.Query.{ResultJson, query_raw}
use go_cosmwasm.Types.Queries.{
  Querier, QueryRequest, Decoded, decoded, malformed, rust_query, answer_query, to_querier_result,
}
use go_cosmwasm.Api.World.{World, on_heap}
use go_cosmwasm.Api.Memory.{allocate_rust, receive_slice}
use go_cosmwasm.Api.Callbacks.{
  Callback, Slots, recover_panic, in_world, with_heap, write_used_gas, write_val, write_err_out,
  gas_between,
}
use go_cosmwasm.Api.Callbacks.Query.{QueryJson, c_query_external, query_body, write_response}
use go_cosmwasm.Api.Contract.Sparing.{
  whole, world_heap, Spared, SparesIn, SparesIn-const, SparesIn-bind, from_vec-Spares,
  consume-Spares, receive_slice-Spares, allocate_rust-Spares, on_heap-Spares,
}

abbrev called_heap : {H : Type 0} → Callback H → Heap
called_heap c = c.world.heap

module _ {H : Type 0} where
  placed :
      {A : Type 0} (c : Callback H) (o : Outcome A × World H)
      → Spared world_heap c.world o
      → Spared called_heap c (o.0, record c { world = o.1 })
  placed c (ok a, w) x = x
  placed c (panic p, w) x = x
  placed c (fault, w) x = tt

  in_world-Spares :
      {A : Type 0} (m : Go (World H) A)
      → SparesIn world_heap m
      → SparesIn (called_heap {H = H}) (in_world m)
  in_world-Spares m x = record { spares = λ c v. placed c (m c.world) (x.spares c.world v) }

  -- A querier that leaves malloc's heap alone.
  abbrev pub SparingQuerier : Option (Querier (World H)) → Type 0
  SparingQuerier none = Unit {0}
  SparingQuerier (some q) =
      ((request : QueryRequest) (gas_limit : ℕ) → SparesIn world_heap (q.query request gas_limit))
      × SparesIn world_heap q.gas_consumed

  answer_query-Spares :
      (q : Querier (World H)) (gas_limit : ℕ) (request : Decoded QueryRequest)
      → SparingQuerier (some q)
      → SparesIn world_heap (answer_query q gas_limit request)
  unfolding answer_query
  answer_query-Spares q gas_limit (malformed t) x = SparesIn-const world_heap _
  answer_query-Spares q gas_limit (decoded request) x =
      SparesIn-bind world_heap (q.query request gas_limit) (λ r w. (to_querier_result r.0 r.1, w))
        (x.0 request gas_limit) λ r. SparesIn-const world_heap (to_querier_result r.0 r.1)

  heap-Spares :
      {A : Type 0} (m : Go Heap A) → SparesIn whole m → SparesIn (called_heap {H = H}) (with_heap m)
  heap-Spares m x = in_world-Spares (on_heap m) (on_heap-Spares m x)

  written :
      {X : Type 0} (o : Option X) (c : Callback H) (slots : Slots)
      → IsValid c.world.heap
      → Spared called_heap {A = Unit {0}} c
          (elim o [ none ↦ (panic error_string, c) | some _ ↦ (ok tt, record c { slots = slots }) ])
  written none c slots v = (v, λ n. refl)
  written (some x) c slots v = (v, λ n. refl)

  write_response-Spares : (r : Decoded Slice) → SparesIn (called_heap {H = H}) (write_response r)
  unfolding write_response
  write_response-Spares (malformed t) =
      SparesIn-bind called_heap (with_heap (allocate_rust (some t)))
        (λ b. write_err_out b >> pure GoResult.other)
        (heap-Spares (allocate_rust (some t)) (allocate_rust-Spares (some t)))
        λ b.
          SparesIn-bind called_heap (write_err_out b) (λ u. pure GoResult.other)
            (record {
              spares = λ c v. written c.slots.err_out c (record c.slots { err_out = some b }) v;
            })
            λ u. SparesIn-const called_heap (ok GoResult.other)
  write_response-Spares (decoded bz) =
      SparesIn-bind called_heap (with_heap (allocate_rust bz))
        (λ b. write_val b >> pure GoResult.ok)
        (heap-Spares (allocate_rust bz) (allocate_rust-Spares bz))
        λ b.
          SparesIn-bind called_heap (write_val b) (λ u. pure GoResult.ok)
            (record { spares = λ c v. written c.slots.val c (record c.slots { val = some b }) v })
            λ u. SparesIn-const called_heap (ok GoResult.ok)

  -- The body of the callback, from the copy of the request on.
  abbrev asked : QueryJson → Querier (World H) → ℕ → Buffer → Go (Callback H) GoResult
  asked json q gas_limit request = do
    req ← with_heap (receive_slice request)
    before ← in_world q.gas_consumed
    res ← in_world (rust_query json.unmarshal_request q req gas_limit)
    after ← in_world q.gas_consumed
    write_used_gas (gas_between before after)
    write_response (json.marshal_result res)

  asked-Spares :
      (json : QueryJson) (q : Querier (World H)) (gas_limit : ℕ) (request : Buffer)
      → SparingQuerier (some q)
      → SparesIn called_heap (asked json q gas_limit request)
  unfolding rust_query
  asked-Spares json q gas_limit request x =
      let meter = in_world-Spares q.gas_consumed x.1 in
      SparesIn-bind called_heap (with_heap (receive_slice request)) _
        (heap-Spares (receive_slice request) (receive_slice-Spares request))
        λ req. SparesIn-bind called_heap (in_world q.gas_consumed) _ meter λ before.
          SparesIn-bind called_heap (in_world (rust_query json.unmarshal_request q req gas_limit)) _
            (in_world-Spares (rust_query json.unmarshal_request q req gas_limit)
              (answer_query-Spares q gas_limit (json.unmarshal_request req) x))
            λ res. SparesIn-bind called_heap (in_world q.gas_consumed) _ meter λ after.
              SparesIn-bind called_heap (write_used_gas (gas_between before after)) _
                (record {
                  spares = λ c v.
                      written c.slots.used_gas c
                        (record c.slots { used_gas = some (gas_between before after) }) v;
                })
                λ u. write_response-Spares (json.marshal_result res)

  guarded :
      (b : Bool) (c : Callback H) (m : Go (Callback H) GoResult)
      → IsValid c.world.heap
      → SparesIn called_heap m
      → Spared called_heap c ((if b then (ok GoResult.bad_argument, c) else m c))
  guarded true c m v x = (v, λ n. refl)
  guarded false c m v x = x.spares c v

  query_body-Spares :
      (json : QueryJson) (ptr : Option (Querier (World H))) (gas_limit : ℕ) (request : Buffer)
      → SparingQuerier ptr
      → SparesIn called_heap (query_body json ptr gas_limit request)
  unfolding query_body
  query_body-Spares json none gas_limit request x =
      SparesIn-const called_heap (ok GoResult.bad_argument)
  query_body-Spares json (some q) gas_limit request x = record {
    spares = λ c v.
        guarded (is_null c.slots.used_gas || is_null c.slots.val) c (asked json q gas_limit request)
          v (asked-Spares json q gas_limit request x);
  }

  recovered :
      (c : Callback H) (o : Outcome GoResult × Callback H)
      → Spared called_heap c o
      → Spared called_heap c (recover_panic (λ u. o) c)
  unfolding recover_panic
  recovered c (ok a, d) x = x
  recovered c (panic p, d) x = x
  recovered c (fault, d) x = tt

  called :
      (w : World H) (o : Outcome GoResult × Callback H)
      → Spared called_heap (record { slots = fresh_slots; world = w }) o
      → Spared world_heap w (call_back fresh_slots (λ u. o) w)
  unfolding call_back
  called w (ok a, c) x = x
  called w (panic p, c) x = x
  called w (fault, c) x = tt

  callback-Spares :
      (json : QueryJson) (ptr : Option (Querier (World H))) (gas_limit : ℕ) (request : Buffer)
      → SparingQuerier ptr
      → SparesIn world_heap (call_back fresh_slots (c_query_external json ptr gas_limit request))
  unfolding c_query_external call_back recover_panic
  callback-Spares json ptr gas_limit request x = record {
    spares = λ w v.
        let c : Callback H = record { slots = fresh_slots; world = w } in
        let body = query_body json ptr gas_limit request c in
        called w (recover_panic (λ u. body) c)
          (recovered c body ((query_body-Spares json ptr gas_limit request x).spares c v));
  }

read_error_msg-Spares :
    (p : Ptr) (l c : ℕ) → SparesIn whole (read_error_msg (record { ptr = p; len = l; cap = c }))
unfolding read_error_msg
read_error_msg-Spares Ptr.null l c = SparesIn-const whole (ok none)
read_error_msg-Spares Ptr.dangling l c =
    SparesIn-bind whole (consume (record { ptr = Ptr.dangling; len = l; cap = c })) _
      (consume-Spares (record { ptr = Ptr.dangling; len = l; cap = c }))
      λ xs. SparesIn-const whole (ok (some xs))
read_error_msg-Spares (Ptr.at q) l c =
    SparesIn-bind whole (consume (record { ptr = Ptr.at q; len = l; cap = c })) _
      (consume-Spares (record { ptr = Ptr.at q; len = l; cap = c }))
      λ xs. SparesIn-const whole (ok (some xs))

into_ffi_result-Spares : (r : GoResult) (b : Buffer) → SparesIn whole (into_ffi_result r b)
unfolding into_ffi_result
into_ffi_result-Spares GoResult.ok b = SparesIn-const whole _
into_ffi_result-Spares GoResult.panic b = SparesIn-const whole _
into_ffi_result-Spares GoResult.bad_argument b = SparesIn-const whole _
into_ffi_result-Spares GoResult.out_of_gas b = SparesIn-const whole _
into_ffi_result-Spares GoResult.other b =
    SparesIn-bind whole (read_error_msg b) _ (read_error_msg-Spares b.ptr b.len b.cap)
      λ t. SparesIn-const whole _
into_ffi_result-Spares GoResult.user b =
    SparesIn-bind whole (read_error_msg b) _ (read_error_msg-Spares b.ptr b.len b.cap)
      λ t. SparesIn-const whole _

answer-Spares :
    {A : Type 0} (r : FfiResult (Unit {0})) (m : Go Heap A)
    → SparesIn whole m
    → SparesIn whole (answer r m)
unfolding answer
answer-Spares (failed e) m x = SparesIn-const whole _
answer-Spares (done u) m x = SparesIn-bind whole m _ x λ a. SparesIn-const whole _

-- `query_raw` of src/querier.rs neither frees a block of malloc's nor makes one, if the querier that Go
-- has does not, or corrupts memory.
pub query_raw-Spares :
    {H R : Type 0} (json : QueryJson) (serde : ResultJson R) (q : Option (Querier (World H)))
    (request : Bytes) (gas_limit : ℕ)
    → SparingQuerier q
    → SparesIn world_heap (query_raw json serde q request gas_limit)
unfolding query_raw
query_raw-Spares json serde q request gas_limit x =
    SparesIn-bind world_heap (on_heap (from_vec request)) _
      (on_heap-Spares (from_vec request) (from_vec-Spares request))
      λ b.
        SparesIn-bind world_heap (call_back fresh_slots (c_query_external json q gas_limit b)) _
          (callback-Spares json q gas_limit b x)
          λ r.
            SparesIn-bind world_heap (on_heap (consume b)) _
              (on_heap-Spares (consume b) (consume-Spares b))
              λ u.
                SparesIn-bind world_heap (on_heap (into_ffi_result r.0 (buffer_in r.1.err_out))) _
                  (on_heap-Spares _ (into_ffi_result-Spares r.0 (buffer_in r.1.err_out)))
                  λ checked.
                    SparesIn-bind world_heap
                      (on_heap (answer checked (consume (buffer_in r.1.val)))) _
                      (on_heap-Spares _ (
                        answer-Spares checked (consume (buffer_in r.1.val))
                          (consume-Spares (buffer_in r.1.val))))
                      λ bin. SparesIn-const world_heap _
