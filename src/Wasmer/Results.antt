-- ===== src/Wasmer/Results.antt =====
-- What an application can rely on when an entry point returns.
use go_cosmwasm.Base.{
  ℕ, ◌≤◌, ◌≡◌, refl, Option, none, some, ◌++◌, if◌then◌else◌, ◌∙◌, ap, length, take-append,
  drop-append, length-append, ltb, arith,
}
use go_cosmwasm.Go.{Go, pure, Outcome, ok, panic, Bytes, Slice}
use go_cosmwasm.Types.Queries.{Decoded, decoded, malformed}
use go_cosmwasm.Types.Msg.{Env, HandleResponse, HandleResult, InitResponse}
use go_cosmwasm.Api.World.{World}
use go_cosmwasm.Api.Host.{DbIterator}
use go_cosmwasm.Api.Library.{Library}
use go_cosmwasm.Api.Contract.{Returned, Environment}
use go_cosmwasm.Api.Contract
use go_cosmwasm.Wasmer.{
  Wasmer, Json, Answer, after_call, respond_handle, execute_encoded, execute, with_key,
  respond_init, split_key, instantiate,
}

respond_handle_success :
    (gas : ℕ) (m : Decoded HandleResult)
    → (respond_handle gas m).error ≡ none
    → m ≡ decoded (record { ok = (respond_handle gas m).response; err = none })
unfolding respond_handle
respond_handle_success gas (malformed t) e = cc
respond_handle_success gas (decoded r) e = ground arith

respond_handle_gas : (gas : ℕ) (m : Decoded HandleResult) → (respond_handle gas m).gas_used ≡ gas
unfolding respond_handle
respond_handle_gas gas (malformed t) = refl
respond_handle_gas gas (decoded r) = ground arith

after_call_success :
    (u : Slice → Decoded HandleResult) (r : Returned) (a : Answer HandleResponse)
    → after_call (λ gas bytes. respond_handle gas (u bytes)) r ≡ a
    → a.error ≡ none
    → (r ≡ record { bytes = r.bytes; gas_used = a.gas_used; error = none })
      × (u r.bytes ≡ decoded (record { ok = a.response; err = none }))
unfolding after_call
after_call_success u r a h e = ground (
  arith,
  respond_handle_success r.gas_used (u r.bytes),
  respond_handle_gas r.gas_used (u r.bytes),
)

module _ {H : Type 0} (d : DbIterator H) (lib : Library H) (json : Json) where
  run_success :
      (m : Outcome Returned × World H) (a : Answer HandleResponse) (t : World H)
      → (elim m.0 as (λ o. Outcome (Answer HandleResponse) × World H) [
        | ok r ↦
            (ok (after_call (λ gas bytes. respond_handle gas (json.unmarshal_handle bytes)) r), m.1)
        | panic p ↦ (panic p, m.1)
        | Outcome.fault ↦ (Outcome.fault, m.1)
      ])
        ≡ (ok a, t)
      → a.error ≡ none
      → (bytes : Slice) × (m
          ≡ (ok (record { bytes = bytes; gas_used = a.gas_used; error = none }), t))
        × (json.unmarshal_handle bytes ≡ decoded (record { ok = a.response; err = none }))
  run_success (ok r, s) a t h e =
      let (back, read) = after_call_success json.unmarshal_handle r a (ground arith) e in
      (r.bytes, ground (arith, back), read)
  run_success (panic p, s) a t h e = ground arith
  run_success (Outcome.fault, s) a t h e = ground arith

  execute_encoded_success :
      (w : Wasmer) (code : Slice) (msg : Slice) (host : Environment H) (gas_limit : ℕ)
      (m : Decoded Slice) (s t : World H) (a : Answer HandleResponse)
      → execute_encoded d lib json w code msg host gas_limit m s ≡ (ok a, t)
      → a.error ≡ none
      → (params : Slice) × (bytes : Slice) × (m ≡ decoded params)
        × (Contract.handle d lib w.cache code params msg host gas_limit s
            ≡ (ok (record { bytes = bytes; gas_used = a.gas_used; error = none }), t))
        × (json.unmarshal_handle bytes ≡ decoded (record { ok = a.response; err = none }))
  unfolding execute_encoded
  execute_encoded_success w code msg host gas_limit (malformed x) s t a h e = ground arith
  execute_encoded_success w code msg host gas_limit (decoded params) s t a h e =
      let (bytes, ran, read) =
        run_success (Contract.handle d lib w.cache code params msg host gas_limit s) a t h e in
      (params, bytes, refl, ran, read)

  -- An `Execute` that reports no error ran `Handle` on the encoded environment without an error,
  -- and its response and gas are what the contract's bytes decode to and what `Handle` reported.
  pub execute_success :
      (w : Wasmer) (code : Slice) (env : Env) (msg : Slice) (host : Environment H) (gas_limit : ℕ)
      (s t : World H) (a : Answer HandleResponse)
      → execute d lib json w code env msg host gas_limit s ≡ (ok a, t)
      → a.error ≡ none
      → (params : Slice) × (bytes : Slice) × (json.marshal_env env ≡ decoded params)
        × (Contract.handle d lib w.cache code params msg host gas_limit s
            ≡ (ok (record { bytes = bytes; gas_used = a.gas_used; error = none }), t))
        × (json.unmarshal_handle bytes ≡ decoded (record { ok = a.response; err = none }))
  unfolding execute
  execute_success w code env msg host gas_limit s t a h e =
      execute_encoded_success w code msg host gas_limit (json.marshal_env env) s t a h e

  -- Once the environment is encoded and `Handle` has returned, with an error or without, `Execute`
  -- returns in the same state, with the gas that `Handle` reported.
  pub execute_returns :
      (w : Wasmer) (code : Slice) (env : Env) (msg params : Slice) (host : Environment H)
      (gas_limit : ℕ) (s t : World H) (r : Returned)
      → json.marshal_env env ≡ decoded params
      → Contract.handle d lib w.cache code params msg host gas_limit s ≡ (ok r, t)
      → (a : Answer HandleResponse) × (execute d lib json w code env msg host gas_limit s
          ≡ (ok a, t))
        × (a.gas_used ≡ r.gas_used)
  unfolding execute execute_encoded after_call
  execute_returns w code env msg params host gas_limit s t r m h =
      let u = json.unmarshal_handle in
      (
        after_call (λ gas bytes. respond_handle gas (u bytes)) r,
        ground (arith, m, h),
        ground (arith, respond_handle_gas r.gas_used (u r.bytes)),
      )

  at_least : {A : Type 0} (n : ℕ) (x y : A) → 64 ≤ n → (if ltb n 64 then x else y) ≡ y
  at_least n x y h = ground arith

  read_key :
      (gas : ℕ) (xs ys key rest : Bytes) (s : World H) (response : Option InitResponse)
      → xs ≡ key
      → ys ≡ rest
      → json.unmarshal_init (some rest) ≡ decoded (record { ok = response; err = none })
      → pure (with_key xs (respond_init gas (json.unmarshal_init (some ys)))) s
        ≡ (ok (record { response = response; gas_used = gas; error = none }, some key), s)
  unfolding respond_init
  read_key gas xs ys key rest s response a b e = ground (arith, a, b, e)

  split_key_lem :
      (gas : ℕ) (key rest : Bytes) (s : World H) (response : Option InitResponse)
      → length key ≡ 64
      → json.unmarshal_init (some rest) ≡ decoded (record { ok = response; err = none })
      → split_key d lib json gas (key ++ rest) s
        ≡ (ok (record { response = response; gas_used = gas; error = none }, some key), s)
  unfolding split_key
  split_key_lem gas key rest s response n e =
      let key_fits : 64 ≤ length (key ++ rest) = omega (arith, length-append key rest, n) in
      ap (λ (f : Go (World H) (Answer InitResponse × Slice)). f s)
        (at_least (length (key ++ rest)) _ _ key_fits)
      ∙ read_key gas _ _ key rest s response (take-append key rest 64 n) (drop-append key rest 64 n)
          e

  -- If `api.Instantiate` reports no error and 64 bytes with an encoded response behind them,
  -- `Instantiate` returns the 64 bytes as the key, the response, and the gas that was reported.
  pub instantiate_key :
      (w : Wasmer) (code : Slice) (env : Env) (msg params : Slice) (host : Environment H)
      (gas_limit gas : ℕ) (key rest : Bytes) (s t : World H) (response : Option InitResponse)
      → json.marshal_env env ≡ decoded params
      → Contract.instantiate d lib w.cache code params msg host gas_limit s
        ≡ (ok (record { bytes = some (key ++ rest); gas_used = gas; error = none }), t)
      → length key ≡ 64
      → json.unmarshal_init (some rest) ≡ decoded (record { ok = response; err = none })
      → instantiate d lib json w code env msg host gas_limit s
        ≡ (ok (record { response = response; gas_used = gas; error = none }, some key), t)
  unfolding instantiate
  instantiate_key w code env msg params host gas_limit gas key rest s t response m h n e =
      ground (arith, m, h, split_key_lem gas key rest t response n e)
