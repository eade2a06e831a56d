-- ===== src/Wasmer/Whole.antt =====
-- Execute, Migrate, Instantiate and Query from the application to the contract and back.
use go_cosmwasm.Base.{ℕ, ◌≡◌, ap, ◌∙◌, Option, none, some, [], ◌++◌, length, arith}
use go_cosmwasm.Go.{ok, Bytes}
use go_cosmwasm.Ffi.Machine.{Vm}
use go_cosmwasm.Ffi.Error.{vm_ok}
use go_cosmwasm.Ffi.Entry.{library}
use go_cosmwasm.Ffi.Entry.Contract.{ending}
use go_cosmwasm.Ffi.Entry.Query.{querying}
use go_cosmwasm.Ffi.Program.{Program}
use go_cosmwasm.Types.Queries.{decoded}
use go_cosmwasm.Types.Msg.{Env, InitResponse}
use go_cosmwasm.Api.World.{World}
use go_cosmwasm.Api.Host.{DbIterator}
use go_cosmwasm.Api.Contract.Leaving.{Leaves}
use go_cosmwasm.Api.Contract.Answers.{reported}
use go_cosmwasm.Api.Contract.Application.{App, environment_of}
use go_cosmwasm.Api.Contract.Whole.{
  Expected, ended, end_of, finished, handle_whole, migrate_whole, instantiate_whole,
}
use go_cosmwasm.Api.Contract.Asked.{query_whole}
use go_cosmwasm.Wasmer.{
  Json, after_call, respond_handle, respond_migrate, respond_query, execute, migrate, query,
  instantiate,
}
use go_cosmwasm.Wasmer.Results.{instantiate_key}

module _ {H I R : Type 0} (it : DbIterator H) (vm : Vm H I) (json : Json) (cache : ℕ)
    (app : App H R) (gas_limit : ℕ) (code params msg : Bytes) (env : Env) (prog : Program I R)
    (w : World H) where
  -- Execute, once the environment is encoded as `params`, returns what is decoded of the end of the
  -- contract's run on the application itself, or the error of that end, with its gas; and the
  -- application is where that run left it once its iterators are closed. The frames are as they
  -- were, and the counter has moved on by this call and those in between; the blocks that stay
  -- allocated beyond those that were there are Rust's: one for each key and value, not empty, that
  -- an iterator gave, and those that the querier leaves as `asks` says, such as the message of
  -- another contract that ran out of gas. The conditions are those of `Expected`.
  pub execute_whole :
      json.marshal_env env ≡ decoded (some params)
      → Expected it vm cache app gas_limit code params msg prog w vm.call_handle_raw
      → let e = end_of it vm cache app gas_limit code params msg prog w in
        Leaves
          (after_call
            (λ gas bytes. respond_handle gas (json.unmarshal_handle bytes))
            (reported e.gas e.errno e.bytes))
          (ended it vm cache app gas_limit code params msg prog w).1.given
          (execute it
            (library vm)
            json
            (record { cache = record { ptr = some cache } })
            (some code)
            env
            (some msg)
            (environment_of app)
            gas_limit)
          w
          (finished it vm cache app gas_limit code params msg prog w)
  unfolding execute
  execute_whole m e =
      let h = handle_whole it vm cache app gas_limit code params msg prog w e in
      record { heap = h.heap; grown = h.grown; ends = ground (arith, m, h.ends) }

  -- The same for Migrate.
  pub migrate_answered :
      json.marshal_env env ≡ decoded (some params)
      → Expected it vm cache app gas_limit code params msg prog w vm.call_migrate_raw
      → let e = end_of it vm cache app gas_limit code params msg prog w in
        Leaves
          (after_call
            (λ gas bytes. respond_migrate gas (json.unmarshal_migrate bytes))
            (reported e.gas e.errno e.bytes))
          (ended it vm cache app gas_limit code params msg prog w).1.given
          (migrate it
            (library vm)
            json
            (record { cache = record { ptr = some cache } })
            (some code)
            env
            (some msg)
            (environment_of app)
            gas_limit)
          w
          (finished it vm cache app gas_limit code params msg prog w)
  unfolding migrate
  migrate_answered m e =
      let h = migrate_whole it vm cache app gas_limit code params msg prog w e in
      record { heap = h.heap; grown = h.grown; ends = ground (arith, m, h.ends) }

  -- Query returns what is decoded of the end of the contract's run on the application itself, or the
  -- error of that end, and leaves the application as that run does once its iterators are closed. The
  -- conditions are those of `Expected`, for the machine's function for queries.
  pub query_answered :
      Expected it vm cache app gas_limit code [] msg prog w (querying vm)
      → let e = end_of it vm cache app gas_limit code [] msg prog w in
        Leaves
          (after_call
            (λ gas bytes. respond_query gas (json.unmarshal_query bytes))
            (reported e.gas e.errno e.bytes))
          (ended it vm cache app gas_limit code [] msg prog w).1.given
          (query it
            (library vm)
            json
            (record { cache = record { ptr = some cache } })
            (some code)
            (some msg)
            (environment_of app)
            gas_limit)
          w
          (finished it vm cache app gas_limit code [] msg prog w)
  unfolding query
  query_answered e =
      let h = query_whole it vm cache app gas_limit code msg prog w e in
      record { heap = h.heap; grown = h.grown; ends = ground (arith, h.ends) }

  -- When the contract's run on the application itself ends with 64 bytes and the encoding of a
  -- response behind them, Instantiate returns that response with the 64 bytes as the key and the gas
  -- of the instance; and the application is where that run left it once its iterators are closed. The
  -- conditions are those of `Expected`, for the machine's function for Instantiate.
  pub instantiate_answered :
      (i : I) (key rest : Bytes) (response : Option InitResponse)
      → json.marshal_env env ≡ decoded (some params)
      → Expected it vm cache app gas_limit code params msg prog w vm.call_init_raw
      → (ended it vm cache app gas_limit code params msg prog w).0 ≡ ok (vm_ok (key ++ rest), i)
      → length key ≡ 64
      → json.unmarshal_init (some rest) ≡ decoded (record { ok = response; err = none })
      → Leaves
          (record { response = response; gas_used = vm.used_internally i; error = none }, some key)
          (ended it vm cache app gas_limit code params msg prog w).1.given
          (instantiate it
            (library vm)
            json
            (record { cache = record { ptr = some cache } })
            (some code)
            env
            (some msg)
            (environment_of app)
            gas_limit)
          w
          (finished it vm cache app gas_limit code params msg prog w)
  instantiate_answered i key rest response m e out n decodes =
      let h = instantiate_whole it vm cache app gas_limit code params msg prog w e in
      let shown =
        ap (λ o. reported (ending vm o).gas (ending vm o).errno (ending vm o).bytes) out in
      record {
        heap = h.heap;
        grown = h.grown;
        ends =
            instantiate_key it (library vm) json _ (some code) env (some msg) (some params)
              (environment_of app) gas_limit (vm.used_internally i) key rest w _ response m
              (h.ends
                ∙ ap
                    (λ r. (
                      ok r,
                      record (finished it vm cache app gas_limit code params msg prog w) {
                        heap = h.heap;
                      },
                    ))
                    shown)
              n decodes;
      }
