-- ===== src/Api/Contract/Application.antt =====
-- What the application hands to a contract call, on both sides of the boundary.
use go_cosmwasm.Base.{ℕ, Option, some}
use go_cosmwasm.Go.{Bytes}
use go_cosmwasm.Ffi.Status.{FfiError}
use go_cosmwasm.Ffi.Machine.{Extern, to_extern}
use go_cosmwasm.Ffi.Program.{Deps}
use go_cosmwasm.Types.Queries.{Querier}
use go_cosmwasm.Ffi.Query.{ResultJson}
use go_cosmwasm.Ffi.Query.Realises.{Asks}
use go_cosmwasm.Api.World.{World}
use go_cosmwasm.Api.Callbacks.Query.{QueryJson}
use go_cosmwasm.Api.Host.{KvStore, GasMeter, GoApi, DbIterator}
use go_cosmwasm.Api.Callbacks.{build_db_state}
use go_cosmwasm.Api.Library.{build_db, build_api, build_querier}
use go_cosmwasm.Api.Contract.{Environment}

-- What the application passes: a gas meter, an API and a querier are at hand. The querier works on the
-- world, and may run other contracts; `asks` are its answers as far as the application goes.
pub record App (H R : Type 0) : Type 0 where
  pub store : KvStore H
  pub meter : GasMeter H
  pub api : GoApi H
  pub querier : Querier (World H)
  pub asks : Asks H
  pub json : QueryJson
  pub serde : ResultJson R
  pub utf8_error : Bytes → Option FfiError

abbrev pub environment_of : {H R : Type 0} → App H R → Environment H
environment_of a = record {
  gas_meter = some a.meter;
  store = a.store;
  api = some a.api;
  querier = some a.querier;
}

-- The same for the run of a contract whose call has the counter `c`.
abbrev pub deps_of : {H R : Type 0} → DbIterator H → App H R → ℕ → Deps H R
deps_of it a c = record {
  db = build_db_state a.store c;
  iterators = it;
  meter = a.meter;
  api = a.api;
  querier = a.querier;
  asks = a.asks;
  json = a.json;
  serde = a.serde;
  utf8_error = a.utf8_error;
}

abbrev pub extern_of : {H R : Type 0} → App H R → ℕ → Extern H
extern_of a c =
    to_extern (build_db (some (build_db_state a.store c)) (some a.meter)) (build_api (some a.api))
      (build_querier (some a.querier))
