-- ===== src/Api/Gateways.antt =====
-- The gateway functions of api/callbacks_cgo.go, and the tables of api/callbacks.go through which Rust
-- calls them.
use go_cosmwasm.Base.{ℕ, Option}
use go_cosmwasm.Go.{Go}
use go_cosmwasm.Ffi.Memory.{Buffer}
use go_cosmwasm.Ffi.Status.{GoResult}
use go_cosmwasm.Types.Queries.{Querier}
use go_cosmwasm.Api.World.{World}
use go_cosmwasm.Api.Host.{GasMeter, GoApi, DbIterator}
use go_cosmwasm.Api.Callbacks.{Callback, DbState, IteratorRef}
use go_cosmwasm.Api.Callbacks.Db.{c_get, c_set, c_delete}
use go_cosmwasm.Api.Callbacks.Scan.{c_scan, c_next}
use go_cosmwasm.Api.Callbacks.Address.{c_human_address, c_canonical_address}
use go_cosmwasm.Api.Callbacks.Query.{QueryJson, c_query_external}

module _ {H : Type 0} where
  abbrev pub c_get_cgo :
      Option (DbState H) → Option (GasMeter H) → Buffer → Go (Callback H) GoResult
  c_get_cgo ptr gas_meter key = c_get ptr gas_meter key

  abbrev pub c_set_cgo :
      Option (DbState H) → Option (GasMeter H) → Buffer → Buffer → Go (Callback H) GoResult
  c_set_cgo ptr gas_meter key val = c_set ptr gas_meter key val

  abbrev pub c_delete_cgo :
      Option (DbState H) → Option (GasMeter H) → Buffer → Go (Callback H) GoResult
  c_delete_cgo ptr gas_meter key = c_delete ptr gas_meter key

  abbrev pub c_scan_cgo :
      Option (DbState H) → Option (GasMeter H) → Buffer → Buffer → ℕ → Go (Callback H) GoResult
  c_scan_cgo ptr gas_meter start end order = c_scan ptr gas_meter start end order

  -- The methods of the iterators go with it.
  abbrev pub c_next_cgo :
      DbIterator H → IteratorRef → Option (GasMeter H) → Go (Callback H) GoResult
  c_next_cgo d ptr gas_meter = c_next d ptr gas_meter

  abbrev pub c_canonical_address_cgo : Option (GoApi H) → Buffer → Go (Callback H) GoResult
  c_canonical_address_cgo ptr human = c_canonical_address ptr human

  abbrev pub c_human_address_cgo : Option (GoApi H) → Buffer → Go (Callback H) GoResult
  c_human_address_cgo ptr canon = c_human_address ptr canon

  abbrev pub c_query_external_cgo :
      QueryJson → Option (Querier (World H)) → ℕ → Buffer → Go (Callback H) GoResult
  c_query_external_cgo json ptr gas_limit request = c_query_external json ptr gas_limit request

-- `C.DB_vtable`, `C.Iterator_vtable`, `C.GoApi_vtable` and `C.Querier_vtable`
pub record DbVtable (H : Type 0) : Type 0 where
  pub read_db : Option (DbState H) → Option (GasMeter H) → Buffer → Go (Callback H) GoResult
  pub write_db :
      Option (DbState H) → Option (GasMeter H) → Buffer → Buffer → Go (Callback H) GoResult
  pub remove_db : Option (DbState H) → Option (GasMeter H) → Buffer → Go (Callback H) GoResult
  pub scan_db :
      Option (DbState H) → Option (GasMeter H) → Buffer → Buffer → ℕ → Go (Callback H) GoResult

pub record IteratorVtable (H : Type 0) : Type 0 where
  pub next_db : DbIterator H → IteratorRef → Option (GasMeter H) → Go (Callback H) GoResult

pub record GoApiVtable (H : Type 0) : Type 0 where
  pub humanize_address : Option (GoApi H) → Buffer → Go (Callback H) GoResult
  pub canonicalize_address : Option (GoApi H) → Buffer → Go (Callback H) GoResult

pub record QuerierVtable (H : Type 0) : Type 0 where
  pub query_external :
      QueryJson → Option (Querier (World H)) → ℕ → Buffer → Go (Callback H) GoResult

abbrev pub db_vtable : {H : Type 0} → DbVtable H
db_vtable = record {
  read_db = c_get_cgo;
  write_db = c_set_cgo;
  remove_db = c_delete_cgo;
  scan_db = c_scan_cgo;
}

abbrev pub iterator_vtable : {H : Type 0} → IteratorVtable H
iterator_vtable = record { next_db = c_next_cgo }

abbrev pub api_vtable : {H : Type 0} → GoApiVtable H
api_vtable = record {
  humanize_address = c_human_address_cgo;
  canonicalize_address = c_canonical_address_cgo;
}

abbrev pub querier_vtable : {H : Type 0} → QuerierVtable H
querier_vtable = record { query_external = c_query_external_cgo }
