-- ===== src/Ffi/Query/Realises.antt =====
-- Queriers that work on the whole world, since they may run other contracts, and what they answer as
-- far as the application is concerned.
use mathlib.Core.Path.{subst}
use go_cosmwasm.Base.{ℕ, ◌+◌, ◌<◌, ◌≡◌, refl, sym, ap, some, List, [], u64_mod, arith}
use go_cosmwasm.Base.Dict.{Within}
use go_cosmwasm.Go.{Outcome, ok, panic, fault, Bytes, Slice}
use go_cosmwasm.Ffi.Memory.{IsValid}
use go_cosmwasm.Ffi.Memory.Grown.{Grown, Grown-refl}
use go_cosmwasm.Ffi.Lockstep.{Matching}
use go_cosmwasm.Ffi.Query.Agrees.{outside, encoded_answer, answer_query-outside}
use go_cosmwasm.Types.Queries.{Querier, Decoded, rust_query}
use go_cosmwasm.Api.World.{World}
use go_cosmwasm.Api.Callbacks.Query.{QueryJson}

-- What an answer leaves: the application's state, how many calls were counted, and the bytes of the
-- blocks of Rust's that stay allocated, the last ones first: the entries of iterators of the contracts
-- in between, and the messages of those that ran out of gas.
pub record Effect (H : Type 0) : Type 0 where
  pub host : H
  pub spent : ℕ
  pub given : List Bytes

-- The answers of a querier to requests, encoded and with their gas, on the application alone and by
-- the number of the last call.
abbrev pub Asks : Type 0 → Type 0
Asks H = Bytes → ℕ → ℕ → H → Outcome (Decoded Slice × ℕ) × Effect H

pub record Follows {H : Type 0} (w : World H) (e : Effect H) (w' : World H) : Type 0 where
  pub same_host : w'.host ≡ e.host
  pub same_tables : w'.tables ≡ record w.tables { db_counter = w.tables.db_counter + e.spent }
  pub grown : Grown w.heap e.given w'.heap

-- An outcome on the world from `w` on, against one on the application.
abbrev pub Echoes : {H A : Type 0} → World H → Outcome A × Effect H → Outcome A × World H → Type 0
Echoes w o r = Matching (Follows w) o r

-- A querier answers as `asks` says, wherever no frame is above the counter and the counter does not
-- wrap.
pub record Realises {H : Type 0} (json : QueryJson) (q : Querier (World H)) (asks : Asks H)
    : Type 0 where
  pub answers :
      (request : Bytes) (gas_limit : ℕ) (w : World H)
      → Within w.tables.db_counter w.tables.iterator_stack
      → IsValid w.heap
      → w.tables.db_counter + (asks request gas_limit w.tables.db_counter w.host).1.spent < u64_mod
      → Echoes w
          (asks request gas_limit w.tables.db_counter w.host)
          (encoded_answer json q request gas_limit w)

-- A querier that runs no contract.
abbrev pub asks_outside : {H : Type 0} → QueryJson → Querier H → Asks H
asks_outside json q request gas_limit n s =
    let (r, s') = encoded_answer json q request gas_limit s in
    (r, record { host = s'; spent = 0; given = [] })

encoded_answer-outside :
    {H : Type 0} (json : QueryJson) (q : Querier H) (request : Bytes) (gas_limit : ℕ) (w : World H)
    (r : Outcome (Decoded Slice × ℕ)) (s : H)
    → encoded_answer json q request gas_limit w.host ≡ (r, s)
    → encoded_answer json (outside q) request gas_limit w ≡ (r, record w { host = s })
unfolding rust_query
encoded_answer-outside json q request gas_limit w r s e =
    ground (arith, e, answer_query-outside q gas_limit (json.unmarshal_request (some request)))

outside-Echoes :
    {H A : Type 0} (w : World H) (r : Outcome A) (s : H)
    → IsValid w.heap
    → Echoes w (r, record { host = s; spent = 0; given = [] }) (r, record w { host = s })
outside-Echoes w r s v =
    let counter : w.tables.db_counter ≡ w.tables.db_counter + 0 = omega arith in
    let f : Follows w (record { host = s; spent = 0; given = [] }) (record w { host = s }) =
      record {
        same_host = refl;
        same_tables = ap (λ n. record w.tables { db_counter = n }) counter;
        grown = Grown-refl w.heap v;
      } in
    elim r
      as (λ r.
        Echoes w (r, record { host = s; spent = 0; given = [] }) (r, record w { host = s })) [
          | ok a ↦ (refl, f)
          | panic p ↦ (refl, f)
          | fault ↦ refl
        ]

pub outside-Realises :
    {H : Type 0} (json : QueryJson) (q : Querier H)
    → Realises json (outside q) (asks_outside json q)
outside-Realises json q = record {
  answers = λ request gas_limit w counted v room.
      let o = encoded_answer json q request gas_limit w.host in
      subst (Echoes w (o.0, record { host = o.1; spent = 0; given = [] }))
        (sym (encoded_answer-outside json q request gas_limit w o.0 o.1 refl))
        (outside-Echoes w o.0 o.1 v);
}
