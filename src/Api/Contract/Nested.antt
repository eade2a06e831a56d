-- ===== src/Api/Contract/Nested.antt =====
-- A call of Query of api/lib.go within a call, in step with the callee's run on the application.
use mathlib.Core.Path.{subst}
use go_cosmwasm.Base.{ℕ, ◌+◌, ◌<◌, ◌%◌, ◌≡◌, refl, sym, ap, ◌∙◌, u64_mod, arith}
use go_cosmwasm.Base.Dict.{Within, Within-mono}
use go_cosmwasm.Go.{Go, Outcome, ok, panic, fault}
use go_cosmwasm.Ffi.Memory.Grown.{Grown-trans}
use go_cosmwasm.Ffi.Lockstep.{Matching, InStep, Abreast}
use go_cosmwasm.Ffi.Machine.{Vm}
use go_cosmwasm.Ffi.Query.Realises.{Effect, Follows}
use go_cosmwasm.Api.World.{Tables, World, on_host}
use go_cosmwasm.Api.Host.{DbIterator}
use go_cosmwasm.Api.Contract.Lifecycle.{next_counter}
use go_cosmwasm.Api.Contract.Callee.{
  Callee, Room, at_effect, callee_end, callee_answer, Callable, calling, callee-Running,
  callee-Leaves,
}

module _ {H : Type 0} (w : World H) where
  same_tables-after :
      (u : World H) (e s : ℕ)
      → u.tables ≡ record w.tables { db_counter = w.tables.db_counter + e }
      → w.tables.db_counter + (e + 1 + s) < u64_mod
      → record u.tables { db_counter = next_counter u + s }
        ≡ record w.tables { db_counter = w.tables.db_counter + (e + 1 + s) }
  same_tables-after u e s same fits =
      let at : u.tables.db_counter ≡ w.tables.db_counter + e = ap (λ t. t.db_counter) same in
      let now : next_counter u + s ≡ w.tables.db_counter + (e + 1 + s) = omega (arith, at, fits) in
      let place : Tables → Tables = λ t. record t { db_counter = next_counter u + s } in
      let count : ℕ → Tables = λ n. record w.tables { db_counter = n } in
      ap place same ∙ ap count now

  host-Matching :
      {A : Type 0} (e : Effect H) (u : World H) (o : Outcome A) (s : H)
      → Follows w e u
      → Matching (Follows w) (o, record e { host = s }) (o, record u { host = s })
  host-Matching e u o s f =
      let g : Follows w (record e { host = s }) (record u { host = s }) = record {
        same_host = refl;
        same_tables = f.same_tables;
        grown = f.grown;
      } in
      elim o as (λ o. Matching (Follows w) (o, record e { host = s }) (o, record u { host = s })) [
        | ok a ↦ (refl, g)
        | panic p ↦ (refl, g)
        | fault ↦ refl
      ]

  pub host-Abreast :
      {A : Type 0} (m : Go H A) → Abreast (Follows w) (Room w) (at_effect m) (on_host m)
  host-Abreast m = record {
    falls = λ e room. room;
    steps = λ e u f room.
        subst (λ s. Matching (Follows w) (at_effect m (record e { host = s })) (on_host m u))
          f.same_host (host-Matching e u (m u.host).0 (m u.host).1 f);
  }

module _ {H I R : Type 0} (it : DbIterator H) (vm : Vm H I) (cache : ℕ) where
  module _ (w : World H) (counted : Within w.tables.db_counter w.tables.iterator_stack) where
    -- What a call leaves after what was left before.
    callee-Follows :
        (c : Callee H I R) (gas_limit : ℕ) (e : Effect H) (u : World H)
        → Callable it vm cache c
        → Follows w e u
        → InStep
            (Follows w)
            (Room w)
            (callee_answer it vm cache c gas_limit (next_counter u) (record e { host = u.host }))
            (calling it vm cache c gas_limit u)
    callee-Follows c gas_limit e u a f = λ room.
        let k : ℕ = next_counter u in
        let o = callee_end it vm cache c gas_limit k u.host in
        let at : u.tables.db_counter ≡ w.tables.db_counter + e.spent =
          ap (λ t. t.db_counter) f.same_tables in
        let fits : w.tables.db_counter + (e.spent + 1 + o.1.spent) < u64_mod = room in
        let r =
          callee-Running it vm cache c gas_limit u a f.grown.valid
            (subst (λ t. Within t.db_counter t.iterator_stack) (sym f.same_tables)
              (Within-mono w.tables.db_counter _ w.tables.iterator_stack (omega arith) counted))
            (omega (arith, at, fits)) (omega (arith, at, fits)) in
        let left =
          callee-Leaves it vm cache c gas_limit u r o.0 refl (a.small gas_limit k u.host) in
        subst
          (λ x.
            Matching (Follows w)
              (callee_answer it vm cache c gas_limit k (record e { host = u.host })) x)
          (sym left.ends)
          (
            refl,
            record {
              same_host = refl;
              same_tables = same_tables-after w u e.spent o.1.spent f.same_tables fits;
              grown = Grown-trans w.heap u.heap left.heap e.given _ f.grown left.grown;
            },
          )

    -- By the counter that the call gets, as a number.
    pub callee-Abreast :
        (c : Callee H I R) (gas_limit : ℕ)
        → Callable it vm cache c
        → Abreast
            (Follows w)
            (Room w)
            (λ e.
              callee_answer it vm cache c gas_limit
                ((w.tables.db_counter + e.spent + 1) % u64_mod)
                e)
            (calling it vm cache c gas_limit)
    callee-Abreast c gas_limit a = record {
      falls = λ e room. omega (arith, room);
      steps = λ e u f.
          subst
            (λ k.
              InStep (Follows w) (Room w) (callee_answer it vm cache c gas_limit k e)
                (calling it vm cache c gas_limit u))
            (ap (λ t. (t.db_counter + 1) % u64_mod) f.same_tables)
            (subst
              (λ s.
                InStep (Follows w) (Room w)
                  (callee_answer it vm cache c gas_limit (next_counter u) (record e { host = s }))
                  (calling it vm cache c gas_limit u))
              f.same_host (callee-Follows c gas_limit e u a f));
    }
