-- ===== src/Api/Contract/Callee.antt =====
-- What Query of api/lib.go answers to a caller that runs on the same world: a contract within a
-- contract.
use mathlib.Core.Path.{subst}
use go_cosmwasm.Base.{
  ℕ, ◌+◌, ◌<◌, ◌^◌, ◌≡◌, refl, true, false, some, List, [], ◌∷◌, ◌++◌, length, ◌==◌, u64_mod, arith,
}
use go_cosmwasm.Base.Dict.{Within, Within-mono, Within-absent}
use go_cosmwasm.Go.{Go, Outcome, ok, panic, fault, Bytes}
use go_cosmwasm.Ffi.Memory.{IsValid}
use go_cosmwasm.Ffi.Error.{VmError, VmResult, vm_ok, vm_failed, of_vm, errno_value, error_message}
use go_cosmwasm.Ffi.Agreement.{intact}
use go_cosmwasm.Ffi.Machine.{Vm}
use go_cosmwasm.Ffi.Entry.{library}
use go_cosmwasm.Ffi.Entry.Contract.{Runs, ending}
use go_cosmwasm.Ffi.Entry.Query.{querying}
use go_cosmwasm.Ffi.Program.{Program, Bounded}
use go_cosmwasm.Ffi.Program.Direct.{Local, start, direct}
use go_cosmwasm.Ffi.Query.Realises.{Effect, Realises}
use go_cosmwasm.Api.World.{World}
use go_cosmwasm.Api.Host.{DbIterator}
use go_cosmwasm.Api.Iterator.{close_all}
use go_cosmwasm.Api.Contract.{Returned, query}
use go_cosmwasm.Api.Contract.Application.{App, environment_of, deps_of, extern_of}
use go_cosmwasm.Api.Contract.Answers.{reported}
use go_cosmwasm.Api.Contract.Leaving.{Leaves}
use go_cosmwasm.Api.Contract.Lifecycle.{next_counter}
use go_cosmwasm.Api.Contract.Depleted.{depleted}
use go_cosmwasm.Api.Contract.Whole.{Running, finished}
use go_cosmwasm.Api.Contract.Asked.{query_whole, query_depleted}

-- A contract that a request is for: its code and message, what it runs under a gas limit, and what it
-- is given. Where the gas of the limit does not suffice, the run ends with `gas_depletion`.
pub record Callee (H I R : Type 0) : Type 0 where
  pub code : Bytes
  pub msg : Bytes
  pub prog : ℕ → Program I R
  pub app : App H R

-- What Query returns, and what stays in Rust's heap, for the end of a run.
abbrev pub told_end : {H I : Type 0} → Vm H I → Outcome (VmResult Bytes × I) → Returned
told_end vm (ok (vm_failed VmError.gas_depletion, i)) = depleted (vm.used_internally i)
told_end vm o = reported (ending vm o).gas (ending vm o).errno (ending vm o).bytes

abbrev pub kept_end : {I : Type 0} → Outcome (VmResult Bytes × I) → List Bytes → List Bytes
kept_end (ok (vm_failed VmError.gas_depletion, i)) given =
    error_message (of_vm VmError.gas_depletion) ∷ given
kept_end o given = given

abbrev pub at_effect : {H A : Type 0} → Go H A → Go (Effect H) A
at_effect m e = let (r, s) = m e.host in (r, record e { host = s })

abbrev pub Room : {H : Type 0} → World H → Effect H → Type 0
Room w e = w.tables.db_counter + e.spent < u64_mod

module _ {H I R : Type 0} (it : DbIterator H) (vm : Vm H I) (cache : ℕ) where
  -- The callee's run on the application under a gas limit, as the call with the number `k`.
  abbrev pub callee_end : Callee H I R → ℕ → ℕ → H → Outcome (VmResult Bytes × I) × Local H
  callee_end c gas_limit k s = direct (deps_of it c.app k) (c.prog gas_limit) (start s)

  abbrev pub callee_closed : Callee H I R → ℕ → ℕ → H → Outcome (Unit {0}) × H
  callee_closed c gas_limit k s =
      let l = (callee_end c gas_limit k s).1 in close_all it l.frame l.host

  -- The same as an answer, with what it leaves.
  abbrev pub callee_answer : Callee H I R → ℕ → ℕ → Go (Effect H) Returned
  callee_answer c gas_limit k e =
      let (o, l) = callee_end c gas_limit k e.host in
      (
        ok (told_end vm o),
        record {
          host = (callee_closed c gas_limit k e.host).1;
          spent = e.spent + 1 + l.spent;
          given = kept_end o l.given ++ e.given;
        },
      )

  -- What is relied on of a callee, whenever it is called and under whatever gas limit: the machine runs
  -- the tree for that limit, which may be one that runs out of gas.
  pub record Callable (c : Callee H I R) : Type 0 where
    pub realised : Realises c.app.json c.app.querier c.app.asks
    pub bounded : (gas_limit k : ℕ) → 0 < k → Bounded k (c.prog gas_limit)
    pub runs :
        (gas_limit k : ℕ)
        → Runs vm
            (querying vm)
            cache
            (extern_of c.app k)
            gas_limit
            (deps_of it c.app k)
            c.code
            []
            c.msg
            (c.prog gas_limit)
    pub undamaged : (gas_limit k : ℕ) (s : H) → intact (callee_end c gas_limit k s).0 ≡ true
    pub closes : (gas_limit k : ℕ) (s : H) → (callee_closed c gas_limit k s).0 ≡ ok tt
    pub small :
        (gas_limit k : ℕ) (s : H) → length (ending vm (callee_end c gas_limit k s).0).bytes < 2 ^ 31

  abbrev pub calling : Callee H I R → ℕ → Go (World H) Returned
  calling c gas_limit =
      query it (library vm) (record { ptr = some cache }) (some c.code) (some c.msg)
        (environment_of c.app) gas_limit

  module _ (c : Callee H I R) (gas_limit : ℕ) (w : World H) where
    answered_callee :
        (r : Running it vm cache c.app gas_limit c.code [] c.msg (c.prog gas_limit) w (querying vm))
        (o : Outcome (VmResult Bytes × I))
        → (callee_end c gas_limit (next_counter w) w.host).0 ≡ o
        → ((ending vm o).errno == 2) ≡ false
        → length (ending vm o).bytes < 2 ^ 31
        → Leaves
            (reported (ending vm o).gas (ending vm o).errno (ending vm o).bytes)
            (callee_end c gas_limit (next_counter w) w.host).1.given
            (calling c gas_limit)
            w
            (finished it vm cache c.app gas_limit c.code [] c.msg (c.prog gas_limit) w)
    answered_callee r o e n s =
        subst
          (λ o.
            ((ending vm o).errno == 2) ≡ false
            → length (ending vm o).bytes < 2 ^ 31
            → Leaves (reported (ending vm o).gas (ending vm o).errno (ending vm o).bytes)
                (callee_end c gas_limit (next_counter w) w.host).1.given (calling c gas_limit) w
                (finished it vm cache c.app gas_limit c.code [] c.msg (c.prog gas_limit) w))
          e
          (λ n s.
            query_whole it vm cache c.app gas_limit c.code c.msg (c.prog gas_limit) w
              (record { running = r; enough_gas = n; small = s }))
          n s

    -- Query of the callee, whether or not it runs out of gas.
    pub callee-Leaves :
        (r : Running it vm cache c.app gas_limit c.code [] c.msg (c.prog gas_limit) w (querying vm))
        (o : Outcome (VmResult Bytes × I))
        → (callee_end c gas_limit (next_counter w) w.host).0 ≡ o
        → length (ending vm o).bytes < 2 ^ 31
        → Leaves
            (told_end vm o)
            (kept_end o (callee_end c gas_limit (next_counter w) w.host).1.given)
            (calling c gas_limit)
            w
            (finished it vm cache c.app gas_limit c.code [] c.msg (c.prog gas_limit) w)
    unfolding of_vm errno_value error_message
    callee-Leaves r (ok (vm_failed VmError.gas_depletion, i)) e s =
        query_depleted it vm cache c.app gas_limit c.code c.msg (c.prog gas_limit) w i r e
    callee-Leaves r (ok (vm_ok xs, i)) e s = answered_callee r (ok (vm_ok xs, i)) e refl s
    callee-Leaves r (ok (vm_failed (VmError.other_vm t), i)) e s =
        answered_callee r (ok (vm_failed (VmError.other_vm t), i)) e refl s
    callee-Leaves r (panic p) e s = answered_callee r (panic p) e refl s
    callee-Leaves r fault e s = answered_callee r fault e refl s

    pub callee-Running :
        Callable c
        → IsValid w.heap
        → Within w.tables.db_counter w.tables.iterator_stack
        → w.tables.db_counter + 1 < u64_mod
        → next_counter w + (callee_end c gas_limit (next_counter w) w.host).1.spent < u64_mod
        → Running it vm cache c.app gas_limit c.code [] c.msg (c.prog gas_limit) w (querying vm)
    callee-Running a v counted fits room =
        let below : w.tables.db_counter < next_counter w = omega (arith, fits) in
        let positive : 0 < next_counter w = omega (arith, fits) in
        record {
          sound = v;
          fresh = Within-absent w.tables.db_counter (next_counter w) _ below counted;
          realised = a.realised;
          counted =
              Within-mono w.tables.db_counter (next_counter w) _ (omega (arith, below)) counted;
          room = room;
          bounded = a.bounded gas_limit (next_counter w) positive;
          runs = a.runs gas_limit (next_counter w);
          undamaged = a.undamaged gas_limit (next_counter w) w.host;
          closes = a.closes gas_limit (next_counter w) w.host;
        }
