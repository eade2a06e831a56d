-- ===== src/Api/Contract/Whole.antt =====
-- Instantiate, Handle and Migrate from end to end: api/lib.go, api/iterator.go, src/lib.rs, src/db.rs,
-- src/iterator.rs, src/api.rs, src/querier.rs and the callbacks of api/callbacks.go, against the
-- contract's run on the application itself.
use go_cosmwasm.Base.{
  u64_mod, ◌+◌, ℕ, ◌<◌, ◌^◌, ◌≡◌, refl, ap, true, false, none, some, length, ◌==◌,
}
use go_cosmwasm.Base.Dict.{lookup, Within}
use go_cosmwasm.Ffi.Query.Realises.{Realises}
use go_cosmwasm.Go.{Go, Outcome, ok, Bytes}
use go_cosmwasm.Ffi.Memory.{IsValid}
use go_cosmwasm.Ffi.Agreement.{intact}
use go_cosmwasm.Ffi.Error.{VmResult}
use go_cosmwasm.Ffi.Machine.{Vm}
use go_cosmwasm.Ffi.Entry.{library, contract_entry}
use go_cosmwasm.Ffi.Entry.Contract.{Runs, Ending, ending}
use go_cosmwasm.Ffi.Entry.Reporting.{contract_entry-reporting}
use go_cosmwasm.Ffi.Program.{Program, run, Bounded}
use go_cosmwasm.Ffi.Program.Direct.{Local, start, direct}
use go_cosmwasm.Ffi.Program.Mirrors.{Mirrors, Matches-intact}
use go_cosmwasm.Ffi.Program.Simulates.{run-Matches}
use go_cosmwasm.Api.World.{World}
use go_cosmwasm.Api.Host.{DbIterator}
use go_cosmwasm.Api.Iterator.{close_all}
use go_cosmwasm.Api.Callbacks.{build_db_state}
use go_cosmwasm.Api.Contract.{run_contract, instantiate, handle, migrate}
use go_cosmwasm.Api.Contract.Application.{App, environment_of, deps_of, extern_of}
use go_cosmwasm.Api.Contract.Lifecycle.{next_counter}
use go_cosmwasm.Api.Contract.Arguments.{lent-Readable}
use go_cosmwasm.Api.Contract.Sending.{sent-IsValid}
use go_cosmwasm.Api.Contract.Leaving.{Leaves, Leaves-state}
use go_cosmwasm.Api.Contract.Closing.{closing_tables, closing_all}
use go_cosmwasm.Api.Contract.Answers.{
  reported, frame_opened, frame_closed, lent, Answered, run_contract-Leaves,
}

module _ {H I R : Type 0} (it : DbIterator H) (vm : Vm H I) (cache : ℕ) (app : App H R)
    (gas_limit : ℕ) (code params msg : Bytes) (prog : Program I R) (w : World H) where
  -- What the contract does on the application from `w` on, and what of it goes back to the caller.
  abbrev pub ended : Outcome (VmResult Bytes × I) × Local H
  ended = direct (deps_of it app (next_counter w)) prog (start w.host)

  -- The iterators that it opened are closed, in their order.
  abbrev pub closed : Outcome (Unit {0}) × H
  closed = close_all it ended.1.frame ended.1.host

  abbrev pub end_of : Ending
  end_of = ending vm ended.0

  -- What a call relies on: a sound heap, a counter whose frame is free, with no frame above it and no
  -- wrap to come, a querier that answers as it should, arguments of the contract's
  -- calls below 2^31 bytes (and not the counter 0 where it steps an iterator), a machine that runs the
  -- tree `prog`, an end of that run that is no corrupted memory, and iterators that close without a
  -- panic.
  pub record Running (call : I → Bytes → Bytes → Go (World H) (VmResult Bytes × I)) : Type 0 where
    pub sound : IsValid w.heap
    pub fresh : lookup (next_counter w) w.tables.iterator_stack ≡ none
    pub realised : Realises app.json app.querier app.asks
    pub counted : Within (next_counter w) w.tables.iterator_stack
    pub room : next_counter w + ended.1.spent < u64_mod
    pub bounded : Bounded (next_counter w) prog
    pub runs :
        Runs vm call cache
          (extern_of app (next_counter w))
          gas_limit
          (deps_of it app (next_counter w))
          code
          params
          msg
          prog
    pub undamaged : intact ended.0 ≡ true
    pub closes : closed.0 ≡ ok tt

  -- And where it returns: the end is no lack of gas, and has fewer than 2^31 bytes.
  pub record Expected (call : I → Bytes → Bytes → Go (World H) (VmResult Bytes × I)) : Type 0 where
    pub running : Running call
    pub enough_gas : (end_of.errno == 2) ≡ false
    pub small : length end_of.bytes < 2 ^ 31

  -- The world after a call: its counter and those of the calls in between are spent, and the
  -- application is where the run left it once the iterators are closed.
  abbrev pub finished : World H
  finished = record w {
    tables = record w.tables { db_counter = next_counter w + ended.1.spent };
    host = closed.1;
  }

  -- The state in which the contract starts, and the one in which it ends.
  abbrev opened : World H
  opened = frame_opened (record w { heap = lent (some code) (some params) (some msg) w.heap })

  abbrev pub run_end : World H
  run_end = (run (deps_of it app (next_counter w)) prog opened).1

  opened-IsValid : IsValid w.heap → IsValid opened.heap
  opened-IsValid v =
      sent-IsValid (some msg) _ (sent-IsValid (some params) _ (sent-IsValid (some code) w.heap v))

  module _ (call : I → Bytes → Bytes → Go (World H) (VmResult Bytes × I)) (e : Running call) where
    pub run-end :
        ((run (deps_of it app (next_counter w)) prog opened).0 ≡ ended.0)
        × Mirrors (next_counter w) opened ended.1 run_end
    unfolding build_db_state
    run-end = Matches-intact (next_counter w) opened ended _ e.undamaged (
        run-Matches (deps_of it app (next_counter w)) prog opened e.realised e.fresh refl e.counted
          e.bounded (opened-IsValid e.sound) e.room)

    pub whole-Answered :
        Answered it
          (contract_entry vm call)
          (record { ptr = some cache })
          (some code)
          (some params)
          (some msg)
          (environment_of app)
          gas_limit
          end_of.gas
          end_of.errno
          end_of.bytes
          ended.1.given
          w
          run_end
          closed.1
    whole-Answered = record {
      ran =
          contract_entry-reporting vm call (deps_of it app (next_counter w)) cache _ _ _ _ _ _
            gas_limit code params msg prog opened run_end ended.0
            (lent-Readable code params msg w.heap) e.runs (ap (λ o. (o, run_end)) run-end.0)
            e.undamaged;
      grown = run-end.1.grown;
      closes =
          closing_all w run_end _ ended.1 e.fresh run-end.1 closed.1 it
            (ap (λ o. (o, closed.1)) e.closes);
    }

    pub whole_tables : (frame_closed (next_counter w) run_end closed.1).tables ≡ finished.tables
    whole_tables = closing_tables w run_end _ ended.1 e.fresh run-end.1 closed.1

  run_contract-whole :
      (call : I → Bytes → Bytes → Go (World H) (VmResult Bytes × I))
      → Expected call
      → (text_of : ℕ → Bytes)
      → Leaves
          (reported end_of.gas end_of.errno end_of.bytes)
          ended.1.given
          (run_contract it text_of
            (contract_entry vm call)
            (record { ptr = some cache })
            (some code)
            (some params)
            (some msg)
            (environment_of app)
            gas_limit)
          w
          finished
  run_contract-whole call e text_of =
      Leaves-state _ _ _ w (frame_closed (next_counter w) run_end closed.1) finished
        (whole_tables call e.running) refl
        (run_contract-Leaves it text_of (contract_entry vm call) _ _ _ _ _ gas_limit end_of.gas
          end_of.errno end_of.bytes ended.1.given w run_end closed.1 e.running.sound e.small
          e.enough_gas (whole-Answered call e.running))

  -- Handle, through src/lib.rs, src/db.rs, src/iterator.rs, src/api.rs, src/querier.rs and the
  -- callbacks, returns what the contract's run on the application itself ends with, an error or a
  -- caught panic included, and leaves the application as that run does once the iterators that it
  -- opened are closed, in the order of their opening. No frame is left, and the counter has moved
  -- on by this call and those in between; the blocks that stay allocated beyond those that were
  -- there are Rust's: one for each key and value, not empty, that an iterator gave, and those that
  -- the querier leaves as `asks` says, such as the message of another contract that ran out of gas.
  -- The conditions are those of `Expected`, for the machine's function for Handle.
  pub handle_whole :
      Expected vm.call_handle_raw
      → Leaves
          (reported end_of.gas end_of.errno end_of.bytes)
          ended.1.given
          (handle it
            (library vm)
            (record { ptr = some cache })
            (some code)
            (some params)
            (some msg)
            (environment_of app)
            gas_limit)
          w
          finished
  unfolding handle library
  handle_whole e = run_contract-whole vm.call_handle_raw e vm.errno_text

  -- The same for Instantiate, with the machine's function for it.
  pub instantiate_whole :
      Expected vm.call_init_raw
      → Leaves
          (reported end_of.gas end_of.errno end_of.bytes)
          ended.1.given
          (instantiate it
            (library vm)
            (record { ptr = some cache })
            (some code)
            (some params)
            (some msg)
            (environment_of app)
            gas_limit)
          w
          finished
  unfolding instantiate library
  instantiate_whole e = run_contract-whole vm.call_init_raw e vm.errno_text

  -- The same for Migrate, with the machine's function for it.
  pub migrate_whole :
      Expected vm.call_migrate_raw
      → Leaves
          (reported end_of.gas end_of.errno end_of.bytes)
          ended.1.given
          (migrate it
            (library vm)
            (record { ptr = some cache })
            (some code)
            (some params)
            (some msg)
            (environment_of app)
            gas_limit)
          w
          finished
  unfolding migrate library
  migrate_whole e = run_contract-whole vm.call_migrate_raw e vm.errno_text
