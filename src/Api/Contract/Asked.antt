-- ===== src/Api/Contract/Asked.antt =====
-- Query from end to end, against the contract's run on the application itself.
use go_cosmwasm.Base.{List, ◌∷◌, ◌∙◌, ℕ, suc, ◌≡◌, refl, ap, some, [], arith}
use go_cosmwasm.Go.{Go, ok, Bytes}
use go_cosmwasm.Ffi.Memory.{Heap, IsValid, read}
use go_cosmwasm.Ffi.Machine.{Vm}
use go_cosmwasm.Ffi.Entry.{library, query_entry}
use go_cosmwasm.Ffi.Entry.Contract.{ending}
use go_cosmwasm.Ffi.Error.{VmError, vm_failed, of_vm, errno_value, error_message}
use go_cosmwasm.Base.Text.{text}
use go_cosmwasm.Base.Dict.{lookup}
use go_cosmwasm.Api.Iterator.{close_all, frame_of}
use go_cosmwasm.Api.Library.{Db, Reply, build_db, build_api, build_querier}
use go_cosmwasm.Api.Contract.Depleted.{depleted, in_frame-depleted}
use go_cosmwasm.Ffi.Memory.{Buffer}
use go_cosmwasm.Ffi.Entry.Query.{querying, query_entry-reporting}
use go_cosmwasm.Ffi.Program.{Program, run}
use go_cosmwasm.Ffi.Program.Mirrors.{Mirrors, Matches-intact}
use go_cosmwasm.Ffi.Program.Simulates.{run-Matches}
use go_cosmwasm.Api.Callbacks.{build_db_state}
use go_cosmwasm.Api.World.{World}
use go_cosmwasm.Api.Host.{DbIterator}
use go_cosmwasm.Api.Memory.{send_slice}
use go_cosmwasm.Api.Contract.{Returned, in_frame, query}
use go_cosmwasm.Api.Contract.Application.{App, environment_of, deps_of}
use go_cosmwasm.Api.Contract.Lifecycle.{next_counter}
use go_cosmwasm.Api.Contract.Arguments.{read-lent}
use go_cosmwasm.Api.Contract.Sending.{sent, sent_buffer, sent-IsValid}
use go_cosmwasm.Api.Contract.Leaving.{Leaves, Leaves-state, sending-Leaves}
use go_cosmwasm.Api.Contract.Closing.{closing_tables, closing_all}
use go_cosmwasm.Api.Contract.Answers.{
  reported, reporting, frame_opened, frame_closed, in_frame-Leaves,
}
use go_cosmwasm.Api.Contract.Whole.{Running, Expected, ended, closed, end_of, finished}

-- Rust can read the two arguments that Go sends.
two-read :
    (code msg : Bytes) (h : Heap)
    → let g = sent (some msg) (sent (some code) h) in
      (read (sent_buffer (some code) h) g ≡ (ok (some code), g))
      × (read (sent_buffer (some msg) (sent (some code) h)) g ≡ (ok (some msg), g))
unfolding send_slice
two-read code msg h =
    (read-lent h.next code _ (ground arith), read-lent (suc h.next) msg _ (ground arith))

module _ {H I R : Type 0} (it : DbIterator H) (vm : Vm H I) (cache : ℕ) (app : App H R)
    (gas_limit : ℕ) (code msg : Bytes) (prog : Program I R) (w : World H) where
  abbrev asked : Heap
  asked = sent (some msg) (sent (some code) w.heap)

  abbrev asking : World H
  asking = frame_opened (record w { heap = asked })

  abbrev asked_end : World H
  asked_end = (run (deps_of it app (next_counter w)) prog asking).1

  module _ (e : Running it vm cache app gas_limit code [] msg prog w (querying vm)) where
    asked-IsValid : IsValid asked
    asked-IsValid = sent-IsValid (some msg) _ (sent-IsValid (some code) w.heap e.sound)

    asked-end :
        ((run (deps_of it app (next_counter w)) prog asking).0
          ≡ (ended it vm cache app gas_limit code [] msg prog w).0)
        × Mirrors
            (next_counter w)
            asking
            (ended it vm cache app gas_limit code [] msg prog w).1
            asked_end
    unfolding build_db_state
    asked-end =
        Matches-intact (next_counter w) asking (ended it vm cache app gas_limit code [] msg prog w)
          _ e.undamaged
          (run-Matches (deps_of it app (next_counter w)) prog asking e.realised e.fresh refl
            e.counted e.bounded asked-IsValid e.room)

    abbrev asked_call : Db H → Go (World H) (Reply Buffer)
    asked_call db =
        query_entry vm (some cache) (sent_buffer (some code) w.heap)
          (sent_buffer (some msg) (sent (some code) w.heap)) db (build_api (some app.api))
          (build_querier (some app.querier)) gas_limit

    asked-reporting :
        let f = end_of it vm cache app gas_limit code [] msg prog w in
        asked_call
          (build_db (some (build_db_state app.store (next_counter w))) (some app.meter))
          asking
        ≡ reporting f.gas f.errno f.bytes asked_end
    asked-reporting =
        let reads = two-read code msg w.heap in
        query_entry-reporting vm (deps_of it app (next_counter w)) cache _ _ _ _ _ gas_limit code
          msg prog asking asked_end (ended it vm cache app gas_limit code [] msg prog w).0 reads.0
          reads.1 e.runs (ap (λ x. (x, asked_end)) asked-end.0) e.undamaged

    asked-closes :
        let s : H = (closed it vm cache app gas_limit code [] msg prog w).1 in
        close_all it
          (frame_of (lookup (next_counter w) asked_end.tables.iterator_stack))
          asked_end.host
        ≡ (ok tt, s)
    asked-closes =
        let s : H = (closed it vm cache app gas_limit code [] msg prog w).1 in
        closing_all w asked_end asked (ended it vm cache app gas_limit code [] msg prog w).1 e.fresh
          asked-end.1 s it (ap (λ x. (x, s)) e.closes)

    -- What the call leaves within its frame, it leaves as a whole.
    query-framed :
        (a : Returned) (given : List Bytes)
        → Leaves a given
            (in_frame it vm.errno_text (environment_of app) asked_call)
            (record w { heap = asked })
            (frame_closed
              (next_counter w)
              asked_end
              (closed it vm cache app gas_limit code [] msg prog w).1)
        → Leaves a given
            (query it
              (library vm)
              (record { ptr = some cache })
              (some code)
              (some msg)
              (environment_of app)
              gas_limit)
            w
            (finished it vm cache app gas_limit code [] msg prog w)
    unfolding query library
    query-framed a given x =
        let (o, l) = ended it vm cache app gas_limit code [] msg prog w in
        let s : H = (closed it vm cache app gas_limit code [] msg prog w).1 in
        Leaves-state _ _ _ w (frame_closed (next_counter w) asked_end s) _
          (closing_tables w asked_end asked l e.fresh asked-end.1 s) refl
          (sending-Leaves _ _ (some code) _ w _ e.sound
            (sending-Leaves _ _ (some msg) _ _ _ (sent-IsValid (some code) w.heap e.sound) x))

  -- Query, through src/lib.rs, src/db.rs, src/iterator.rs, src/api.rs, src/querier.rs and the
  -- callbacks, returns what the contract's run on the application itself ends with, and leaves the
  -- application as that run does once the iterators that it opened are closed: no frame is left,
  -- and the counter has moved on by this call and those in between; the blocks that stay allocated
  -- beyond those that were there are Rust's: one for each key and value, not empty, that an
  -- iterator gave, and those that the querier leaves as `asks` says, such as the message of another
  -- contract that ran out of gas. The conditions are those of `Expected`, for the machine's
  -- function for queries.
  pub query_whole :
      Expected it vm cache app gas_limit code [] msg prog w (querying vm)
      → let e = end_of it vm cache app gas_limit code [] msg prog w in
        Leaves
          (reported e.gas e.errno e.bytes)
          (ended it vm cache app gas_limit code [] msg prog w).1.given
          (query it
            (library vm)
            (record { ptr = some cache })
            (some code)
            (some msg)
            (environment_of app)
            gas_limit)
          w
          (finished it vm cache app gas_limit code [] msg prog w)
  query_whole e =
      let f = end_of it vm cache app gas_limit code [] msg prog w in
      let r = e.running in
      query-framed r _ _ (
        in_frame-Leaves it vm.errno_text (environment_of app) (asked_call r) f.gas f.errno f.bytes _
          (record w { heap = asked }) asked_end _ e.small e.enough_gas (asked-reporting r)
          (asked-end r).1.grown (asked-closes r))

  -- When the contract's run on the application itself ends out of gas, Query returns OutOfGasError
  -- with the gas of the instance and leaves the application as that run does once its iterators are
  -- closed, without a frame. One block of Rust's more stays allocated than those of the iterators'
  -- entries and those that the querier leaves: the message "Ran out of gas". The conditions are
  -- those of `Running`, for the machine's function for queries.
  pub query_depleted :
      (i : I)
      → Running it vm cache app gas_limit code [] msg prog w (querying vm)
      → (ended it vm cache app gas_limit code [] msg prog w).0
        ≡ ok (vm_failed VmError.gas_depletion, i)
      → Leaves
          (depleted (vm.used_internally i))
          (text "Ran out of gas" ∷ (ended it vm cache app gas_limit code [] msg prog w).1.given)
          (query it
            (library vm)
            (record { ptr = some cache })
            (some code)
            (some msg)
            (environment_of app)
            gas_limit)
          w
          (finished it vm cache app gas_limit code [] msg prog w)
  unfolding of_vm errno_value error_message text
  query_depleted i r out = query-framed r _ _ (
      in_frame-depleted it vm.errno_text (environment_of app) (asked_call r) (vm.used_internally i)
        _ _ _ (record w { heap = asked }) asked_end _
        (asked-reporting r
          ∙ ap (λ o. reporting (ending vm o).gas (ending vm o).errno (ending vm o).bytes asked_end)
              out)
        (asked-end r).1.grown (asked-closes r))
