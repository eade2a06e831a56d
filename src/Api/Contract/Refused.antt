-- ===== src/Api/Contract/Refused.antt =====
-- A contract call with an argument that src/lib.rs turns down: what the caller in Go is told.
use go_cosmwasm.Base.{
  ◌+◌, ap, ℕ, ◌≤◌, ◌<◌, ◌^◌, ◌≡◌, refl, ◌∙◌, false, none, some, [], length, ◌==◌, arith,
}
use go_cosmwasm.Base.Dict.{lookup}
use go_cosmwasm.Go.{Go, ok, Bytes, Slice}
use go_cosmwasm.Ffi.Memory.{Heap, IsValid, read}
use go_cosmwasm.Ffi.Error.{RustError, VmResult, error_message, errno_value}
use go_cosmwasm.Ffi.Machine.{Vm}
use go_cosmwasm.Ffi.Entry.{library, contract_entry}
use go_cosmwasm.Ffi.Entry.Refusal.{refusal, Arguments, contract_entry-refused}
use go_cosmwasm.Api.World.{World}
use go_cosmwasm.Api.Host.{DbIterator}
use go_cosmwasm.Api.Memory.{send_slice}
use go_cosmwasm.Api.Library.{Cache}
use go_cosmwasm.Api.Contract.{Environment, run_contract, instantiate, handle, migrate}
use go_cosmwasm.Api.Contract.Lifecycle.{next_counter}
use go_cosmwasm.Api.Contract.Arguments.{read-lent}
use go_cosmwasm.Api.Contract.Sending.{Ends, Ends-state, sent, sent_buffer, sent-IsValid}
use go_cosmwasm.Api.Contract.Closing.{closing_tables, closing_all}
use go_cosmwasm.Api.Contract.Leaving.{Leaves-Ends}
use go_cosmwasm.Api.Iterator.{close_all}
use go_cosmwasm.Ffi.Memory.Grown.{Grown-refl}
use go_cosmwasm.Ffi.Program.Direct.{start}
use go_cosmwasm.Ffi.Program.Mirrors.{Mirrors, Mirrors-start}
use go_cosmwasm.Api.Contract.Answers.{
  reported, frame_opened, frame_closed, lent, Answered, run_contract-Leaves,
}

same_counter : (n : ℕ) → n + 0 ≡ n
same_counter n = omega arith

sent-lookup :
    (x : Slice) (h : Heap) (p : ℕ) → p < h.next → lookup p (sent x h).blocks ≡ lookup p h.blocks
unfolding send_slice
sent-lookup none h p b = refl
sent-lookup (some xs) h p b = ground arith

sent-grows : (x : Slice) (h : Heap) → h.next ≤ (sent x h).next
unfolding send_slice
sent-grows none h = omega arith
sent-grows (some xs) h = omega arith

-- A slice that was sent is read back, nil included, as long as its block is there.
sent-read :
    (x : Slice) (h g : Heap)
    → ((p : ℕ) → p < (sent x h).next → lookup p g.blocks ≡ lookup p (sent x h).blocks)
    → read (sent_buffer x h) g ≡ (ok x, g)
unfolding send_slice read
sent-read none h g k = refl
sent-read (some xs) h g k = read-lent h.next xs g (k h.next (omega arith) ∙ ground arith)

lent-Arguments :
    (code params msg : Slice) (h : Heap)
    → Arguments
        (sent_buffer code h)
        (sent_buffer params (sent code h))
        (sent_buffer msg (sent params (sent code h)))
        code
        params
        msg
        (lent code params msg h)
lent-Arguments code params msg h =
    let a : Heap = sent code h in
    let b : Heap = sent params a in
    record {
      id_read = sent-read code h _ λ p l.
          sent-lookup msg b p (omega (arith, l, sent-grows params a)) ∙ sent-lookup params a p l;
      params_read = sent-read params a _ λ p l. sent-lookup msg b p l;
      msg_read = sent-read msg b _ λ p l. refl;
    }

module _ {H I : Type 0} (it : DbIterator H) (vm : Vm H I) (cache : Cache) (env : Environment H)
    (gas_limit : ℕ) (code params msg : Slice) (x : RustError) (w : World H) where
  -- A call that is refused: a sound heap, a counter whose frame is free, and the error `x`, which is
  -- not a lack of gas and whose text has fewer than 2^31 bytes.
  pub record Refused : Type 0 where
    pub sound : IsValid w.heap
    pub fresh : lookup (next_counter w) w.tables.iterator_stack ≡ none
    pub refused : refusal vm cache.ptr code params msg ≡ some x
    pub not_gas : (errno_value x == 2) ≡ false
    pub small : length (error_message x) < 2 ^ 31

  -- The world after it: the counter is spent.
  abbrev pub passed : World H
  passed = record w { tables = record w.tables { db_counter = next_counter w } }

  abbrev opened : World H
  opened = frame_opened (record w { heap = lent code params msg w.heap })

  opened-IsValid : Refused → IsValid opened.heap
  opened-IsValid r = sent-IsValid msg _ (sent-IsValid params _ (sent-IsValid code w.heap r.sound))

  opened-Mirrors : Refused → Mirrors (next_counter w) opened (start w.host) opened
  opened-Mirrors r = Mirrors-start (next_counter w) opened (opened-IsValid r)

  module _ (r : Refused) where
    refused-Answered :
        (call : I → Bytes → Bytes → Go (World H) (VmResult Bytes × I))
        → Answered it
            (contract_entry vm call)
            cache
            code
            params
            msg
            env
            gas_limit
            0
            (errno_value x)
            (error_message x)
            []
            w
            opened
            w.host
    unfolding close_all
    refused-Answered call = record {
      ran =
          contract_entry-refused vm call cache.ptr _ _ _ _ _ _ gas_limit code params msg x opened
            (lent-Arguments code params msg w.heap) r.refused;
      grown = Grown-refl opened.heap (opened-IsValid r);
      closes =
          closing_all w opened opened.heap (start w.host) r.fresh (opened-Mirrors r) w.host it refl;
    }

    run_contract-refused :
        (call : I → Bytes → Bytes → Go (World H) (VmResult Bytes × I)) (text_of : ℕ → Bytes)
        → Ends
            (reported 0 (errno_value x) (error_message x))
            (run_contract it text_of (contract_entry vm call) cache code params msg env gas_limit)
            w
            passed
    run_contract-refused call text_of =
        Ends-state _ _ w (frame_closed (next_counter w) opened w.host) passed
          (closing_tables w opened opened.heap (start w.host) r.fresh (opened-Mirrors r) w.host
            ∙ ap (λ n. record w.tables { db_counter = n }) (same_counter (next_counter w)))
          refl
          (Leaves-Ends _ _ w _ (
            run_contract-Leaves it text_of (contract_entry vm call) cache code params msg env
              gas_limit 0 (errno_value x) (error_message x) [] w opened w.host r.sound r.small
              r.not_gas (refused-Answered call)))

  -- Instantiate, Handle and Migrate with a null cache, a nil argument or a code id that is no
  -- checksum return the error of the first of these, without gas, and leave nothing behind but a spent
  -- counter: no contract runs and the application is not asked. The conditions are those of `Refused`.
  pub contract_refused :
      Refused
      → Ends
          (reported 0 (errno_value x) (error_message x))
          (instantiate it (library vm) cache code params msg env gas_limit)
          w
          passed
        × Ends
            (reported 0 (errno_value x) (error_message x))
            (handle it (library vm) cache code params msg env gas_limit)
            w
            passed
        × Ends
            (reported 0 (errno_value x) (error_message x))
            (migrate it (library vm) cache code params msg env gas_limit)
            w
            passed
  unfolding instantiate handle migrate library
  contract_refused r = (
    run_contract-refused r vm.call_init_raw vm.errno_text,
    run_contract-refused r vm.call_handle_raw vm.errno_text,
    run_contract-refused r vm.call_migrate_raw vm.errno_text,
  )
