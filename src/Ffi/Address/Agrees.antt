-- ===== src/Ffi/Address/Agrees.antt =====
-- The addresses that a contract gets are the application's.
use mathlib.Core.Path.{subst}
use go_cosmwasm.Base.{ℕ, ◌<◌, ◌^◌, ◌≡◌, refl, Option, none, some, [], ◌∷◌, length, arith}
use go_cosmwasm.Go.{Go, Outcome, ok, panic, fault, pure, ◌>>=◌, Bytes, Slice}
use go_cosmwasm.Ffi.Memory.{IsValid, Buffer}
use go_cosmwasm.Ffi.Status.{GoResult, FfiError, FfiResult, done, failed}
use go_cosmwasm.Ffi.Storage.{call_back, fresh_slots, value_of}
use go_cosmwasm.Ffi.Storage.Exchange.{Exchange, exchange, from_vec-receive_slice}
use go_cosmwasm.Ffi.Storage.Refines.{panic_error}
use go_cosmwasm.Ffi.Agreement.{Agrees, Agrees-bind}
use go_cosmwasm.Ffi.Address.{address_call, as_text, canonical_address, human_address}
use go_cosmwasm.Api.World.{World}
use go_cosmwasm.Api.Host.{GoApi}
use go_cosmwasm.Api.Memory.{allocate_rust, receive_slice}
use go_cosmwasm.Api.Callbacks.{Callback, Slots, panic_status}
use go_cosmwasm.Api.Callbacks.Address.{c_human_address, c_canonical_address, as_string}

-- What the application answers: an address, its cost, and the text of the error if there is one.
abbrev pub Addressed : Type 0 → Type 0
Addressed H = Outcome (Bytes × ℕ × Option Bytes) × H

-- What the machine is told of it: an empty address shows as a panic, which has its cost all the same.
abbrev pub told : {H : Type 0} → Addressed H → Outcome (FfiResult Bytes × ℕ) × H
told (ok (a, cost, some t), s) = (ok (failed (FfiError.user_err (some t)), cost), s)
told (ok ([], cost, none), s) = (ok (failed FfiError.foreign_panic, cost), s)
told (ok (x ∷ xs, cost, none), s) = (ok (done (x ∷ xs), cost), s)
told (panic p, s) = (ok (failed (panic_error (panic_status p)), 0), s)
told (fault, s) = (fault, s)

-- What goes into the heap for it.
abbrev handed : {H : Type 0} → Addressed H → Slice
handed (ok (a, cost, some t), s) = some t
handed (ok ([], cost, none), s) = none
handed (ok (x ∷ xs, cost, none), s) = some (x ∷ xs)
handed (panic p, s) = none
handed (fault, s) = none

-- What the callback leaves in the variables of its caller, with the buffer of what it hands over.
abbrev replied : {H : Type 0} → World H → Buffer → Addressed H → Outcome (GoResult × Slots) × H
replied w b (ok (a, cost, some t), s) =
    (ok (GoResult.user, record fresh_slots { used_gas = some cost; err_out = some b }), s)
replied w b (ok ([], cost, none), s) =
    (ok (GoResult.panic, record fresh_slots { used_gas = some cost }), s)
replied w b (ok (x ∷ xs, cost, none), s) =
    (ok (GoResult.ok, record fresh_slots { used_gas = some cost; val = some b }), s)
replied w b (panic p, s) = (ok (panic_status p, fresh_slots), s)
replied w b (fault, s) = (fault, s)

address_step :
    {H : Type 0} (callback : Buffer → Go (Callback H) GoResult) (address : Bytes) (w : World H)
    (m : Addressed H) (x : Exchange address (handed m) w.heap)
    → let (r, s) = replied w x.got m in
      call_back fresh_slots (callback x.sent) (record w { heap = x.after_send })
        ≡ (r, record w { host = s; heap = x.after_answer })
      → Agrees w (told m) (address_call callback address w)
unfolding address_call panic_status value_of allocate_rust
address_step callback address w (ok (a, cost, some t), s) x e =
    ground (arith, e, x.sends, x.answers, x.frees, x.takes, x.same_blocks, x.grows, x.valid)
address_step callback address w (ok ([], cost, none), s) x e =
    ground (arith, e, x.sends, x.answers, x.frees, x.takes, x.same_blocks, x.grows, x.valid)
address_step callback address w (ok (y ∷ ys, cost, none), s) x e =
    ground (arith, e, x.sends, x.answers, x.frees, x.takes, x.same_blocks, x.grows, x.valid)
address_step callback address w (panic p, s) x e =
    ground (arith, e, x.sends, x.answers, x.frees, x.takes, x.same_blocks, x.grows, x.valid)
address_step callback address w (fault, s) x e = ground (arith, e, x.sends)

-- Go's answer of the application, with its slice read as a string of bytes.
abbrev pub canonical_of : {H : Type 0} → GoApi H → Bytes → Go H (Bytes × ℕ × Option Bytes)
canonical_of api human = do
  (a, cost, failure) ← api.canonical_address human
  pure (as_string a, cost, failure)

Replies :
    {H : Type 0} (callback : Buffer → Go (Callback H) GoResult) (address : Bytes) (w : World H)
    (m : Addressed H) (x : Exchange address (handed m) w.heap)
    → Type 0
Replies callback address w m x =
    let (r, s) = replied w x.got m in
    call_back fresh_slots (callback x.sent) (record w { heap = x.after_send })
    ≡ (r, record w { host = s; heap = x.after_answer })

c_human_address-Replies :
    {H : Type 0} (api : GoApi H) (key : Bytes) (w : World H) (m : Addressed H)
    (x : Exchange key (handed m) w.heap)
    → receive_slice x.sent x.after_send ≡ (ok (some key), x.after_send)
    → api.human_address (some key) w.host ≡ m
    → Replies (c_human_address (some api)) key w m x
unfolding Replies c_human_address call_back panic_status allocate_rust
c_human_address-Replies api key w (ok (a, cost, some t), s) x k e = ground (arith, k, e, x.answers)
c_human_address-Replies api key w (ok ([], cost, none), s) x k e = ground (arith, k, e, x.answers)
c_human_address-Replies api key w (ok (y ∷ ys, cost, none), s) x k e =
    ground (arith, k, e, x.answers)
c_human_address-Replies api key w (panic p, s) x k e = ground (arith, k, e, x.answers)
c_human_address-Replies api key w (fault, s) x k e = ground (arith, k, e, x.answers)

c_canonical_address-Replies :
    {H : Type 0} (api : GoApi H) (key : Bytes) (w : World H) (m : Addressed H)
    (x : Exchange key (handed m) w.heap)
    → receive_slice x.sent x.after_send ≡ (ok (some key), x.after_send)
    → canonical_of api key w.host ≡ m
    → Replies (c_canonical_address (some api)) key w m x
unfolding Replies c_canonical_address call_back panic_status allocate_rust
c_canonical_address-Replies api key w (ok (a, cost, some t), s) x k e =
    ground (arith, k, e, x.answers)
c_canonical_address-Replies api key w (ok ([], cost, none), s) x k e =
    ground (arith, k, e, x.answers)
c_canonical_address-Replies api key w (ok (y ∷ ys, cost, none), s) x k e =
    ground (arith, k, e, x.answers)
c_canonical_address-Replies api key w (panic p, s) x k e = ground (arith, k, e, x.answers)
c_canonical_address-Replies api key w (fault, s) x k e = ground (arith, k, e, x.answers)

-- The address that a contract gets of `canonical_address` is the application's, with its cost and
-- its errors, and no block is left allocated, for an address of fewer than 2^31 bytes.
pub canonical_address-Agrees :
    {H : Type 0} (api : GoApi H) (human : Bytes) (w : World H)
    → IsValid w.heap
    → length human < 2 ^ 31
    → Agrees w (told (canonical_of api human w.host)) (canonical_address (some api) human w)
unfolding canonical_address Replies
canonical_address-Agrees api human w v s =
    let x = exchange human (handed (canonical_of api human w.host)) w.heap v in
    address_step (c_canonical_address (some api)) human w _ x (
      c_canonical_address-Replies api human w _ x (from_vec-receive_slice human w.heap s x.sends)
        refl)

-- The text of a human address is checked on the way out.
abbrev pub texted :
    {H : Type 0}
    → (Bytes → Option FfiError)
    → Outcome (FfiResult Bytes × ℕ) × H
    → Outcome (FfiResult Bytes × ℕ) × H
texted utf8_error (ok (r, gas), s) = (ok (as_text utf8_error r, gas), s)
texted utf8_error (panic p, s) = (panic p, s)
texted utf8_error (fault, s) = (fault, s)

texted-bind :
    {H : Type 0} (utf8_error : Bytes → Option FfiError) (o : Outcome (FfiResult Bytes × ℕ) × H)
    (s : H)
    → ((λ u. o) >>= λ r. pure (as_text utf8_error r.0, r.1)) s ≡ texted utf8_error o
texted-bind utf8_error (ok (r, gas), t) s = refl
texted-bind utf8_error (panic p, t) s = refl
texted-bind utf8_error (fault, t) s = refl

-- The same of `human_address`, whose bytes must be text.
pub human_address-Agrees :
    {H : Type 0} (utf8_error : Bytes → Option FfiError) (api : GoApi H) (canonical : Bytes)
    (w : World H)
    → IsValid w.heap
    → length canonical < 2 ^ 31
    → Agrees w
        (texted utf8_error (told (api.human_address (some canonical) w.host)))
        (human_address utf8_error (some api) canonical w)
unfolding human_address Replies
human_address-Agrees utf8_error api canonical w v s =
    let x = exchange canonical (handed (api.human_address (some canonical) w.host)) w.heap v in
    subst (λ o. Agrees w o (human_address utf8_error (some api) canonical w))
      (texted-bind utf8_error (told (api.human_address (some canonical) w.host)) w.host)
      (Agrees-bind w _ _ (λ r. pure (as_text utf8_error r.0, r.1))
        (λ r. pure (as_text utf8_error r.0, r.1))
        (address_step (c_human_address (some api)) canonical w _ x (
          c_human_address-Replies api canonical w _ x
            (from_vec-receive_slice canonical w.heap s x.sends) refl))
        λ a u valid. (refl, refl, (refl, refl, omega arith, valid)))
