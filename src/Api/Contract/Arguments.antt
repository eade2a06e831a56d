-- ===== src/Api/Contract/Arguments.antt =====
-- What Rust reads in the buffers that a contract call lends it.
use go_cosmwasm.Base.{ℕ, suc, ◌≡◌, refl, some, [], ◌∷◌, length, take-length, arith}
use go_cosmwasm.Base.Dict.{lookup}
use go_cosmwasm.Go.{ok, Bytes}
use go_cosmwasm.Ffi.Memory.{Heap, Ptr, malloced, read}
use go_cosmwasm.Ffi.Entry.Contract.{Readable}
use go_cosmwasm.Api.Memory.{send_slice}
use go_cosmwasm.Api.Contract.Sending.{sent, sent_buffer}
use go_cosmwasm.Api.Contract.Answers.{lent}

pub read-lent :
    (p : ℕ) (xs : Bytes) (h : Heap)
    → lookup p h.blocks ≡ some (record { owner = malloced; bytes = xs })
    → read (record { ptr = Ptr.at p; len = length xs; cap = length xs }) h ≡ (ok (some xs), h)
unfolding read
read-lent p [] h e = refl
read-lent p (x ∷ xs) h e = ground (arith, e, take-length xs)

-- Rust can read the three arguments that Go sends.
pub lent-Readable :
    (code params msg : Bytes) (h : Heap)
    → Readable
        (sent_buffer (some code) h)
        (sent_buffer (some params) (sent (some code) h))
        (sent_buffer (some msg) (sent (some params) (sent (some code) h)))
        code
        params
        msg
        (lent (some code) (some params) (some msg) h)
unfolding send_slice
lent-Readable code params msg h = record {
  id_read = read-lent h.next code _ (ground arith);
  params_read = read-lent (suc h.next) params _ (ground arith);
  msg_read = read-lent (suc (suc h.next)) msg _ (ground arith);
}
