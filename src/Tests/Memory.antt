-- ===== src/Tests/Memory.antt =====
-- Slices over the boundary.
use go_cosmwasm.Base.{◌≡◌, some, [], ◌∷◌}
use go_cosmwasm.Go.{ok, ◌>>=◌}
use go_cosmwasm.Ffi.Memory.{read}
use go_cosmwasm.Ffi.Storage.{value_of}
use go_cosmwasm.Api.Memory.{send_slice, allocate_rust}
use go_cosmwasm.Api.Memory.Laws.{send_slice-read, allocate_rust-consume}
use go_cosmwasm.Tests.Mock.{empty_heap}

allocate_rust-consume_example :
    (allocate_rust (some (8 ∷ 9 ∷ [])) >>= value_of) empty_heap
    ≡ (ok (some (8 ∷ 9 ∷ [])), record { next = 1; blocks = [] })
unfolding allocate_rust
allocate_rust-consume_example = allocate_rust-consume (some (8 ∷ 9 ∷ [])) empty_heap tt

lent :
    (send_slice (some (5 ∷ [])) >>= read) empty_heap
    ≡ (ok (some (5 ∷ [])), (send_slice (some (5 ∷ [])) empty_heap).1)
lent = send_slice-read (some (5 ∷ [])) empty_heap
