-- ===== src/Ffi/Range/Bounds.antt =====
-- The two bounds of a range in the heap that Rust and Go share.
use go_cosmwasm.Base.{
  ℕ, suc, ◌<◌, ◌^◌, ◌≡◌, refl, Option, none, some, [], ◌∷◌, length, take-length, arith,
}
use go_cosmwasm.Base.Dict.{erase_absent}
use go_cosmwasm.Go.{ok, ◌>>=◌, Bytes}
use go_cosmwasm.Ffi.Memory.{
  Heap, Buffer, Ptr, null_buffer, from_vec, consume, IsValid, Below-suc, Below-absent,
}
use go_cosmwasm.Ffi.Range.{bound}
use go_cosmwasm.Api.Memory.{receive_slice}
use go_cosmwasm.Api.Callbacks.Scan.{receive_bound}

-- The buffer of a bound, and the heap once it is made.
abbrev pub bound_buffer : Option Bytes → Heap → Buffer
bound_buffer none h = null_buffer
bound_buffer (some []) h = record { ptr = Ptr.dangling; len = 0; cap = 0 }
bound_buffer (some (x ∷ xs)) h = record {
  ptr = Ptr.at h.next;
  len = length (x ∷ xs);
  cap = length (x ∷ xs);
}

abbrev pub bounded : Option Bytes → Heap → Heap
bounded x h = (bound x h).1

abbrev pub short : Option Bytes → ℕ
short none = 0
short (some xs) = length xs

pub bound-buffer : (x : Option Bytes) (h : Heap) → bound x h ≡ (ok (bound_buffer x h), bounded x h)
unfolding bound from_vec
bound-buffer none h = refl
bound-buffer (some []) h = refl
bound-buffer (some (x ∷ xs)) h = refl

-- Both bounds in one heap: how each is received, and that consuming the two frees their blocks.
pub record Bounds (x y : Option Bytes) (h : Heap) : Type 0 where
  pub start :
      receive_bound (bound_buffer x h) (bounded y (bounded x h)) ≡ (ok x, bounded y (bounded x h))
  pub end :
      receive_bound (bound_buffer y (bounded x h)) (bounded y (bounded x h))
      ≡ (ok y, bounded y (bounded x h))
  pub rest : Bytes
  pub frees :
      (consume (bound_buffer x h) >>= λ u. consume (bound_buffer y (bounded x h)))
        (bounded y (bounded x h))
      ≡ (ok rest, record { next = (bounded y (bounded x h)).next; blocks = h.blocks })

pub bounds :
    (x y : Option Bytes) (h : Heap) → IsValid h → short x < 2 ^ 31 → short y < 2 ^ 31 → Bounds x y h
unfolding bound from_vec receive_bound receive_slice consume
bounds none none h v s t = record { start = refl; end = refl; rest = []; frees = refl }
bounds none (some []) h v s t = record { start = refl; end = refl; rest = []; frees = refl }
bounds (some []) none h v s t = record { start = refl; end = refl; rest = []; frees = refl }
bounds (some []) (some []) h v s t = record { start = refl; end = refl; rest = []; frees = refl }
bounds none (some (y ∷ ys)) h v s t =
    let gone = erase_absent h.next h.blocks (Below-absent h.next h.blocks v) in
    record {
      start = refl;
      end = ground (arith, take-length ys);
      rest = y ∷ ys;
      frees = ground (arith, take-length ys, gone);
    }
bounds (some []) (some (y ∷ ys)) h v s t =
    let gone = erase_absent h.next h.blocks (Below-absent h.next h.blocks v) in
    record {
      start = refl;
      end = ground (arith, take-length ys);
      rest = y ∷ ys;
      frees = ground (arith, take-length ys, gone);
    }
bounds (some (x ∷ xs)) none h v s t =
    let gone = erase_absent h.next h.blocks (Below-absent h.next h.blocks v) in
    record {
      start = ground (arith, take-length xs);
      end = refl;
      rest = [];
      frees = ground (arith, take-length xs, gone);
    }
bounds (some (x ∷ xs)) (some []) h v s t =
    let gone = erase_absent h.next h.blocks (Below-absent h.next h.blocks v) in
    record {
      start = ground (arith, take-length xs);
      end = refl;
      rest = [];
      frees = ground (arith, take-length xs, gone);
    }
bounds (some (x ∷ xs)) (some (y ∷ ys)) h v s t =
    let gone = erase_absent h.next h.blocks (Below-absent h.next h.blocks v) in
    let above = Below-absent (suc h.next) h.blocks (Below-suc h.next h.blocks v) in
    let still = erase_absent (suc h.next) h.blocks above in
    record {
      start = ground (arith, take-length xs);
      end = ground (arith, take-length ys);
      rest = y ∷ ys;
      frees = ground (arith, take-length xs, take-length ys, gone, still);
    }
