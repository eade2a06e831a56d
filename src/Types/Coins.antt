-- ===== src/Types/Coins.antt =====
-- types/types.go and the lists of types/queries.go that encode an empty value as [].
pub mod Laws
use Prim.Native.Nat.{◌/◌}
use go_cosmwasm.Base.{
  ℕ, zero, suc, ◌+◌, ◌%◌, Bool, true, false, Option, none, some, List, [], ◌∷◌, ◌==◌, ◌&&◌, ◌||◌,
  ltb, if◌then◌else◌,
}
use go_cosmwasm.Base.Text.{text}
use go_cosmwasm.Go.{Bytes}
use go_cosmwasm.Types.Queries.{Decoded, decoded}

pub record Coin : Type 0 where
  pub denom : Bytes
  pub amount : Bytes

-- `Coins`, a slice that may be nil.
abbrev pub Coins : Type 0
Coins = Option (List Coin)

-- `strconv.FormatUint(n, 10)`, from the last digit on; a uint64 has at most 20 digits.
unfoldable pub format_digits : ℕ → ℕ → Bytes → Bytes
format_digits zero n rest = rest
format_digits (suc fuel) n rest =
    let digit : ℕ = 48 + n % 10 in
    let more = format_digits fuel (n / 10) (digit ∷ rest) in if ltb n 10 then digit ∷ rest else more

unfoldable pub format_uint : ℕ → Bytes
unfolding format_digits
format_uint n = format_digits 20 n []

-- `NewCoin`
unfoldable pub new_coin : ℕ → Bytes → Coin
unfolding format_uint
new_coin amount denom = record { denom = denom; amount = format_uint amount }

abbrev pub equal_bytes : Bytes → Bytes → Bool
equal_bytes [] [] = true
equal_bytes (x ∷ xs) (y ∷ ys) = x == y && equal_bytes xs ys
equal_bytes _ _ = false

-- Coins, Validators and Delegations have the same two methods, over `json.Marshal` and
-- `json.Unmarshal` at the slice type without methods.
module _ {A : Type 0} (marshal_list : List A → Decoded Bytes)
    (unmarshal_list : Bytes → Decoded (Option (List A))) where
  -- `MarshalJSON`
  unfoldable pub marshal_json : Option (List A) → Decoded Bytes
  marshal_json none = decoded (text "[]")
  marshal_json (some []) = decoded (text "[]")
  marshal_json (some (x ∷ xs)) = marshal_list (x ∷ xs)

  -- `UnmarshalJSON`, on a variable that holds `old`: its value afterwards, or the error's text.
  unfoldable pub unmarshal_json : Option (List A) → Bytes → Decoded (Option (List A))
  unmarshal_json old data' =
      if equal_bytes data' (text "[]") || equal_bytes data' (text "null")
      then decoded old
      else unmarshal_list data'
