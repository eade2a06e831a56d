-- ===== src/Types/Coins/Laws.antt =====
-- What an amount is printed as, and what a list of coins is read back as.
use Prim.Native.Nat.{◌/◌, ◌*◌}
use go_cosmwasm.Base.{
  ℕ, zero, suc, ◌+◌, ◌-◌, ◌%◌, ◌^◌, ◌<◌, ◌≤◌, ◌≡◌, refl, sym, ap, ◌∙◌, false, Option, none, some,
  List, [], ◌∷◌, ◌||◌, arith,
}
use go_cosmwasm.Base.Text.{text}
use go_cosmwasm.Go.{Bytes}
use go_cosmwasm.Types.Queries.{Decoded, decoded}
use go_cosmwasm.Types.Coins.{
  new_coin, format_digits, format_uint, equal_bytes, marshal_json, unmarshal_json,
}

-- The number that decimal digits stand for, behind the number read so far.
abbrev pub read_digits : ℕ → Bytes → ℕ
read_digits n [] = n
read_digits n (c ∷ rest) = read_digits (n * 10 + (c - 48)) rest

-- Every character is a decimal digit.
abbrev pub AllDigits : Bytes → Type 0
AllDigits [] = Unit {0}
AllDigits (c ∷ rest) = (48 ≤ c) × (c ≤ 57) × AllDigits rest

digit_read :
    (n : ℕ) (rest : Bytes) → n < 10 → read_digits 0 ((48 + n % 10) ∷ rest) ≡ read_digits n rest
digit_read n rest h = ap (λ m. read_digits m rest) (omega arith)

digit_moves :
    (n : ℕ) (rest : Bytes) → read_digits (n / 10) ((48 + n % 10) ∷ rest) ≡ read_digits n rest
digit_moves n rest = ap (λ m. read_digits m rest) (omega arith)

format_digits-read_digits :
    (fuel n : ℕ) (rest : Bytes)
    → n < 10 ^ suc fuel
    → read_digits 0 (format_digits (suc fuel) n rest) ≡ read_digits n rest
unfolding format_digits
format_digits-read_digits zero n rest h = ground (arith, digit_read n rest h)
format_digits-read_digits (suc fuel) n rest h =
    let more : List ℕ = (48 + n % 10) ∷ rest in
    ground (
      arith,
      digit_read n rest,
      format_digits-read_digits fuel (n / 10) more (omega arith) ∙ digit_moves n rest,
    )

format_digits-AllDigits :
    (fuel n : ℕ) (rest : Bytes) → AllDigits rest → AllDigits (format_digits fuel n rest)
unfolding format_digits
format_digits-AllDigits zero n rest v = v
format_digits-AllDigits (suc fuel) n rest v =
    let more : List ℕ = (48 + n % 10) ∷ rest in
    ground (arith, format_digits-AllDigits fuel (n / 10) more (omega arith, omega arith, v))

-- The amount of a coin made of a uint64 is decimal digits, and they stand for that number.
pub new_coin_lem :
    (amount : ℕ) (denom : Bytes)
    → amount < 2 ^ 64
    → ((new_coin amount denom).denom ≡ denom)
      × AllDigits (new_coin amount denom).amount
      × (read_digits 0 (new_coin amount denom).amount ≡ amount)
unfolding new_coin format_uint
new_coin_lem amount denom h = (
  refl,
  format_digits-AllDigits 20 amount [] tt,
  format_digits-read_digits 19 amount [] (omega arith),
)

-- What becomes of a variable that a list is read into.
abbrev pub read_into : {A : Type 0} → Option (List A) → Option (List A) → Option (List A)
read_into old none = old
read_into old (some []) = old
read_into old (some (x ∷ xs)) = some (x ∷ xs)

-- Where `json.Unmarshal` reads back what `json.Marshal` wrote of a list that is not empty, and that
-- is neither [] nor null: a list that `MarshalJSON` wrote is what `UnmarshalJSON` puts in a variable,
-- but an empty list leaves the variable with what it held.
pub marshal_json-unmarshal_json :
    {A : Type 0} (marshal_list : List A → Decoded Bytes)
    (unmarshal_list : Bytes → Decoded (Option (List A))) (old xs : Option (List A)) (bytes : Bytes)
    → ((x : A) (rest : List A) (b : Bytes)
        → marshal_list (x ∷ rest) ≡ decoded b
        → unmarshal_list b ≡ decoded (some (x ∷ rest)))
    → ((x : A) (rest : List A) (b : Bytes)
        → marshal_list (x ∷ rest) ≡ decoded b
        → equal_bytes b (text "[]") || equal_bytes b (text "null") ≡ false)
    → marshal_json marshal_list unmarshal_list xs ≡ decoded bytes
    → unmarshal_json marshal_list unmarshal_list old bytes ≡ decoded (read_into old xs)
unfolding marshal_json unmarshal_json text
marshal_json-unmarshal_json m u old none bytes back apart h =
    let same : text "[]" ≡ bytes = cc h in ap (λ b. unmarshal_json m u old b) (sym same)
marshal_json-unmarshal_json m u old (some []) bytes back apart h =
    let same : text "[]" ≡ bytes = cc h in ap (λ b. unmarshal_json m u old b) (sym same)
marshal_json-unmarshal_json m u old (some (x ∷ xs)) bytes back apart h =
    ground (arith, h, back x xs bytes h, apart x xs bytes h)
