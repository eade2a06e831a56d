-- ===== src/Tests/Coins.antt =====
-- Amounts and lists of coins.
use go_cosmwasm.Base.{
  ℕ, zero, suc, ◌≡◌, refl, sym, ap, false, Option, some, List, [], ◌∷◌, ◌||◌, arith,
}
use go_cosmwasm.Base.Text.{text}
use go_cosmwasm.Go.{Bytes}
use go_cosmwasm.Types.Queries.{Decoded, decoded, malformed}
use go_cosmwasm.Types.Coins.{new_coin, equal_bytes, marshal_json, unmarshal_json}
use go_cosmwasm.Types.Coins.Laws.{
  AllDigits, read_digits, new_coin_lem, read_into, marshal_json-unmarshal_json,
}

new_coin_lem_example :
    ((new_coin 1234 []).denom ≡ [])
    × AllDigits (new_coin 1234 []).amount
    × (read_digits 0 (new_coin 1234 []).amount ≡ 1234)
new_coin_lem_example = new_coin_lem 1234 [] (omega arith)

-- An encoding of lists of numbers: the numbers behind a 1.
abbrev tag : List ℕ → Decoded Bytes
tag xs = decoded (1 ∷ xs)

abbrev untag : Bytes → Decoded (Option (List ℕ))
untag (suc zero ∷ xs) = decoded (some xs)
untag _ = malformed []

untag-tag :
    (x : ℕ) (rest : List ℕ) (b : Bytes)
    → tag (x ∷ rest) ≡ decoded b
    → untag b ≡ decoded (some (x ∷ rest))
untag-tag x rest b h = let same : 1 ∷ x ∷ rest ≡ b = cc h in ap untag (sym same)

tag_apart :
    (x : ℕ) (rest : List ℕ) (b : Bytes)
    → tag (x ∷ rest) ≡ decoded b
    → (equal_bytes b (text "[]") || equal_bytes b (text "null")) ≡ false
unfolding text
tag_apart x rest b h =
    let same : 1 ∷ x ∷ rest ≡ b = cc h in
    ap (λ c. equal_bytes c (text "[]") || equal_bytes c (text "null")) (sym same)

marshal_json-unmarshal_json_example :
    unmarshal_json tag untag (some (5 ∷ [])) (1 ∷ 7 ∷ 8 ∷ [])
    ≡ decoded (read_into (some (5 ∷ [])) (some (7 ∷ 8 ∷ [])))
unfolding marshal_json
marshal_json-unmarshal_json_example =
    marshal_json-unmarshal_json tag untag (some (5 ∷ [])) (some (7 ∷ 8 ∷ [])) (1 ∷ 7 ∷ 8 ∷ [])
      untag-tag tag_apart refl
