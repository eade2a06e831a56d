-- ===== src/Base/Text.antt =====
-- A Go string is its bytes. `text` reads a literal of ASCII characters.
use Prim.Native.Nat.{ℕ}
use Prim.Native.Char.{code}
use Prim.Native.String.{String}
use mathlib.Core.List.{List, [], ◌∷◌}

unfoldable pub text : String → List ℕ
text String.[] = []
text (String.◌∷◌ c s) = code c ∷ text s
