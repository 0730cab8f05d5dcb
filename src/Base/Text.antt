-- ===== src/Base/Text.antt =====
-- Texts: the parts of Go's `strings`, `strconv` and `fmt` that the mesh uses.
pub mod Digits
pub mod Split
use Prim.Native.Nat.{ℕ, zero, suc, ◌/◌, ◌%◌}
use Prim.Native.Char.{Char, code}
use mathlib.Core.List.{List, [], ◌∷◌}
use Prim.Native.String
use Prim.Native.String.{String}
use mathlib.Core.Bool.{Bool, true, false, ◌||◌}
use mathlib.Core.Path.{◌≡◌}
use mathlib.Core.Logic.{◌≢◌}
use native.Mathlib.Omega.{arith}
use service_mesh.Base.Num.{◌==◌, if◌then◌else◌}
pub use text.Mathlib.Text.{◌==◌ as str_eq}
pub use text.Mathlib.TextEquality.{eq_iff}
pub use text.Mathlib.TextPositions.{eq_refl}

infixr 60 ◌<>◌
-- Go's `+` on strings.
abbrev pub ◌<>◌ : String → String → String
s <> t = String.◌++◌ s t

digit : ℕ → String
digit zero = "0"
digit (suc zero) = "1"
digit (suc (suc zero)) = "2"
digit (suc (suc (suc zero))) = "3"
digit (suc (suc (suc (suc zero)))) = "4"
digit (suc (suc (suc (suc (suc zero))))) = "5"
digit (suc (suc (suc (suc (suc (suc zero)))))) = "6"
digit (suc (suc (suc (suc (suc (suc (suc zero))))))) = "7"
digit (suc (suc (suc (suc (suc (suc (suc (suc zero)))))))) = "8"
digit _ = "9"

-- Digits are put in front of `acc`; a number has fewer digits than its successor is large.
itoa_from : ℕ → ℕ → String → String
itoa_from zero n acc = acc
itoa_from (suc fuel) n acc =
    let rest = itoa_from fuel (n / 10) (digit (n % 10) <> acc) in if n == 0 then acc else rest

-- strconv.Itoa, on a number that is not negative.
unfoldable pub itoa : ℕ → String
unfolding itoa_from digit
itoa n = if n == 0 then "0" else itoa_from n n ""

-- Whether a code point occurs in a text.
unfoldable pub has_code : ℕ → String → Bool
has_code k String.[] = false
has_code k (String.◌∷◌ c s) = code c == k || has_code k s

push_first : Char → List String → List String
push_first c [] = String.◌∷◌ c "" ∷ []
push_first c (x ∷ xs) = String.◌∷◌ c x ∷ xs

-- strings.Split with a separator of one ASCII character.
unfoldable pub split_on : ℕ → String → List String
unfolding push_first
split_on sep String.[] = "" ∷ []
split_on sep (String.◌∷◌ c s) =
    let parts = split_on sep s in if code c == sep then "" ∷ parts else push_first c parts

-- strings.TrimPrefix, from the prefix's own characters on.
trim_from : String → String → String → String
trim_from whole String.[] s = s
trim_from whole (String.◌∷◌ p ps) String.[] = whole
trim_from whole (String.◌∷◌ p ps) (String.◌∷◌ c s) =
    let rest = trim_from whole ps s in if code p == code c then rest else whole

unfoldable pub trim_prefix : String → String → String
unfolding trim_from
trim_prefix s prefix = trim_from s prefix s

-- Texts that the test tells apart are different.
pub differ : (a b : String) → str_eq a b ≡ false → a ≢ b
differ a b h e = ground (arith, eq_iff a b)

-- strings.HasPrefix, with the prefix first.
unfoldable pub has_prefix : String → String → Bool
has_prefix String.[] s = true
has_prefix (String.◌∷◌ c p) String.[] = false
has_prefix (String.◌∷◌ c p) (String.◌∷◌ d s) =
    let rest = has_prefix p s in if code c == code d then rest else false
