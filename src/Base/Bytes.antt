-- ===== src/Base/Bytes.antt =====
-- Texts as lists of code points, for the searches that Go makes in them.
use Prim.Native.Nat.{ℕ, ◌+◌}
use Prim.Native.Char.{code}
use Prim.Native.String.{String}
use mathlib.Core.Bool.{Bool, true, false, ◌&&◌, ◌||◌}
use mathlib.Core.List.{List, [], ◌∷◌, map}
use service_mesh.Base.Num.{◌==◌, leb, if◌then◌else◌}

abbrev pub codes : String → List ℕ
codes String.[] = []
codes (String.◌∷◌ c s) = code c ∷ codes s

-- unicode.ToLower, as far as its results are ASCII letters: the two letters beyond ASCII are
-- the dotted capital I and the Kelvin sign. Any other code point stands for itself.
unfoldable pub lower : ℕ → ℕ
lower c =
    if leb b'A' c && leb c b'Z'
    then c + 32
    else if c == 0x130
    then b'i'
    else if c == 0x212A
    then b'k'
    else c

unfoldable pub starts : List ℕ → List ℕ → Bool
starts [] xs = true
starts (k ∷ ks) [] = false
starts (k ∷ ks) (x ∷ xs) = k == x && starts ks xs

-- strings.Contains.
unfoldable pub contains : List ℕ → List ℕ → Bool
unfolding starts
contains needle [] = starts needle []
contains needle (x ∷ xs) = starts needle (x ∷ xs) || contains needle xs

-- strings.Contains(strings.ToLower(s), needle).
unfoldable pub contains_lower : String → String → Bool
unfolding contains lower
contains_lower s needle = contains (codes needle) (map lower (codes s))
