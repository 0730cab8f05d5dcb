-- ===== src/Base/Text/Split.antt =====
-- A text that is cut at a character.
use Prim.Native.Nat.{ℕ}
use Prim.Native.Char.{Char, code}
use Prim.Native.String.{String}
use mathlib.Core.Bool.{true, false, not}
use mathlib.Core.List.{[], ◌∷◌}
use mathlib.Core.Path.{◌≡◌, refl}
use text.Mathlib.TextLemmas.{nil-append, cons-append}
use native.Mathlib.Omega.{arith}
use service_mesh.Base.Num.{◌==◌}
use service_mesh.Base.Text.{◌<>◌, split_on, push_first}
use service_mesh.Base.Space.{all_codes}

-- A text without the separator is one part.
pub split_on_plain :
    (sep : ℕ) (s : String) → all_codes (λ c. not (c == sep)) s ≡ true → split_on sep s ≡ s ∷ []
unfolding split_on push_first all_codes
split_on_plain sep String.[] h = refl
split_on_plain sep (String.◌∷◌ c s) h =
    let here : code c == sep ≡ false = ground arith in
    rw (split_on_plain sep s (ground arith), here) refl

-- Up to the first separator it is the first part.
pub split_on_first :
    (sep : ℕ) (s : String) (d : Char) (t : String)
    → all_codes (λ c. not (c == sep)) s ≡ true
    → code d ≡ sep
    → split_on sep (s <> String.◌∷◌ d t) ≡ s ∷ split_on sep t
unfolding split_on push_first all_codes
split_on_first sep String.[] d t h e =
    let same : code d == sep ≡ true = ground arith in
    rw (nil-append (String.◌∷◌ d t), split_on, same) refl
split_on_first sep (String.◌∷◌ c s) d t h e =
    let here : code c == sep ≡ false = ground arith in
    rw (cons-append c s (String.◌∷◌ d t), split_on, split_on_first sep s d t (ground arith) e, here)
      refl
