-- ===== src/Base/Space.antt =====
-- Tests of every character of a text, and strings.TrimSpace.
use Prim.Native.Nat.{ℕ}
use Prim.Native.Char.{code}
use Prim.Native.String.{String}
use mathlib.Core.Bool.{Bool, true, false, ◌&&◌, ◌||◌, not}
use mathlib.Core.Path.{◌≡◌, refl}
use mathlib.Core.Logic.{inl, inr}
use text.Mathlib.TextLemmas.{nil-append, cons-append}
use native.Mathlib.Omega.{arith}
use service_mesh.Base.Num.{◌==◌, leb, if◌then◌else◌, Bool-cases}
use service_mesh.Base.Text.{◌<>◌}

-- unicode.IsSpace, on a code point.
unfoldable pub is_space : ℕ → Bool
is_space c =
    (leb 9 c && leb c 13)
    || c == 32
    || c == 0x85
    || c == 0xA0
    || c == 0x1680
    || (leb 0x2000 c && leb c 0x200A)
    || c == 0x2028
    || c == 0x2029
    || c == 0x202F
    || c == 0x205F
    || c == 0x3000

unfoldable pub trim_left : String → String
unfolding is_space
trim_left String.[] = ""
trim_left (String.◌∷◌ c s) =
    let rest = trim_left s in if is_space (code c) then rest else String.◌∷◌ c s

-- A space in front of nothing is dropped.
cons_trimmed : Bool → String → String → String
cons_trimmed true whole String.[] = ""
cons_trimmed true whole (String.◌∷◌ d t) = whole
cons_trimmed false whole t = whole

unfoldable pub trim_right : String → String
unfolding is_space cons_trimmed
trim_right String.[] = ""
trim_right (String.◌∷◌ c s) =
    let rest = trim_right s in cons_trimmed (is_space (code c)) (String.◌∷◌ c rest) rest

-- strings.TrimSpace.
unfoldable pub trim_space : String → String
unfolding trim_left trim_right
trim_space s = trim_right (trim_left s)

-- Whether a text is empty or begins with something else than a space.
starts_tight : String → Bool
unfolding is_space
starts_tight String.[] = true
starts_tight (String.◌∷◌ c s) = not (is_space (code c))

trim_left_tight : (s : String) → starts_tight (trim_left s) ≡ true
unfolding trim_left starts_tight
trim_left_tight String.[] = refl
trim_left_tight (String.◌∷◌ c s) = elim (Bool-cases (is_space (code c))) [
  | inl white ↦ rw (white) (trim_left_tight s)
  | inr other ↦ rw (other, other, starts_tight) refl
]

trim_left_same : (s : String) → starts_tight s ≡ true → trim_left s ≡ s
unfolding trim_left starts_tight
trim_left_same String.[] h = refl
trim_left_same (String.◌∷◌ c s) h = ground arith

cons_tight :
    (b : Bool) (c : _) (t : String)
    → starts_tight (String.◌∷◌ c t) ≡ true
    → starts_tight (cons_trimmed b (String.◌∷◌ c t) t) ≡ true
unfolding starts_tight cons_trimmed
cons_tight true c String.[] h = refl
cons_tight true c (String.◌∷◌ d t) h = h
cons_tight false c t h = h

trim_right_tight : (s : String) → starts_tight s ≡ true → starts_tight (trim_right s) ≡ true
unfolding trim_right starts_tight
trim_right_tight String.[] h = refl
trim_right_tight (String.◌∷◌ c s) h = cons_tight (is_space (code c)) c (trim_right s) h

cons_again :
    (b : Bool) (c : _) (t : String)
    → is_space (code c) ≡ b
    → trim_right t ≡ t
    → trim_right (cons_trimmed b (String.◌∷◌ c t) t) ≡ cons_trimmed b (String.◌∷◌ c t) t
unfolding trim_right cons_trimmed
cons_again true c String.[] e h = refl
cons_again true c (String.◌∷◌ d t) e h = rw (h, e, cons_trimmed) refl
cons_again false c t e h = rw (h, e, cons_trimmed) refl

trim_right_again : (s : String) → trim_right (trim_right s) ≡ trim_right s
unfolding trim_right
trim_right_again String.[] = refl
trim_right_again (String.◌∷◌ c s) =
    cons_again (is_space (code c)) c (trim_right s) refl (trim_right_again s)

pub trim_space_again : (s : String) → trim_space (trim_space s) ≡ trim_space s
unfolding trim_space
trim_space_again s =
    rw
      (trim_left_same (trim_right (trim_left s))
        (trim_right_tight (trim_left s) (trim_left_tight s)))
      (trim_right_again (trim_left s))

-- Whether every character passes a test.
unfoldable pub all_codes : (ℕ → Bool) → String → Bool
all_codes p String.[] = true
all_codes p (String.◌∷◌ c s) = p (code c) && all_codes p s

pub all_codes-append :
    (p : ℕ → Bool) (s t : String) → all_codes p (s <> t) ≡ (all_codes p s && all_codes p t)
unfolding all_codes
all_codes-append p String.[] t = rw (nil-append t) refl
all_codes-append p (String.◌∷◌ c s) t =
    rw (cons-append c s t) (ground (arith, all_codes-append p s t))

tight-all_codes : (s : String) → all_codes (λ c. not (is_space c)) s ≡ true → starts_tight s ≡ true
unfolding all_codes starts_tight
tight-all_codes String.[] h = refl
tight-all_codes (String.◌∷◌ c s) h = ground arith

kept_whole : (whole t : String) → cons_trimmed false whole t ≡ whole
unfolding cons_trimmed
kept_whole whole t = refl

trim_right_same : (s : String) → all_codes (λ c. not (is_space c)) s ≡ true → trim_right s ≡ s
unfolding all_codes trim_right
trim_right_same String.[] h = refl
trim_right_same (String.◌∷◌ c s) h =
    let here : is_space (code c) ≡ false = ground arith in
    let there : all_codes (λ c. not (is_space c)) s ≡ true = ground arith in
    rw (trim_right_same s there, here, kept_whole (String.◌∷◌ c s) s) refl

-- A text without spaces stays as it is.
pub trim_space_same : (s : String) → all_codes (λ c. not (is_space c)) s ≡ true → trim_space s ≡ s
unfolding trim_space
trim_space_same s h = rw (trim_left_same s (tight-all_codes s h)) (trim_right_same s h)

unfoldable pub is_digit : ℕ → Bool
is_digit c = leb b'0' c && leb c b'9'
