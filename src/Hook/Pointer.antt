-- ===== src/Hook/Pointer.antt =====
-- escapeJSONPointer of k8s/mesh/hook/internal/app/injector/service.go.
use Prim.Native.Char.{Char, char, code}
use text.Mathlib.TextEquality.{Char-path}
use text.Mathlib.TextLemmas.{nil-append, cons-append}
use service_mesh.Base.{
  ℕ, String, false, ◌≡◌, refl, ap, ◌∙◌, ◌&&◌, ◌||◌, arith, has_code, ◌==◌, if◌then◌else◌, ◌<>◌,
  Bool-cases, inl, inr,
}

-- strings.ReplaceAll of a text of one character.
unfoldable pub replace_all : ℕ → String → String → String
replace_all k new String.[] = ""
replace_all k new (String.◌∷◌ c s) =
    let rest = replace_all k new s in if code c == k then new <> rest else String.◌∷◌ c rest

unfoldable pub escape_json_pointer : String → String
unfolding replace_all
escape_json_pointer value = replace_all b'/' "~1" (replace_all b'~' "~0" value)

-- RFC 6901's reading of a reference token, from the left: ~1 is a slash and ~0 a tilde.
unfoldable pub read_token : String → String
read_token String.[] = ""
read_token (String.◌∷◌ c String.[]) = String.◌∷◌ c ""
read_token (String.◌∷◌ c (String.◌∷◌ d s)) =
    let after = read_token s in
    let rest = read_token (String.◌∷◌ d s) in
    if code c == b'~' && code d == b'0'
    then String.◌∷◌ c after
    else if code c == b'~' && code d == b'1'
    then "/" <> after
    else String.◌∷◌ c rest

-- One character that needs no escape in front of what is read.
read_token-plain :
    (c : Char) (s : String)
    → code c == b'~' ≡ false
    → read_token (String.◌∷◌ c s) ≡ String.◌∷◌ c (read_token s)
unfolding read_token
read_token-plain c String.[] h = refl
read_token-plain c (String.◌∷◌ d s) h = rw h refl

two-append :
    (c d : Char) (s : String)
    → (String.◌∷◌ c (String.◌∷◌ d "")) <> s ≡ String.◌∷◌ c (String.◌∷◌ d s)
two-append c d s = rw (cons-append c (String.◌∷◌ d "") s, cons-append d "" s, nil-append s) refl

escape-tilde :
    (s : String)
    → replace_all b'/' "~1" ("~0" <> s)
      ≡ String.◌∷◌ (char b'~' tt) (String.◌∷◌ (char b'0' tt) (replace_all b'/' "~1" s))
unfolding replace_all
escape-tilde s = rw (two-append (char b'~' tt) (char b'0' tt) s, replace_all) refl

read_token-tilde :
    (s : String)
    → read_token (String.◌∷◌ (char b'~' tt) (String.◌∷◌ (char b'0' tt) s))
      ≡ String.◌∷◌ (char b'~' tt) (read_token s)
unfolding read_token
read_token-tilde s = refl

read_token-slash : (s : String) → read_token ("~1" <> s) ≡ String.◌∷◌ (char b'/' tt) (read_token s)
unfolding read_token
read_token-slash s =
    rw (two-append (char b'~' tt) (char b'1' tt) s, read_token)
      (cons-append (char b'/' tt) "" (read_token s)
        ∙ ap (String.◌∷◌ (char b'/' tt)) (nil-append (read_token s)))

-- What is written into the path of a patch is read back as the key that it was made of, whatever
-- characters the key has.
pub read_token-escape_json_pointer :
    (value : String) → read_token (escape_json_pointer value) ≡ value
unfolding escape_json_pointer replace_all read_token
read_token-escape_json_pointer String.[] = refl
read_token-escape_json_pointer (String.◌∷◌ c s) =
    let inner : String = replace_all b'~' "~0" s in
    elim (Bool-cases (code c == b'~')) [
      | inl tilde ↦
          rw
            (
              tilde,
              escape-tilde inner,
              read_token-tilde (replace_all b'/' "~1" inner),
              read_token-escape_json_pointer s,
            )
            (ap (λ d. String.◌∷◌ d s) (Char-path (char b'~' tt) c (ground arith)))
      | inr other ↦ elim (Bool-cases (code c == b'/')) [
        | inl slash ↦
            rw
              (
                other,
                slash,
                read_token-slash (replace_all b'/' "~1" inner),
                read_token-escape_json_pointer s,
              )
              (ap (λ d. String.◌∷◌ d s) (Char-path (char b'/' tt) c (ground arith)))
        | inr plain ↦
            rw
              (
                other,
                replace_all,
                plain,
                read_token-plain c (replace_all b'/' "~1" inner) other,
                read_token-escape_json_pointer s,
              )
              refl
      ]
    ]

has_code-append : (k : ℕ) (s t : String) → has_code k (s <> t) ≡ (has_code k s || has_code k t)
unfolding has_code
has_code-append k String.[] t = rw (nil-append t) refl
has_code-append k (String.◌∷◌ c s) t =
    rw (cons-append c s t) (ground (arith, has_code-append k s t))

-- Replacing a character by a text without it leaves it nowhere.
has_code-replace_all :
    (k : ℕ) (new s : String) → has_code k new ≡ false → has_code k (replace_all k new s) ≡ false
unfolding has_code replace_all
has_code-replace_all k new String.[] h = refl
has_code-replace_all k new (String.◌∷◌ c s) h = elim (Bool-cases (code c == k)) [
  | inl here ↦
      rw (here, has_code-append k new (replace_all k new s), h) (has_code-replace_all k new s h)
  | inr other ↦ rw (other, has_code, other) (has_code-replace_all k new s h)
]

-- An escaped key is one reference token: it has no slash.
pub escape-has_code : (value : String) → has_code b'/' (escape_json_pointer value) ≡ false
unfolding escape_json_pointer has_code
escape-has_code value = has_code-replace_all b'/' "~1" (replace_all b'~' "~0" value) refl
