-- ===== src/Base/Text/Digits.antt =====
-- The characters of a number that is written out.
use Prim.Native.Nat.{ℕ, zero, suc, ◌/◌, ◌%◌}
use Prim.Native.Char
use Prim.Native.String.{String}
use mathlib.Core.Bool.{Bool, true, false, not}
use mathlib.Core.Path.{◌≡◌, refl, ap}
use mathlib.Core.Logic.{inl, inr}
use text.Mathlib.TextLemmas.{cons-append}
use native.Mathlib.Omega.{arith}
use service_mesh.Base.Num.{◌==◌, Bool-cases}
use service_mesh.Base.Text.{◌<>◌, itoa, itoa_from, digit, str_eq, eq_iff, eq_refl}
use service_mesh.Base.Space.{is_space, all_codes, all_codes-append, is_digit}

digit-all_codes : (n : ℕ) → all_codes is_digit (digit n) ≡ true
unfolding digit all_codes is_digit
digit-all_codes zero = refl
digit-all_codes (suc zero) = refl
digit-all_codes (suc (suc zero)) = refl
digit-all_codes (suc (suc (suc zero))) = refl
digit-all_codes (suc (suc (suc (suc zero)))) = refl
digit-all_codes (suc (suc (suc (suc (suc zero))))) = refl
digit-all_codes (suc (suc (suc (suc (suc (suc zero)))))) = refl
digit-all_codes (suc (suc (suc (suc (suc (suc (suc zero))))))) = refl
digit-all_codes (suc (suc (suc (suc (suc (suc (suc (suc zero)))))))) = refl
digit-all_codes (suc (suc (suc (suc (suc (suc (suc (suc (suc n))))))))) = refl

itoa_from-all_codes :
    (fuel n : ℕ) (acc : String)
    → all_codes is_digit acc ≡ true
    → all_codes is_digit (itoa_from fuel n acc) ≡ true
unfolding itoa_from
itoa_from-all_codes zero n acc h = h
itoa_from-all_codes (suc fuel) n acc h =
    let more : all_codes is_digit (digit (n % 10) <> acc) ≡ true =
      rw (all_codes-append is_digit (digit (n % 10)) acc, digit-all_codes (n % 10)) h in
    elim (Bool-cases (n == 0)) [
      | inl done ↦ rw done h
      | inr on ↦ rw on (itoa_from-all_codes fuel (n / 10) (digit (n % 10) <> acc) more)
    ]

zero-all_codes : all_codes is_digit "0" ≡ true
unfolding all_codes is_digit
zero-all_codes = refl

none-all_codes : all_codes is_digit "" ≡ true
unfolding all_codes
none-all_codes = refl

pub itoa-all_codes : (n : ℕ) → all_codes is_digit (itoa n) ≡ true
unfolding itoa
itoa-all_codes n = elim (Bool-cases (n == 0)) [
  | inl nought ↦ rw (nought) zero-all_codes
  | inr more ↦ rw (more) (itoa_from-all_codes n n "" none-all_codes)
]

-- What every digit passes, a text of digits passes.
pub all_codes-weaken :
    (p q : ℕ → Bool) (s : String)
    → ((c : ℕ) → p c ≡ true → q c ≡ true)
    → all_codes p s ≡ true
    → all_codes q s ≡ true
unfolding all_codes
all_codes-weaken p q String.[] f h = refl
all_codes-weaken p q (String.◌∷◌ c s) f h =
    ground (arith, f (Prim.Native.Char.code c), all_codes-weaken p q s f)

pub digit_no_space : (c : ℕ) → is_digit c ≡ true → not (is_space c) ≡ true
unfolding is_digit is_space
digit_no_space c h = ground arith

filled : String → Bool
filled String.[] = false
filled (String.◌∷◌ c s) = true

filled-append : (s t : String) → filled s ≡ true → filled (s <> t) ≡ true
unfolding filled
filled-append String.[] t h = absurd (ground arith)
filled-append (String.◌∷◌ c s) t h = rw (cons-append c s t) refl

digit-filled : (n : ℕ) → filled (digit n) ≡ true
unfolding digit filled
digit-filled zero = refl
digit-filled (suc zero) = refl
digit-filled (suc (suc zero)) = refl
digit-filled (suc (suc (suc zero))) = refl
digit-filled (suc (suc (suc (suc zero)))) = refl
digit-filled (suc (suc (suc (suc (suc zero))))) = refl
digit-filled (suc (suc (suc (suc (suc (suc zero)))))) = refl
digit-filled (suc (suc (suc (suc (suc (suc (suc zero))))))) = refl
digit-filled (suc (suc (suc (suc (suc (suc (suc (suc zero)))))))) = refl
digit-filled (suc (suc (suc (suc (suc (suc (suc (suc (suc n))))))))) = refl

itoa_from-filled :
    (fuel n : ℕ) (acc : String) → filled acc ≡ true → filled (itoa_from fuel n acc) ≡ true
unfolding itoa_from
itoa_from-filled zero n acc h = h
itoa_from-filled (suc fuel) n acc h = elim (Bool-cases (n == 0)) [
  | inl done ↦ rw done h
  | inr on ↦ rw on (
      itoa_from-filled fuel (n / 10) (digit (n % 10) <> acc)
        (filled-append (digit (n % 10)) acc (digit-filled (n % 10))))
]

itoa-filled : (n : ℕ) → filled (itoa n) ≡ true
unfolding itoa itoa_from filled
itoa-filled zero = refl
itoa-filled (suc n) =
    let positive : suc n == 0 ≡ false = ground arith in
    rw positive (
      itoa_from-filled n (suc n / 10) (digit (suc n % 10) <> "")
        (filled-append (digit (suc n % 10)) "" (digit-filled (suc n % 10))))

filled-not_empty : (s : String) → filled s ≡ true → str_eq s "" ≡ false
unfolding filled
filled-not_empty String.[] h = absurd (ground arith)
filled-not_empty (String.◌∷◌ c s) h = elim (Bool-cases (str_eq (String.◌∷◌ c s) "")) [
  | inl empty ↦
      let nothing : String.◌∷◌ c s ≡ "" = ground (arith, eq_iff (String.◌∷◌ c s) "") in
      let wrong : filled (String.◌∷◌ c s) ≡ filled "" = ap filled nothing in absurd (ground arith)
  | inr full ↦ full
]

not_empty-filled : (s : String) → str_eq s "" ≡ false → filled s ≡ true
unfolding filled
not_empty-filled String.[] h = absurd (ground (arith, eq_refl ""))
not_empty-filled (String.◌∷◌ c s) h = refl

-- A number that is written out is not empty.
pub itoa-not_empty : (n : ℕ) → str_eq (itoa n) "" ≡ false
itoa-not_empty n = filled-not_empty (itoa n) (itoa-filled n)

pub append-not_empty : (s t : String) → str_eq s "" ≡ false → str_eq (s <> t) "" ≡ false
append-not_empty s t h = filled-not_empty (s <> t) (filled-append s t (not_empty-filled s h))
