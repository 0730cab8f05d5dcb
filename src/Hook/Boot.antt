-- ===== src/Hook/Boot.antt =====
-- The environment that the hook gives to a sidecar, k8s/mesh/hook/internal/app/injector/service.go,
-- as k8s/mesh/sidecar/internal/config/config.go reads it.
pub mod Refused
pub mod Settings
use service_mesh.Base.{
  ℕ, suc, ◌+◌, String, Bool, true, false, Option, none, some, List, [], ◌∷◌, ◌≡◌, refl, ◌∙◌, ap,
  ◌⊎◌, inl, inr, not, arith, ◌==◌, if◌then◌else◌, str_eq, itoa, ◌<>◌, Bool-cases, Option-cases,
}
use service_mesh.Base.Int.{ℤ, pos, negsuc}
use service_mesh.Base.Space.{
  trim_space, trim_space_same, is_space, is_digit, all_codes, all_codes-append,
}
use service_mesh.Base.Text.Digits.{
  itoa-all_codes, itoa-not_empty, append-not_empty, all_codes-weaken, digit_no_space,
}
use service_mesh.Base.Int.{int_text}
use service_mesh.Hook.{Config, EnvVar, EnvSource, value, field_ref}
use service_mesh.Hook.Patch.Containers.{bool_text}
use service_mesh.Sidecar.Config.{Readers}
use service_mesh.Sidecar.Config.Load.{read_env}

-- os.Getenv in a container: what its spec says, and else what the image says; `fields` has what the
-- paths of field references stand for.
unfoldable pub getenv : (String → String) → (String → String) → List EnvVar → String → String
getenv image fields [] name = image name
getenv image fields (v ∷ vs) name =
    let rest = getenv image fields vs name in
    if str_eq v.name name
    then elim v.source [ value text ↦ text | field_ref path ↦ fields path ]
    else rest

-- Texts that a reader of the environment takes as they are.
abbrev pub IsPlain : String → Type 0
IsPlain s = (trim_space s ≡ s) × (str_eq s "" ≡ false)

minus_tight : all_codes (λ c. not (is_space c)) "-" ≡ true
unfolding all_codes is_space
minus_tight = refl

pub int_text-IsPlain : (n : ℤ) → IsPlain (int_text n)
unfolding int_text
int_text-IsPlain (pos n) = (
  trim_space_same (itoa n) (
      all_codes-weaken is_digit (λ c. not (is_space c)) (itoa n) digit_no_space (itoa-all_codes n)),
  itoa-not_empty n,
)
int_text-IsPlain (negsuc n) = (
  trim_space_same ("-" <> itoa (suc n)) (
      all_codes-append (λ c. not (is_space c)) "-" (itoa (suc n))
      ∙ (rw
          (
            minus_tight,
            all_codes-weaken is_digit (λ c. not (is_space c)) (itoa (suc n)) digit_no_space
                (itoa-all_codes (suc n)),
          )
          refl)),
  append-not_empty "-" (itoa (suc n)) refl,
)

pub bool_text-IsPlain : (b : Bool) → IsPlain (bool_text b)
unfolding trim_space
bool_text-IsPlain true = (refl, refl)
bool_text-IsPlain false = (refl, refl)

module _ {A : Type 0} (go : Readers) (parse : String → Option A) (vars : String → String)
    (fallback : A) (trims : (s : String) → go.trim_space s ≡ trim_space s) where
  -- A plain text under the first name decides.
  pub read_env-first :
      (key : String) (keys : List String) (s : String) (v : A)
      → vars key ≡ s
      → IsPlain s
      → parse s ≡ some v
      → read_env go parse vars fallback (key ∷ keys) ≡ v
  unfolding read_env
  read_env-first key keys s v e (tight, full) parsed = rw (e, trims s, tight, full, parsed) refl

  -- Where no name is set the setting has its default.
  pub read_env-unset :
      (key other : String)
      → vars key ≡ ""
      → vars other ≡ ""
      → read_env go parse vars fallback (key ∷ other ∷ []) ≡ fallback
  unfolding read_env trim_space
  read_env-unset key other e f = rw (e, f, trims "") refl
