-- ===== src/Sidecar/Config/Aliases.antt =====
-- Which of the names of a setting decides.
use service_mesh.Base.{
  String, Option, none, some, List, [], ◌∷◌, ◌++◌, ◌≡◌, ◌≢◌, ◌⊎◌, inl, inr, refl, ◌∙◌, arith, All,
  str_eq, eq_iff, Bool-cases,
}
use service_mesh.Sidecar.Config.{Readers}
use service_mesh.Sidecar.Config.Load.{read_env}

-- The key is blank in the environment, or its value cannot be parsed.
abbrev pub IsPassedOver {ℓ} :
    {A : Type ℓ} → Readers → (String → Option A) → (String → String) → String → Type ℓ
IsPassedOver go parse env key =
    (go.trim_space (env key) ≡ "") ⊎ (parse (go.trim_space (env key)) ≡ none)

module _ {A : Type 0} (go : Readers) (parse : String → Option A) (env : String → String)
    (fallback : A) where
  read_env-skip :
      (key : String) (keys : List String)
      → IsPassedOver go parse env key
      → read_env go parse env fallback (key ∷ keys) ≡ read_env go parse env fallback keys
  unfolding read_env
  read_env-skip key keys (inl blank) = ground (arith, eq_iff (go.trim_space (env key)) "")
  read_env-skip key keys (inr malformed) = elim (Bool-cases (str_eq (go.trim_space (env key)) "")) [
    | inl blank ↦ rw blank refl
    | inr filled ↦ rw (filled, malformed) refl
  ]

  -- A setting is read from the first of its names that is set and whose value can be parsed: names
  -- before it that are blank or malformed are passed over, and names after it do not matter.
  read_env_decides :
      (before after : List String) (key : String) (v : A)
      → All (IsPassedOver go parse env) before
      → go.trim_space (env key) ≢ ""
      → parse (go.trim_space (env key)) ≡ some v
      → read_env go parse env fallback (before ++ key ∷ after) ≡ v
  unfolding read_env
  read_env_decides [] after key v passed set parsed =
      ground (arith, eq_iff (go.trim_space (env key)) "")
  read_env_decides (k ∷ before) after key v (p, passed) set parsed =
      read_env-skip k (before ++ key ∷ after) p
      ∙ read_env_decides before after key v passed set parsed
