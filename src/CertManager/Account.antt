-- ===== src/CertManager/Account.antt =====
-- Which names of users are those of service accounts.
use service_mesh.Base.{
  String, true, false, List, [], ◌∷◌, inl, inr, ◌≡◌, refl, arith, str_eq, Bool-cases, ◌||◌,
  split_on, has_prefix,
}
use service_mesh.CertManager.{Identity, Cluster, parse_parts, parse_username}

-- The user is a service account: the name has the prefix and four parts between colons, of which the
-- last two, with the space around them cut, are the namespace and the account, and are not empty.
pub record IsAccount (k : Cluster) (username : String) (identity : Identity) : Type 0 where
  pub first : String
  pub second : String
  pub namespace : String
  pub account : String
  pub prefixed : has_prefix "system:serviceaccount:" (k.trim_space username) ≡ true
  pub parts : split_on b':' (k.trim_space username) ≡ first ∷ second ∷ namespace ∷ account ∷ []
  pub in_namespace : identity.namespace ≡ k.trim_space namespace
  pub as_account : identity.service_account ≡ k.trim_space account
  pub has_namespace : str_eq identity.namespace "" ≡ false
  pub has_account : str_eq identity.service_account "" ≡ false

parts-IsAccount :
    (k : Cluster) (username : String) (parts : List String) (identity : Identity)
    → has_prefix "system:serviceaccount:" (k.trim_space username) ≡ true
    → split_on b':' (k.trim_space username) ≡ parts
    → parse_parts k parts ≡ inr identity
    → IsAccount k username identity
unfolding parse_parts
parts-IsAccount k username [] identity p e h = absurd (ground arith)
parts-IsAccount k username (a ∷ []) identity p e h = absurd (ground arith)
parts-IsAccount k username (a ∷ b ∷ []) identity p e h = absurd (ground arith)
parts-IsAccount k username (a ∷ b ∷ c ∷ []) identity p e h = absurd (ground arith)
parts-IsAccount k username (a ∷ b ∷ c ∷ d ∷ e0 ∷ es) identity p e h = absurd (ground arith)
parts-IsAccount k username (a ∷ b ∷ c ∷ d ∷ []) identity p e h =
    elim (Bool-cases (str_eq (k.trim_space c) "" || str_eq (k.trim_space d) "")) [
      | inl blank ↦ absurd (ground arith)
      | inr filled ↦
          let same : identity
              ≡ record { namespace = k.trim_space c; service_account = k.trim_space d } =
            ground arith in
          rw same record {
            first = a;
            second = b;
            namespace = c;
            account = d;
            prefixed = p;
            parts = e;
            in_namespace = refl;
            as_account = refl;
            has_namespace = ground arith;
            has_account = ground arith;
          }
    ]

pub parse_username-IsAccount :
    (k : Cluster) (username : String) (identity : Identity)
    → parse_username k username ≡ inr identity
    → IsAccount k username identity
unfolding parse_username
parse_username-IsAccount k username identity h =
    elim (Bool-cases (has_prefix "system:serviceaccount:" (k.trim_space username))) [
      | inl prefixed ↦
          parts-IsAccount k username (split_on b':' (k.trim_space username)) identity prefixed refl
            (ground arith)
      | inr other ↦ absurd (ground arith)
    ]
