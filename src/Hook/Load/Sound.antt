-- ===== src/Hook/Load/Sound.antt =====
-- What holds of the settings that the hook starts with.
use service_mesh.Base.{
  String, Bool, true, false, none, List, [], ◌∷◌, ◌≡◌, refl, sym, ap, ◌∙◌, ◌⊎◌, inl, inr, ◌&&◌,
  ◌||◌, not, arith, All, str_eq, eq_iff, split_on, Bool-cases, Option-cases,
}
use service_mesh.Base.Int.{is_negative, is_positive}
use service_mesh.Base.Space.{trim_space, trim_space_again}
use service_mesh.Hook.{Config}
use service_mesh.Hook.Patch.{is_ignored_namespace, is_member}
use service_mesh.Hook.Load.{
  Parsers, Complaint, trim_items, or_fallback, env_csv, put_member, put_members, to_set,
  first_complaint, differ_from, conditions, validate, read_config, load_from_env,
}

faultless :
    (cs : List (Bool × Complaint))
    → first_complaint cs ≡ none
    → All (λ (check : Bool × Complaint). check.0 ≡ false) cs
unfolding first_complaint
faultless [] h = tt
faultless ((true, complaint) ∷ cs) h = absurd (ground arith)
faultless ((false, complaint) ∷ cs) h = (refl, faultless cs h)

-- Settings that pass every check: the ports that the injected containers need are positive, the
-- images and the version are named, and a key comes with its certificate.
pub record IsSound (c : Config) : Type 0 where
  pub images : str_eq c.iptables_image "" || str_eq c.sidecar_image "" ≡ false
  pub version : str_eq c.mesh_version "" ≡ false
  pub key_pair : str_eq c.tls_cert_file "" ≡ str_eq c.tls_key_file ""
  pub metrics : is_positive c.metrics_port ≡ true
  pub plain : is_positive c.inbound_plain_port ≡ true
  pub outbound : is_positive c.outbound_port ≡ true
  pub mtls : (c.mtls_enabled && not (is_positive c.inbound_mtls_port)) ≡ false
  pub user : is_positive c.sidecar_uid ≡ true
  pub attempts : is_negative c.retry_attempts ≡ false
  pub copies : (c.copy_mode ≡ "buffered") ⊎ (c.copy_mode ≡ "zero-copy")
  pub recovery : is_positive c.circuit_breaker_recovery_time ≡ true

both_agree : (b c : Bool) → differ_from b c ≡ false → b ≡ c
unfolding differ_from
both_agree true true h = refl
both_agree true false h = absurd (ground arith)
both_agree false c h = sym h

all_three : (p q r : Bool) → not p || not q || not r ≡ false → (p ≡ true) × (q ≡ true) × (r ≡ true)
all_three true true true h = (refl, refl, refl)
all_three true true false h = absurd (ground arith)
all_three true false r h = absurd (ground arith)
all_three false q r h = absurd (ground arith)

true_of_not : (b : Bool) → not b ≡ false → b ≡ true
true_of_not true h = refl
true_of_not false h = absurd (ground arith)

one_of_two : (t a b : String) → not (str_eq t a || str_eq t b) ≡ false → (t ≡ a) ⊎ (t ≡ b)
one_of_two t a b h = elim (Bool-cases (str_eq t a)) [
  | inl same ↦ inl (ground (arith, eq_iff t a))
  | inr differs ↦ inr (ground (arith, eq_iff t b))
]

valid-IsSound : (c : Config) → validate c ≡ none → IsSound c
unfolding validate conditions
valid-IsSound c h =
    let all = faultless (conditions c) h in
    let ports = all.1.1.1.1.1.1.0 in
    let (metrics, plain, outbound) =
      all_three (is_positive c.metrics_port) (is_positive c.inbound_plain_port)
        (is_positive c.outbound_port) ports in
    record {
      images = all.1.1.1.1.0;
      version = all.1.1.1.1.1.0;
      key_pair = both_agree (str_eq c.tls_cert_file "") (str_eq c.tls_key_file "") all.1.0;
      metrics = metrics;
      plain = plain;
      outbound = outbound;
      mtls = all.1.1.1.1.1.1.1.1.0;
      user = true_of_not (is_positive c.sidecar_uid) all.1.1.1.1.1.1.1.1.1.0;
      attempts = all.1.1.1.1.1.1.1.1.1.1.0;
      copies = one_of_two c.copy_mode "buffered" "zero-copy" all.1.1.1.1.1.1.1.1.1.1.1.1.0;
      recovery =
          true_of_not (is_positive c.circuit_breaker_recovery_time)
            all.1.1.1.1.1.1.1.1.1.1.1.1.1.1.0;
    }

-- Settings that the hook loads without an error are sound: it never injects a container without an
-- image, a port or an account's user that is not positive, a copy mode that the sidecar does not
-- know, or mutual TLS without a port.
pub load_from_env-IsSound :
    (go : Parsers) (getenv : String → String) (c : Config)
    → load_from_env go getenv ≡ inr c
    → IsSound c
unfolding load_from_env
load_from_env-IsSound go getenv c loaded = elim (Option-cases (validate (read_config go getenv))) [
  | inl valid ↦
      let same : c ≡ read_config go getenv = ground arith in
      rw same (valid-IsSound (read_config go getenv) valid)
  | inr (complaint, refused) ↦ absurd (ground arith)
]

is_member-put_member :
    (k s : String) (ss : List String)
    → is_member k (put_member s ss) ≡ (str_eq s k || is_member k ss)
unfolding is_member put_member
is_member-put_member k s [] = ground arith
is_member-put_member k s (t ∷ ss) =
    ground (arith, is_member-put_member k s ss, eq_iff t s, eq_iff t k, eq_iff s k)

is_member-put_members :
    (k : String) (ss set : List String)
    → is_member k (put_members ss set) ≡ (is_member k ss || is_member k set)
unfolding is_member put_members
is_member-put_members k [] set = refl
is_member-put_members k (s ∷ ss) set =
    ground (arith, is_member-put_members k ss (put_member s set), is_member-put_member k s set)

trim_items_again : (ss : List String) → trim_items (trim_items ss) ≡ trim_items ss
unfolding trim_items
trim_items_again [] = refl
trim_items_again (s ∷ ss) = elim (Bool-cases (str_eq (trim_space s) "")) [
  | inl blank ↦ rw blank (trim_items_again ss)
  | inr filled ↦ rw (filled, trim_items, trim_space_again s, filled, trim_items_again ss) refl
]

trim_or_fallback :
    (fallback ss : List String)
    → trim_items fallback ≡ fallback
    → trim_items ss ≡ ss
    → trim_items (or_fallback fallback ss) ≡ or_fallback fallback ss
unfolding or_fallback
trim_or_fallback fallback [] h e = h
trim_or_fallback fallback (s ∷ ss) h e = e

no_item : (fallback : List String) → fallback ≡ or_fallback fallback (trim_items (split_on b',' ""))
unfolding or_fallback trim_items split_on trim_space
no_item fallback = refl

-- A text that is empty when it is trimmed has no item either.
csv_items :
    (getenv : String → String) (fallback : List String) (key value : String)
    → trim_space (getenv key) ≡ value
    → env_csv getenv fallback key ≡ or_fallback fallback (trim_items (split_on b',' value))
unfolding env_csv
csv_items getenv fallback key value e = elim (Bool-cases (str_eq value "")) [
  | inl empty ↦
      let nothing : value ≡ "" = ground (arith, eq_iff value "") in
      rw (e, empty, nothing) (no_item fallback)
  | inr filled ↦ rw (e, filled) refl
]

defaults_trimmed :
    trim_items ("kube-system" ∷ "mesh-system" ∷ []) ≡ "kube-system" ∷ "mesh-system" ∷ []
unfolding trim_items trim_space
defaults_trimmed = refl

-- The namespaces that the hook leaves alone are just the items of the list in IGNORE_NAMESPACES,
-- without the spaces around them and without blank ones; kube-system and mesh-system stand for the
-- list where nothing of it is left, so the hook cannot be told to ignore no namespace.
ignored_namespaces_listed :
    (go : Parsers) (getenv : String → String) (namespace : String)
    → is_ignored_namespace (read_config go getenv) namespace
      ≡ is_member namespace (
          or_fallback
            ("kube-system" ∷ "mesh-system" ∷ [])
            (trim_items (split_on b',' (trim_space (getenv "IGNORE_NAMESPACES")))))
unfolding read_config to_set is_ignored_namespace is_member
ignored_namespaces_listed go getenv namespace =
    let defaults : List String = "kube-system" ∷ "mesh-system" ∷ [] in
    let items : List String = split_on b',' (trim_space (getenv "IGNORE_NAMESPACES")) in
    let kept : List String = or_fallback defaults (trim_items items) in
    let same : trim_items (env_csv getenv defaults "IGNORE_NAMESPACES") ≡ kept =
      ap trim_items (csv_items getenv defaults "IGNORE_NAMESPACES" _ refl)
      ∙ trim_or_fallback defaults (trim_items items) defaults_trimmed (trim_items_again items) in
    is_member-put_members namespace (trim_items (env_csv getenv defaults "IGNORE_NAMESPACES")) []
    ∙ rw same (ground arith)
