-- ===== src/Sidecar/Config/Usable.antt =====
-- What holds of the settings that a sidecar starts with.
use service_mesh.Base.{
  ℕ, String, Bool, true, false, none, List, [], ◌∷◌, ◌⊎◌, inl, inr, ◌&&◌, ◌||◌, not, ◌≡◌, refl, sym,
  ◌∙◌, arith, All, eq_iff, str_eq, if◌then◌else◌, Bool-cases, Option-cases, ltb,
}
use service_mesh.Base.Int.{ℤ, pos, is_negative, is_positive}
use service_mesh.Sidecar.Config.{
  Readers, Config, Fault, first_fault, checks, validate, contains_port,
}
use service_mesh.Sidecar.Config.Load.{read_config, load_from_env}

-- The settings as the handlers of the chain take them, and the listeners as `Run` opens them: there
-- is one for mutual TLS exactly if it is enabled.
pub record IsUsable (go : Readers) (c : Config) : Type 0 where
  pub inbound_port : is_positive c.inbound_plain_port ≡ true
  pub outgoing_port : is_positive c.outbound_port ≡ true
  pub scraping_port : is_positive c.metrics_port ≡ true
  pub mtls_port : is_positive c.inbound_mtls_port ≡ c.mtls_enabled
  pub time_limit : is_negative c.timeout ≡ false
  pub dial_limit : is_positive c.dial_timeout ≡ true
  pub copying : (c.copy_mode ≡ "buffered") ⊎ (c.copy_mode ≡ "zero-copy")
  pub shutdown_limit : is_positive c.shutdown_timeout ≡ true
  pub tries : is_negative c.attempts ≡ false
  pub interval : is_positive c.base_interval ≡ true
  pub backoff : (c.backoff_type ≡ "linear") ⊎ (c.backoff_type ≡ "exponential")
  pub policy : (c.algorithm ≡ "none") ⊎ ((c.algorithm ≡ "roundRobin") ⊎ (c.algorithm ≡ "random"))
  pub recovery : (c.failure_threshold ≡ 0) ⊎ (is_positive c.recovery_time ≡ true)
  pub scraped : contains_port go c.exclude_inbound_ports c.metrics_port ≡ true

pub faultless :
    (cs : List (Bool × Fault))
    → first_fault cs ≡ none
    → All (λ (check : Bool × Fault). check.0 ≡ false) cs
unfolding first_fault
faultless [] h = tt
faultless ((true, fault) ∷ cs) h = absurd (ground arith)
faultless ((false, fault) ∷ cs) h = (refl, faultless cs h)

pub none_of-All :
    (cs : List (Bool × Fault))
    → All (λ (check : Bool × Fault). check.0 ≡ false) cs
    → first_fault cs ≡ none
unfolding first_fault
none_of-All [] h = refl
none_of-All ((bad, fault) ∷ cs) (b, h) = rw b (none_of-All cs h)

pub validate-All :
    (go : Readers) (c : Config)
    → validate go c ≡ none
    → All (λ (check : Bool × Fault). check.0 ≡ false) (checks go c)
unfolding validate
validate-All go c h = faultless (checks go c) h

true_of_not : (b : Bool) → not b ≡ false → b ≡ true
true_of_not true h = refl
true_of_not false h = absurd (ground arith)

pub all_three :
    (p q r : Bool) → not p || not q || not r ≡ false → (p ≡ true) × ((q ≡ true) × (r ≡ true))
all_three true true true h = (refl, (refl, refl))
all_three true true false h = absurd (ground arith)
all_three true false r h = absurd (ground arith)
all_three false q r h = absurd (ground arith)

one_of_two : (t a b : String) → not (str_eq t a || str_eq t b) ≡ false → (t ≡ a) ⊎ (t ≡ b)
one_of_two t a b h = elim (Bool-cases (str_eq t a)) [
  | inl same ↦ inl (ground (arith, eq_iff t a))
  | inr differs ↦ inr (ground (arith, eq_iff t b))
]

one_of_three :
    (t a b c : String)
    → not (str_eq t a || str_eq t b || str_eq t c) ≡ false
    → (t ≡ a) ⊎ ((t ≡ b) ⊎ (t ≡ c))
one_of_three t a b c h = elim (Bool-cases (str_eq t a)) [
  | inl same ↦ inl (ground (arith, eq_iff t a))
  | inr differs ↦ elim (Bool-cases (str_eq t b)) [
    | inl same ↦ inr (inl (ground (arith, eq_iff t b)))
    | inr also ↦ inr (inr (ground (arith, eq_iff t c)))
  ]
]

zero_or_positive :
    (n : ℕ) (d : ℤ) → ltb 0 n && not (is_positive d) ≡ false → (n ≡ 0) ⊎ (is_positive d ≡ true)
zero_or_positive n d h = elim (Bool-cases (is_positive d)) [
  | inl positive ↦ inr positive
  | inr not_positive ↦ inl (ground arith)
]

-- Both settings of mutual TLS, the second after the port is cleared.
mtls_port_positive :
    (enabled : Bool) (port : ℤ)
    → enabled && not (is_positive port) ≡ false
    → enabled ≡ true
    → is_positive port ≡ true
mtls_port_positive enabled port h on = ground arith

-- What `LoadFromEnv` makes of the port for mutual TLS.
abbrev pub settled : Config → Config
settled c = if c.mtls_enabled then c else record c { inbound_mtls_port = pos 0 }

module _ (go : Readers) (c : Config) (port : ℤ) (h : validate go c ≡ none) where
  with_port :
      is_positive port ≡ c.mtls_enabled → IsUsable go (record c { inbound_mtls_port = port })
  unfolding checks contains_port
  with_port e =
      let (
        a1,
        (
          a2,
          (a3, (a4, (a5, (a6, (a7, (a8, (a9, (a10, (a11, (a12, (a13, (a14, (a15, rest))))))))))))),
        ),
      ) =
        validate-All go c h in
      let positive = all_three _ _ _ a1 in
      record {
        inbound_port = positive.0;
        outgoing_port = positive.1.0;
        scraping_port = positive.1.1;
        mtls_port = e;
        time_limit = a5;
        dial_limit = true_of_not _ a6;
        copying = one_of_two _ _ _ a7;
        shutdown_limit = true_of_not _ a8;
        tries = a9;
        interval = true_of_not _ a10;
        backoff = one_of_two _ _ _ a11;
        policy = one_of_three _ _ _ _ a12;
        recovery = zero_or_positive _ _ a13;
        scraped = true_of_not _ a15;
      }

either :
    (b : Bool) (P : Config → Type 0) (x y : Config)
    → (b ≡ true → P x)
    → (b ≡ false → P y)
    → P (if b then x else y)
either true P x y f g = f refl
either false P x y f g = g refl

settled-IsUsable : (go : Readers) (c : Config) → validate go c ≡ none → IsUsable go (settled c)
unfolding checks
settled-IsUsable go c h =
    either c.mtls_enabled (IsUsable go) c (record c { inbound_mtls_port = pos 0 })
      (λ on.
        with_port go c c.inbound_mtls_port h
          (mtls_port_positive _ _ (validate-All go c h).1.1.0 on ∙ sym on))
      (λ off. with_port go c (pos 0) h (sym off))

-- Settings that are loaded without an error are fit for the chain and the listeners: the ports for
-- plain connections and the metrics port are positive, that of mutual TLS is positive exactly if it
-- is enabled, the timeout and the attempts are not negative, the time to dial, the time to shut down
-- and the retry interval are positive, the recovery time is positive unless the breaker is off, the
-- copy mode, the back-off and the policy are known, and the metrics port is not captured.
pub load_from_env-IsUsable :
    (go : Readers) (env : String → String) (c : Config)
    → load_from_env go env ≡ inr c
    → IsUsable go c
unfolding load_from_env
load_from_env-IsUsable go env c loaded = elim (Option-cases (validate go (read_config go env))) [
  | inl valid ↦
      let same : c ≡ settled (read_config go env) = ground arith in
      rw same (settled-IsUsable go (read_config go env) valid)
  | inr (fault, invalid) ↦ absurd (ground arith)
]
