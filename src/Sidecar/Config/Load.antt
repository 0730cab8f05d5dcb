-- ===== src/Sidecar/Config/Load.antt =====
-- The readers of the environment of k8s/mesh/sidecar/internal/config/config.go, and LoadFromEnv.
use service_mesh.Base.{
  ℕ, String, Bool, true, Option, none, some, List, [], ◌∷◌, ◌⊎◌, inl, inr, if◌then◌else◌, str_eq,
}
use service_mesh.Base.Int.{ℤ, pos, is_positive}
use service_mesh.Sidecar.Config.{Readers, Config, Fault, validate}

-- The loop that the readers of the environment share: the value of the first key that is set and
-- can be parsed. `env` is os.Getenv.
unfoldable pub read_env {ℓ} :
    {A : Type ℓ} → Readers → (String → Option A) → (String → String) → A → List String → A
read_env go parse env fallback [] = fallback
read_env go parse env fallback (key ∷ keys) =
    let rest = read_env go parse env fallback keys in
    if str_eq (go.trim_space (env key)) ""
    then rest
    else elim (parse (go.trim_space (env key))) [ none ↦ rest | some parsed ↦ parsed ]

module _ (go : Readers) (env : String → String) where
  unfoldable pub env_string : String → List String → String
  env_string = read_env go (λ value. some value) env

  unfoldable pub env_int : ℤ → List String → ℤ
  env_int = read_env go go.atoi env

  unfoldable pub env_uint32 : ℕ → List String → ℕ
  env_uint32 = read_env go go.parse_uint env

  unfoldable pub env_bool : Bool → List String → Bool
  env_bool = read_env go go.parse_bool env

  unfoldable pub env_duration : ℤ → List String → ℤ
  env_duration = read_env go go.parse_duration env

  -- What `LoadFromEnv` reads, before it validates. The durations are nanoseconds.
  unfoldable pub read_config : Config
  unfolding env_string env_int env_uint32 env_bool env_duration
  read_config =
      let timeout = env_duration (pos 5000000000) ("TIMEOUT" ∷ "SIDECAR_TIMEOUT" ∷ []) in
      let dial_default = if is_positive timeout then timeout else pos 5000000000 in
      record {
        pod_name = env_string "unknown-pod" ("POD_NAME" ∷ []);
        namespace = env_string "default" ("POD_NAMESPACE" ∷ []);
        service_account = env_string "default" ("SERVICE_ACCOUNT" ∷ []);
        inbound_plain_port =
            env_int (pos 15006) ("INBOUND_PLAIN_PORT" ∷ "SIDECAR_INBOUND_PLAIN_PORT" ∷ []);
        outbound_port = env_int (pos 15002) ("OUTBOUND_PORT" ∷ "SIDECAR_OUTBOUND_PORT" ∷ []);
        inbound_mtls_port =
            env_int (pos 15001) ("INBOUND_MTLS_PORT" ∷ "SIDECAR_INBOUND_MTLS_PORT" ∷ []);
        mtls_enabled = env_bool true ("MTLS_ENABLED" ∷ "SIDECAR_MTLS_ENABLED" ∷ []);
        metrics_port = env_int (pos 9090) ("METRICS_PORT" ∷ "SIDECAR_METRICS_PORT" ∷ []);
        monitoring_enabled =
            env_bool true ("MONITORING_ENABLED" ∷ "SIDECAR_MONITORING_ENABLED" ∷ []);
        app_target_addr =
            env_string "127.0.0.1:8080" ("APP_TARGET_ADDR" ∷ "SIDECAR_APP_TARGET_ADDR" ∷ []);
        shutdown_timeout =
            env_duration (pos 30000000000) ("SHUTDOWN_TIMEOUT" ∷ "SIDECAR_SHUTDOWN_TIMEOUT" ∷ []);
        algorithm =
            env_string "roundRobin"
              ("LOAD_BALANCER_ALGORITHM" ∷ "SIDECAR_LOAD_BALANCER_ALGORITHM" ∷ []);
        exclude_inbound_ports =
            env_string "9090" ("EXCLUDE_INBOUND_PORTS" ∷ "SIDECAR_EXCLUDE_INBOUND_PORTS" ∷ []);
        exclude_outbound_ips =
            env_string "169.254.169.254/32"
              ("EXCLUDE_OUTBOUND_IPS" ∷ "SIDECAR_EXCLUDE_OUTBOUND_IPS" ∷ []);
        attempts = env_int (pos 3) ("RETRY_ATTEMPTS" ∷ "SIDECAR_RETRY_ATTEMPTS" ∷ []);
        backoff_type =
            env_string "exponential" ("RETRY_BACKOFF_TYPE" ∷ "SIDECAR_RETRY_BACKOFF_TYPE" ∷ []);
        base_interval =
            env_duration (pos 100000000)
              ("RETRY_BASE_INTERVAL" ∷ "SIDECAR_RETRY_BASE_INTERVAL" ∷ []);
        timeout = timeout;
        dial_timeout = env_duration dial_default ("DIAL_TIMEOUT" ∷ "SIDECAR_DIAL_TIMEOUT" ∷ []);
        copy_mode = env_string "buffered" ("COPY_MODE" ∷ "SIDECAR_COPY_MODE" ∷ []);
        failure_threshold = env_uint32 5 (
            "CIRCUIT_BREAKER_FAILURE_THRESHOLD" ∷ "SIDECAR_CIRCUIT_BREAKER_FAILURE_THRESHOLD" ∷ []);
        recovery_time =
            env_duration (pos 30000000000)
              ("CIRCUIT_BREAKER_RECOVERY_TIME" ∷ "SIDECAR_CIRCUIT_BREAKER_RECOVERY_TIME" ∷ []);
        cert_file = env_string "" ("CERT_FILE" ∷ "SIDECAR_CERT_FILE" ∷ []);
        key_file = env_string "" ("KEY_FILE" ∷ "SIDECAR_KEY_FILE" ∷ []);
        ca_file = env_string "" ("CA_FILE" ∷ "SIDECAR_CA_FILE" ∷ []);
        cert_manager_sign_url =
            env_string "http://mesh-cert-manager.mesh-system.svc.cluster.local:8080/sign"
              ("CERT_MANAGER_SIGN_URL" ∷ "SIDECAR_CERT_MANAGER_SIGN_URL" ∷ []);
        service_account_token_path =
            env_string "/var/run/secrets/kubernetes.io/serviceaccount/token"
              ("SERVICE_ACCOUNT_TOKEN_PATH" ∷ "SIDECAR_SERVICE_ACCOUNT_TOKEN_PATH" ∷ []);
        bootstrap_certificates =
            env_bool true ("BOOTSTRAP_CERTIFICATES" ∷ "SIDECAR_BOOTSTRAP_CERTIFICATES" ∷ []);
        kube_config_path = env_string "" ("KUBECONFIG" ∷ []);
      }

  unfoldable pub load_from_env : Fault ⊎ Config
  load_from_env = elim (validate go read_config) [
    | some fault ↦ inl fault
    | none ↦ inr (
        if read_config.mtls_enabled
        then read_config
        else record read_config { inbound_mtls_port = pos 0 })
  ]
