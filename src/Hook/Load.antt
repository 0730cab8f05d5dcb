-- ===== src/Hook/Load.antt =====
-- k8s/mesh/hook/internal/config/config.go: the settings of the hook out of its environment, and
-- their validation. What strconv and time read out of a text is a parameter.
pub mod Sound
use service_mesh.Base.{
  ℕ, String, Bool, true, false, Option, none, some, List, [], ◌∷◌, ◌⊎◌, inl, inr, ◌&&◌, ◌||◌, not,
  if◌then◌else◌, str_eq, ◌<>◌, split_on,
}
use service_mesh.Base.Int.{ℤ, pos, is_negative, is_positive}
use service_mesh.Base.Space.{trim_space}
use service_mesh.Base.Int.{int_text}
use service_mesh.Hook.{Config}

-- strconv.Atoi, strconv.ParseInt with 64 bits, strconv.ParseBool and time.ParseDuration.
pub record Parsers : Type 0 where
  pub atoi : String → Option ℤ
  pub parse_int : String → Option ℤ
  pub parse_bool : String → Option Bool
  pub parse_duration : String → Option ℤ

-- What envString, envInt, envInt64, envDuration and envBool share. `getenv` is os.Getenv.
unfoldable pub env_value {ℓ} :
    {A : Type ℓ} → (String → Option A) → (String → String) → A → String → A
env_value parse getenv fallback key =
    let value = trim_space (getenv key) in
    if str_eq value "" then fallback else elim (parse value) [ none ↦ fallback | some v ↦ v ]

-- The loops of envCSV and toSet: what is left of each item, if it is not blank.
unfoldable pub trim_items : List String → List String
trim_items [] = []
trim_items (item ∷ items) =
    let rest = trim_items items in
    if str_eq (trim_space item) "" then rest else trim_space item ∷ rest

unfoldable pub or_fallback : List String → List String → List String
or_fallback fallback [] = fallback
or_fallback fallback (item ∷ items) = item ∷ items

unfoldable pub env_csv : (String → String) → List String → String → List String
unfolding trim_items or_fallback
env_csv getenv fallback key =
    let value = trim_space (getenv key) in
    if str_eq value "" then fallback else or_fallback fallback (trim_items (split_on b',' value))

-- A member of the set that is there already is written over.
put_member : String → List String → List String
put_member s [] = s ∷ []
put_member s (t ∷ ts) = let rest = put_member s ts in if str_eq t s then t ∷ ts else t ∷ rest

put_members : List String → List String → List String
unfolding put_member
put_members [] set = set
put_members (s ∷ ss) set = put_members ss (put_member s set)

unfoldable pub to_set : List String → List String
unfolding put_members
to_set values = put_members (trim_items values) []

-- The errors of `Validate`, in the order of its checks.
pub data Complaint : Type 0 where
  no_address half_a_key_pair max_request_bytes_not_positive timeouts_not_positive : Complaint
  no_images no_version ports_not_positive mtls_port_negative mtls_port_not_positive : Complaint
  uid_not_positive attempts_negative timeout_negative unknown_copy_mode : Complaint
  threshold_negative recovery_not_positive : Complaint

-- The early returns: the first condition that holds.
unfoldable pub first_complaint : List (Bool × Complaint) → Option Complaint
first_complaint [] = none
first_complaint ((bad, complaint) ∷ checks) =
    let rest = first_complaint checks in if bad then some complaint else rest

-- b != c on Booleans.
unfoldable pub differ_from : Bool → Bool → Bool
differ_from true c = not c
differ_from false c = c

unfoldable pub conditions : Config → List (Bool × Complaint)
unfolding differ_from
conditions c =
    (str_eq (trim_space c.http_addr) "", no_address)
    ∷ (differ_from (str_eq c.tls_cert_file "") (str_eq c.tls_key_file ""), half_a_key_pair)
    ∷ (not (is_positive c.max_request_bytes), max_request_bytes_not_positive)
    ∷ (
      not (is_positive c.read_header_timeout)
          || not (is_positive c.idle_timeout)
          || not (is_positive c.shutdown_timeout),
      timeouts_not_positive,
    )
    ∷ (str_eq c.iptables_image "" || str_eq c.sidecar_image "", no_images)
    ∷ (str_eq c.mesh_version "", no_version)
    ∷ (
      not (is_positive c.metrics_port)
          || not (is_positive c.inbound_plain_port)
          || not (is_positive c.outbound_port),
      ports_not_positive,
    )
    ∷ (is_negative c.inbound_mtls_port, mtls_port_negative)
    ∷ (c.mtls_enabled && not (is_positive c.inbound_mtls_port), mtls_port_not_positive)
    ∷ (not (is_positive c.sidecar_uid), uid_not_positive)
    ∷ (is_negative c.retry_attempts, attempts_negative)
    ∷ (is_negative c.connect_timeout, timeout_negative)
    ∷ (not (str_eq c.copy_mode "buffered" || str_eq c.copy_mode "zero-copy"), unknown_copy_mode)
    ∷ (is_negative c.circuit_breaker_failure_threshold, threshold_negative)
    ∷ (not (is_positive c.circuit_breaker_recovery_time), recovery_not_positive)
    ∷ []

unfoldable pub validate : Config → Option Complaint
unfolding conditions first_complaint
validate c = first_complaint (conditions c)

module _ (go : Parsers) (getenv : String → String) where
  env_string : String → String → String
  env_string = env_value (λ v. some v) getenv

  env_int : ℤ → String → ℤ
  env_int = env_value go.atoi getenv

  env_duration : ℤ → String → ℤ
  env_duration = env_value go.parse_duration getenv

  env_bool : Bool → String → Bool
  env_bool = env_value go.parse_bool getenv

  env_int64 : ℤ → String → ℤ
  env_int64 = env_value go.parse_int getenv

  -- What LoadFromEnv reads before it validates. The durations are nanoseconds.
  unfoldable pub read_config : Config
  unfolding env_string env_int env_int64 env_duration env_bool
  read_config =
      let addr = trim_space (getenv "HTTP_ADDR") in
      record {
        http_addr = if str_eq addr "" then ":" <> int_text (env_int (pos 8080) "PORT") else addr;
        tls_cert_file = trim_space (getenv "TLS_CERT_FILE");
        tls_key_file = trim_space (getenv "TLS_KEY_FILE");
        max_request_bytes = env_int64 (pos 1048576) "MAX_REQUEST_BYTES";
        read_header_timeout = env_duration (pos 10000000000) "READ_HEADER_TIMEOUT";
        idle_timeout = env_duration (pos 60000000000) "IDLE_TIMEOUT";
        shutdown_timeout = env_duration (pos 10000000000) "SHUTDOWN_TIMEOUT";
        ignore_namespaces =
            to_set (env_csv getenv ("kube-system" ∷ "mesh-system" ∷ []) "IGNORE_NAMESPACES");
        iptables_image = env_string "mesh/iptables-init:latest" "IPTABLES_IMAGE";
        sidecar_image = env_string "mesh/sidecar:latest" "SIDECAR_IMAGE";
        mesh_version = env_string "v0.1.0" "MESH_VERSION";
        monitoring_enabled = env_bool true "MONITORING_ENABLED";
        metrics_port = env_int (pos 9090) "METRICS_PORT";
        inbound_plain_port = env_int (pos 15006) "INBOUND_PLAIN_PORT";
        outbound_port = env_int (pos 15002) "OUTBOUND_PORT";
        inbound_mtls_port = env_int (pos 15001) "INBOUND_MTLS_PORT";
        mtls_enabled = env_bool true "MTLS_ENABLED";
        exclude_inbound = env_string "9090" "EXCLUDE_INBOUND_PORTS";
        exclude_outbound = env_string "169.254.169.254/32" "EXCLUDE_OUTBOUND_IPS";
        sidecar_uid = env_int64 (pos 1337) "SIDECAR_UID";
        load_balancer_algorithm = env_string "roundRobin" "LOAD_BALANCER_ALGORITHM";
        copy_mode = env_string "buffered" "COPY_MODE";
        retry_attempts = env_int (pos 3) "RETRY_ATTEMPTS";
        connect_timeout = env_duration (pos 5000000000) "TIMEOUT";
        circuit_breaker_failure_threshold = env_int (pos 5) "CIRCUIT_BREAKER_FAILURE_THRESHOLD";
        circuit_breaker_recovery_time =
            env_duration (pos 30000000000) "CIRCUIT_BREAKER_RECOVERY_TIME";
      }

  unfoldable pub load_from_env : Complaint ⊎ Config
  load_from_env = elim (validate read_config) [
    | some complaint ↦ inl complaint
    | none ↦ inr read_config
  ]
