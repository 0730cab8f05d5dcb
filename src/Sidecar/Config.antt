-- ===== src/Sidecar/Config.antt =====
-- k8s/mesh/sidecar/internal/config/config.go: the settings of a sidecar and their validation. What
-- Go's strings, strconv, time and net read out of a text is a parameter.
pub mod Load
pub mod Usable
pub mod Aliases
pub mod Ports
use service_mesh.Base.{
  ℕ, String, Bool, true, false, Option, none, some, List, [], ◌∷◌, ◌⊎◌, inl, inr, ◌&&◌, ◌||◌, not,
  ltb, ◌==◌, if◌then◌else◌, str_eq, length, split_on,
}
use service_mesh.Base.Int.{ℤ, pos, negsuc, is_negative, is_positive, int_eq}

-- strings.TrimSpace, strconv.Atoi, strconv.ParseUint with 32 bits, strconv.ParseBool,
-- time.ParseDuration, and whether net.SplitHostPort succeeds; `none` is an error.
pub record Readers : Type 0 where
  pub trim_space : String → String
  pub atoi : String → Option ℤ
  pub parse_uint : String → Option ℕ
  pub parse_bool : String → Option Bool
  pub parse_duration : String → Option ℤ
  pub has_host_port : String → Bool

-- RetryPolicy, CircuitBreakerPolicy and LoadBalancerConfig stand in it.
pub record Config : Type 0 where
  pub pod_name : String
  pub namespace : String
  pub service_account : String
  pub inbound_plain_port : ℤ
  pub outbound_port : ℤ
  pub inbound_mtls_port : ℤ
  pub mtls_enabled : Bool
  pub metrics_port : ℤ
  pub monitoring_enabled : Bool
  pub app_target_addr : String
  pub shutdown_timeout : ℤ
  pub algorithm : String
  pub exclude_inbound_ports : String
  pub exclude_outbound_ips : String
  pub attempts : ℤ
  pub backoff_type : String
  pub base_interval : ℤ
  pub timeout : ℤ
  pub dial_timeout : ℤ
  pub copy_mode : String
  pub failure_threshold : ℕ  -- uint32
  pub recovery_time : ℤ
  pub cert_file : String
  pub key_file : String
  pub ca_file : String
  pub cert_manager_sign_url : String
  pub service_account_token_path : String
  pub bootstrap_certificates : Bool
  pub kube_config_path : String

-- The errors of `Validate`, in the order of its checks.
pub data Fault : Type 0 where
  ports_not_positive mtls_port_negative mtls_port_not_positive ports_not_unique : Fault
  timeout_negative dial_timeout_not_positive unsupported_copy_mode : Fault
  shutdown_timeout_not_positive attempts_negative base_interval_not_positive : Fault
  unsupported_backoff_type unsupported_algorithm recovery_time_not_positive : Fault
  invalid_app_target_addr metrics_port_not_excluded no_sign_url no_token_path no_files : Fault

-- A write into a map of which only the keys are asked for.
unfoldable pub put_key : ℤ → List ℤ → List ℤ
put_key k [] = k ∷ []
put_key k (j ∷ ks) = let rest = put_key k ks in if int_eq j k then j ∷ ks else j ∷ rest

-- The keys of the map `ports`.
unfoldable pub ports : Config → List ℤ
ports c =
    let three =
      put_key c.metrics_port (put_key c.outbound_port (put_key c.inbound_plain_port [])) in
    if is_positive c.inbound_mtls_port then put_key c.inbound_mtls_port three else three

-- The loop of `containsPort`. A blank or malformed part is passed over.
unfoldable pub contains_parsed : Readers → ℤ → List String → Bool
contains_parsed go port [] = false
contains_parsed go port (value ∷ values) =
    let rest = contains_parsed go port values in
    if str_eq (go.trim_space value) "" then rest else elim (go.atoi (go.trim_space value)) [
      | none ↦ rest
      | some parsed ↦ if int_eq parsed port then true else rest
    ]

unfoldable pub contains_port : Readers → String → ℤ → Bool
unfolding contains_parsed
contains_port go csv port =
    if str_eq csv "" then false else contains_parsed go port (split_on b',' csv)

-- An early return for each condition that holds.
unfoldable pub first_fault : List (Bool × Fault) → Option Fault
first_fault [] = none
first_fault ((bad, fault) ∷ checks) =
    let rest = first_fault checks in if bad then some fault else rest

-- The conditions of `Validate`, each with the error that it returns.
unfoldable pub checks : Readers → Config → List (Bool × Fault)
checks go c =
    let mtls = c.mtls_enabled && is_positive c.inbound_mtls_port in
    (
      not (is_positive c.inbound_plain_port)
          || not (is_positive c.outbound_port)
          || not (is_positive c.metrics_port),
      ports_not_positive,
    )
    ∷ (is_negative c.inbound_mtls_port, mtls_port_negative)
    ∷ (c.mtls_enabled && not (is_positive c.inbound_mtls_port), mtls_port_not_positive)
    ∷ (not (length (ports c) == 3) && not (length (ports c) == 4), ports_not_unique)
    ∷ (is_negative c.timeout, timeout_negative)
    ∷ (not (is_positive c.dial_timeout), dial_timeout_not_positive)
    ∷ (not (str_eq c.copy_mode "buffered" || str_eq c.copy_mode "zero-copy"), unsupported_copy_mode)
    ∷ (not (is_positive c.shutdown_timeout), shutdown_timeout_not_positive)
    ∷ (is_negative c.attempts, attempts_negative)
    ∷ (not (is_positive c.base_interval), base_interval_not_positive)
    ∷ (
      not (str_eq c.backoff_type "linear" || str_eq c.backoff_type "exponential"),
      unsupported_backoff_type,
    )
    ∷ (
      not (
          str_eq c.algorithm "none"
          || str_eq c.algorithm "roundRobin"
          || str_eq c.algorithm "random"),
      unsupported_algorithm,
    )
    ∷ (ltb 0 c.failure_threshold && not (is_positive c.recovery_time), recovery_time_not_positive)
    ∷ (not (go.has_host_port c.app_target_addr), invalid_app_target_addr)
    ∷ (not (contains_port go c.exclude_inbound_ports c.metrics_port), metrics_port_not_excluded)
    ∷ (mtls && c.bootstrap_certificates && str_eq c.cert_manager_sign_url "", no_sign_url)
    ∷ (mtls && c.bootstrap_certificates && str_eq c.service_account_token_path "", no_token_path)
    ∷ (
      mtls
          && not c.bootstrap_certificates
          && (str_eq c.cert_file "" || str_eq c.key_file "" || str_eq c.ca_file ""),
      no_files,
    )
    ∷ []

unfoldable pub validate : Readers → Config → Option Fault
validate go c = first_fault (checks go c)
