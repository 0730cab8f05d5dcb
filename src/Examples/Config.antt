-- ===== src/Examples/Config.antt =====
-- Settings from an empty environment, and settings that share a port.
use service_mesh.Base.{
  ℕ, String, true, false, none, some, ◌≡◌, inr, refl, arith, str_eq, if◌then◌else◌, split_on,
}
use service_mesh.Base.Int.{pos}
use service_mesh.Sidecar.Config.{
  Readers, Config, validate, checks, first_fault, ports, put_key, contains_port,
}
use service_mesh.Sidecar.Config.Load.{load_from_env, read_config, read_env}
use service_mesh.Sidecar.Config.Ports.{shared_port_accepted}
use service_mesh.Sidecar.Config.Usable.{IsUsable, load_from_env-IsUsable}

-- A reader that knows two numbers.
abbrev readers : Readers
readers = record {
  trim_space = λ s. s;
  atoi = λ s.
      if str_eq s "9090"
      then some (pos 9090)
      else if str_eq s "16000"
      then some (pos 16000)
      else none;
  parse_uint = λ s. none;
  parse_bool = λ s. none;
  parse_duration = λ s. none;
  has_host_port = λ s. true;
}

abbrev unset : String → String
unset key = ""

abbrev one_set : String → String
one_set key = if str_eq key "SIDECAR_OUTBOUND_PORT" then "16000" else ""

abbrev defaults : Config
defaults = record {
  pod_name = "unknown-pod";
  namespace = "default";
  service_account = "default";
  inbound_plain_port = pos 15006;
  outbound_port = pos 15002;
  inbound_mtls_port = pos 15001;
  mtls_enabled = true;
  metrics_port = pos 9090;
  monitoring_enabled = true;
  app_target_addr = "127.0.0.1:8080";
  shutdown_timeout = pos 30000000000;
  algorithm = "roundRobin";
  exclude_inbound_ports = "9090";
  exclude_outbound_ips = "169.254.169.254/32";
  attempts = pos 3;
  backoff_type = "exponential";
  base_interval = pos 100000000;
  timeout = pos 5000000000;
  dial_timeout = pos 5000000000;
  copy_mode = "buffered";
  failure_threshold = 5;
  recovery_time = pos 30000000000;
  cert_file = "";
  key_file = "";
  ca_file = "";
  cert_manager_sign_url = "http://mesh-cert-manager.mesh-system.svc.cluster.local:8080/sign";
  service_account_token_path = "/var/run/secrets/kubernetes.io/serviceaccount/token";
  bootstrap_certificates = true;
  kube_config_path = "";
}

abbrev without_mtls : Config
without_mtls = record defaults { inbound_mtls_port = pos 0; mtls_enabled = false }

test_loaded : load_from_env readers unset ≡ inr defaults
unfolding load_from_env read_config read_env validate checks first_fault ports put_key contains_port
    split_on
test_loaded = refl

test_valid : validate readers defaults ≡ none
unfolding validate checks first_fault ports put_key contains_port split_on
test_valid = refl

test_valid_without : validate readers without_mtls ≡ none
unfolding validate checks first_fault ports put_key contains_port split_on
test_valid_without = refl

load_from_env-IsUsable_example : IsUsable readers defaults
load_from_env-IsUsable_example = load_from_env-IsUsable readers unset defaults test_loaded

pos_injective : (a b : ℕ) → pos a ≡ pos b → a ≡ b
pos_injective a b e = ground arith

shared_port_accepted_example :
    validate readers (record defaults { outbound_port = pos 15001 }) ≡ none
shared_port_accepted_example =
    shared_port_accepted readers defaults test_valid refl
      (λ e. absurd (omega (arith, pos_injective _ _ e)))
      (λ e. absurd (omega (arith, pos_injective _ _ e)))
      (λ e. absurd (omega (arith, pos_injective _ _ e)))
