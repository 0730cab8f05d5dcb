-- ===== src/Hook/Patch/Containers.antt =====
-- buildIptablesContainer and buildSidecarContainer of
-- k8s/mesh/hook/internal/app/injector/service.go.
use service_mesh.Base.{String, Bool, true, false, none, some, List, [], ◌∷◌, ◌&&◌, if◌then◌else◌}
use service_mesh.Base.Int.{ℤ, is_positive}
use service_mesh.Base.Int.{int_text}
use service_mesh.Hook.{Config, Container, ContainerPort, EnvVar, value, field_ref, to_int32}

abbrev pub env : String → String → EnvVar
env name text = record { name = name; source = value text }

-- strconv.FormatBool.
abbrev pub bool_text : Bool → String
bool_text true = "true"
bool_text false = "false"

unfoldable pub build_iptables_container : Config → String → String → Container
unfolding int_text
build_iptables_container cfg inbound_ports uid = record {
  name = "iptables-init";
  image = cfg.iptables_image;
  image_pull_policy = "IfNotPresent";
  capabilities = "NET_ADMIN" ∷ [];
  run_as_non_root = none;
  run_as_user = none;
  limits = [];
  requests = [];
  ports = [];
  env =
      env "INBOUND_PORTS" inbound_ports
      ∷ env "INBOUND_PLAIN_PORT" (int_text cfg.inbound_plain_port)
      ∷ env "OUTBOUND_PORT" (int_text cfg.outbound_port)
      ∷ env "EXCLUDE_INBOUND_PORTS" cfg.exclude_inbound
      ∷ env "EXCLUDE_OUTBOUND_IPS" cfg.exclude_outbound
      ∷ env "UID" uid
      ∷ [];
  volume_mounts = [];
}

mesh_port : String → ℤ → String → ContainerPort
mesh_port name port protocol = record {
  name = name;
  container_port = to_int32 port;
  protocol = protocol;
}

unfoldable pub sidecar_ports : Config → List ContainerPort
unfolding mesh_port
sidecar_ports cfg =
    let ports =
      mesh_port "mesh-outbound" cfg.outbound_port ""
      ∷ mesh_port "mesh-inbound" cfg.inbound_plain_port ""
      ∷ mesh_port "mesh-metrics" cfg.metrics_port "TCP"
      ∷ [] in
    if cfg.mtls_enabled && is_positive cfg.inbound_mtls_port
    then mesh_port "mesh-mtls" cfg.inbound_mtls_port "" ∷ ports
    else ports

-- `duration_text` is time.Duration.String.
unfoldable pub sidecar_env : (ℤ → String) → Config → String → String → List EnvVar
unfolding int_text
sidecar_env duration_text cfg account app_target =
    record { name = "POD_NAME"; source = field_ref "metadata.name" }
    ∷ record { name = "POD_NAMESPACE"; source = field_ref "metadata.namespace" }
    ∷ env "SERVICE_ACCOUNT" account
    ∷ env "APP_TARGET_ADDR" app_target
    ∷ env "INBOUND_PLAIN_PORT" (int_text cfg.inbound_plain_port)
    ∷ env "OUTBOUND_PORT" (int_text cfg.outbound_port)
    ∷ env "INBOUND_MTLS_PORT" (int_text cfg.inbound_mtls_port)
    ∷ env "MTLS_ENABLED" (bool_text cfg.mtls_enabled)
    ∷ env "METRICS_PORT" (int_text cfg.metrics_port)
    ∷ env "BOOTSTRAP_CERTIFICATES" (bool_text cfg.mtls_enabled)
    ∷ env "CERT_FILE" "/etc/mesh/certs/tls.crt"
    ∷ env "KEY_FILE" "/etc/mesh/certs/tls.key"
    ∷ env "CA_FILE" "/etc/mesh/ca/ca.crt"
    ∷ env "LOAD_BALANCER_ALGORITHM" cfg.load_balancer_algorithm
    ∷ env "COPY_MODE" cfg.copy_mode
    ∷ env "RETRY_ATTEMPTS" (int_text cfg.retry_attempts)
    ∷ env "TIMEOUT" (duration_text cfg.connect_timeout)
    ∷ env "CIRCUIT_BREAKER_FAILURE_THRESHOLD" (int_text cfg.circuit_breaker_failure_threshold)
    ∷ env "CIRCUIT_BREAKER_RECOVERY_TIME" (duration_text cfg.circuit_breaker_recovery_time)
    ∷ []

unfoldable pub build_sidecar_container : (ℤ → String) → Config → String → ℤ → String → Container
unfolding sidecar_ports sidecar_env
build_sidecar_container duration_text cfg account uid app_target = record {
  name = "sidecar";
  image = cfg.sidecar_image;
  image_pull_policy = "IfNotPresent";
  capabilities = [];
  run_as_non_root = some true;
  run_as_user = some uid;
  limits = ("cpu", "1000m") ∷ ("memory", "1Gi") ∷ [];
  requests = ("cpu", "100m") ∷ ("memory", "256Mi") ∷ [];
  ports = sidecar_ports cfg;
  env = sidecar_env duration_text cfg account app_target;
  volume_mounts = record { name = "mesh-ca"; mount_path = "/etc/mesh/ca"; read_only = true } ∷ [];
}
