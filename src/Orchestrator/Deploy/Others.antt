-- ===== src/Orchestrator/Deploy/Others.antt =====
-- The start of the orchestrator and its other handlers,
-- docker/cdocker/internal/app/http/cdocker/cdocker.go.
use service_mesh.Base.{
  ℕ, String, Bool, true, false, Option, none, some, List, [], ◌∷◌, if◌then◌else◌, str_eq, ◌<>◌,
}
use service_mesh.Orchestrator.{ProbeReport, HealthMonitor, handle_probe_report}
use service_mesh.Orchestrator.Deploy.{
  Outside, DeployServiceRequest, CDocker, Outcome, answered, panicked, mesh_network, labels_for,
}
use service_mesh.Orchestrator.Deploy.Env.{Entries, Probe}
use service_mesh.Orchestrator.Deploy.Requests.{deploy_service_internal}
use service_mesh.Base.Int.{ℤ}

pub record DeployMonitoringRequest : Type 0 where
  pub prometheus_config : String
  pub grafana_user : String
  pub grafana_password : String

-- The answer, with the identifiers that it tells.
abbrev pub Told : Type 0
Told = ℕ × String × List String

module _ {D : Type 0} (outside : Outside D) where
  or_admin : String → String
  or_admin s = if str_eq s "" then "admin" else s

  -- Grafana, once Prometheus is there.
  deploy_grafana : DeployMonitoringRequest → String → D → Told × D
  unfolding or_admin
  deploy_grafana req prometheus_id d =
      let (id, d1) =
        outside.create_and_start_container
          (record {
            name = "grafana";
            image = "grafana/grafana:latest";
            env =
                ("GF_SECURITY_ADMIN_USER=" <> or_admin req.grafana_user)
                ∷ ("GF_SECURITY_ADMIN_PASSWORD=" <> or_admin req.grafana_password)
                ∷ [];
            network = mesh_network;
            labels = labels_for "grafana";
            port_mapping = (3000, 3000) ∷ [];
            volumes = ("grafana-storage", "/var/lib/grafana") ∷ [];
          })
          d in
      elim id [
        | none ↦ ((500, "failed to create grafana", []), d1)
        | some grafana_id ↦ ((201, "running", prometheus_id ∷ grafana_id ∷ []), d1)
      ]

  deploy_prometheus : DeployMonitoringRequest → D → Told × D
  unfolding deploy_grafana
  deploy_prometheus req d =
      let (id, d1) =
        outside.create_and_start_container
          (record {
            name = "prometheus";
            image = "prom/prometheus:latest";
            env = [];
            network = mesh_network;
            labels = labels_for "prometheus";
            port_mapping = (9090, 9090) ∷ [];
            volumes =
                if str_eq req.prometheus_config ""
                then []
                else (req.prometheus_config, "/etc/prometheus/prometheus.yml") ∷ [];
          })
          d in
      elim id [
        | none ↦ ((500, "failed to create prometheus", []), d1)
        | some prometheus_id ↦ deploy_grafana req prometheus_id d1
      ]

  -- deployMonitoring; the errors of the two pulls are only logged.
  unfoldable pub deploy_monitoring : Option DeployMonitoringRequest → D → Told × D
  unfolding deploy_prometheus
  deploy_monitoring none d = ((400, "invalid request body", []), d)
  deploy_monitoring (some req) d =
      let (network, d1) = outside.create_network mesh_network d in
      elim network [
        | none ↦ ((500, "failed to create network", []), d1)
        | some id ↦
            let d2 = (outside.pull_image "prom/prometheus:latest" d1).1 in
            deploy_prometheus req (outside.pull_image "grafana/grafana:latest" d2).1
      ]

  unfoldable pub create_network : Option String → D → Told × D
  create_network none d = ((400, "invalid request body", []), d)
  create_network (some requested) d =
      let name = if str_eq requested "" then mesh_network else requested in
      let (network, d1) = outside.create_network name d in
      elim network [
        | none ↦ ((500, "failed to create network", []), d1)
        | some id ↦ ((201, "created", id ∷ name ∷ []), d1)
      ]

  create_control_plane : List String → D → Bool × D
  create_control_plane plane_envs d =
      let (id, d1) =
        outside.create_and_start_container
          (record {
            name = "control-plane";
            image = "lliepjiok/control-plane:latest";
            env = plane_envs;
            network = mesh_network;
            labels = labels_for "control-plane";
            port_mapping = (8080, 8080) ∷ [];
            volumes = [];
          })
          d in
      elim id [ none ↦ (false, d1) | some plane_id ↦ (true, d1) ]

  -- start: whether it succeeds. An error of the pull is only logged.
  unfoldable pub start : List String → D → Bool × D
  unfolding create_control_plane
  start plane_envs d =
      let (exists, d1) = outside.container_exists "control-plane" d in
      elim exists [
        | none ↦ (false, d1)
        | some true ↦ (false, d1)
        | some false ↦
            create_control_plane plane_envs
              (outside.pull_image "lliepjiok/control-plane:latest" d1).1
      ]

  -- Stop, once the health monitor is stopped.
  unfoldable pub stop : D → Bool × D
  stop d = outside.remove_container "control-plane" d

pub record Spec : Type 0 where
  pub image : String
  pub replicas : ℤ
  pub sidecar : Entries
  pub liveness_probe : Option Probe
  pub readiness_probe : Option Probe

pub record Manifest : Type 0 where
  pub name : String  -- of the metadata
  pub spec : Spec

abbrev pub request_of : Manifest → DeployServiceRequest
request_of manifest = record {
  name = manifest.name;
  image = manifest.spec.image;
  replicas = manifest.spec.replicas;
  sidecar = manifest.spec.sidecar;
  liveness_probe = manifest.spec.liveness_probe;
  readiness_probe = manifest.spec.readiness_probe;
}

-- applyManifest, where `none` is a body that cannot be read and `some none` one that is no YAML; the
-- manifest is what the YAML reader makes of the body over the default one.
unfoldable pub apply_manifest :
    {D : Type 0} → Outside D → Option (Option Manifest) → CDocker → D → Outcome × CDocker × D
apply_manifest outside none c d = (answered 400 "failed to read request body", c, d)
apply_manifest outside (some none) c d = (answered 400 "invalid YAML manifest", c, d)
apply_manifest outside (some (some manifest)) c d =
    deploy_service_internal outside (request_of manifest) c d

-- handleProbeReport of CDocker: the answer, and the monitor after the report.
unfoldable pub take_probe_report : Option ProbeReport → ℕ → HealthMonitor → Outcome × HealthMonitor
take_probe_report none now m = (answered 400 "invalid request body", m)
take_probe_report (some report) now m =
    let (panics, m1) = handle_probe_report report now m in
    (if panics then panicked else answered 202 "", m1)
