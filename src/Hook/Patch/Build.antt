-- ===== src/Hook/Patch/Build.antt =====
-- The parts of BuildPatch of k8s/mesh/hook/internal/app/injector/service.go, and BuildPatch.
use service_mesh.Base.{
  String, Bool, true, false, Option, none, some, List, [], ◌∷◌, ◌++◌, ◌⊎◌, inl, inr, if◌then◌else◌,
  str_eq,
}
use service_mesh.Base.Int.{ℤ}
use service_mesh.Base.Space.{trim_space}
use service_mesh.Base.Table.{Table, put}
use service_mesh.Base.Int.{int_text}
use service_mesh.Hook.{Config, Container, Volume, Pod}
use service_mesh.Hook.Ports.{collect_inbound_ports, derive_app_target_addr}
use service_mesh.Hook.Patch.{
  AdmissionRequest, text, one_volume, many_volumes, one_container, many_containers, PatchOperation,
  Decision, skipped, mutated, Refusal, request_is_nil, pod_is_nil, add, is_ignored_namespace,
  is_opt_out_pod, derive_service_account_name, build_annotations_patch_ops, has_container_by_name,
  has_volume_by_name,
}
use service_mesh.Hook.Patch.Containers.{build_iptables_container, build_sidecar_container}

unfoldable pub namespace_of : AdmissionRequest → Pod → String
namespace_of request pod =
    let namespace = trim_space request.namespace in
    if str_eq namespace "" then trim_space pod.namespace else namespace

unfoldable pub account_of : Pod → String
account_of pod =
    let name = trim_space pod.service_account_name in
    if str_eq name "" then derive_service_account_name pod else name

unfoldable pub account_operations : Pod → List PatchOperation
unfolding account_of
account_operations pod =
    if str_eq (trim_space pod.service_account_name) ""
    then add "/spec/serviceAccountName" (text (account_of pod)) ∷ []
    else []

base_annotations : String → Table String
unfolding put
base_annotations version =
    put "sidecar.mesh.io/version" version (put "sidecar.mesh.io/injected" "true" [])

-- The map `annotations`, with monitoring and without.
unfoldable pub annotations_of : Bool → String → String → Table String
unfolding base_annotations
annotations_of false version metrics_port = base_annotations version
annotations_of true version metrics_port = put "prometheus.io/path" "/metrics" (
    put "prometheus.io/port" metrics_port
      (put "prometheus.io/scrape" "true" (base_annotations version)))

unfoldable pub desired_annotations : Config → Table String
unfolding int_text annotations_of
desired_annotations cfg =
    annotations_of cfg.monitoring_enabled cfg.mesh_version (int_text cfg.metrics_port)

abbrev pub mesh_ca_volume : Volume
mesh_ca_volume = record {
  name = "mesh-ca";
  secret = some ("mesh-root-ca", ("tls.crt", "ca.crt") ∷ []);
}

unfoldable pub volume_operations : List Volume → List PatchOperation
volume_operations volumes = if has_volume_by_name volumes "mesh-ca" then [] else elim volumes [
  | [] ↦ add "/spec/volumes" (many_volumes (mesh_ca_volume ∷ [])) ∷ []
  | _ ∷ _ ↦ add "/spec/volumes/-" (one_volume mesh_ca_volume) ∷ []
]

unfoldable pub init_operations : Container → List Container → List PatchOperation
init_operations init containers =
    if has_container_by_name containers "iptables-init" then [] else elim containers [
      | [] ↦ add "/spec/initContainers" (many_containers (init ∷ [])) ∷ []
      | _ ∷ _ ↦ add "/spec/initContainers/0" (one_container init) ∷ []
    ]

unfoldable pub sidecar_operations : Container → List Container → List PatchOperation
sidecar_operations sidecar containers =
    if has_container_by_name containers "sidecar" then [] else elim containers [
      | [] ↦ add "/spec/containers" (many_containers (sidecar ∷ [])) ∷ []
      | _ ∷ _ ↦ add "/spec/containers/-" (one_container sidecar) ∷ []
    ]

-- The two containers that are made for a pod.
unfoldable pub init_for : Config → Pod → Container
init_for cfg pod =
    build_iptables_container cfg (collect_inbound_ports pod.containers) (int_text cfg.sidecar_uid)

unfoldable pub sidecar_for : (ℤ → String) → Config → Pod → Container
sidecar_for duration_text cfg pod =
    build_sidecar_container duration_text cfg (account_of pod) cfg.sidecar_uid
      (derive_app_target_addr (collect_inbound_ports pod.containers))

unfoldable pub pod_operations : (ℤ → String) → Config → Pod → List PatchOperation
unfolding account_operations volume_operations init_operations sidecar_operations
pod_operations duration_text cfg pod =
    account_operations pod
    ++ (build_annotations_patch_ops pod.annotations (desired_annotations cfg)
        ++ (volume_operations pod.volumes
            ++ (init_operations (init_for cfg pod) pod.init_containers
                ++ sidecar_operations (sidecar_for duration_text cfg pod) pod.containers)))

unfoldable pub decide : List PatchOperation → Decision
decide [] = skipped "already injected"
decide (operation ∷ operations) = mutated (operation ∷ operations)

unfoldable pub build_patch :
    (ℤ → String) → Config → Option AdmissionRequest → Option Pod → Refusal ⊎ Decision
unfolding namespace_of decide
build_patch duration_text cfg none pod = inl request_is_nil
build_patch duration_text cfg (some request) none = inl pod_is_nil
build_patch duration_text cfg (some request) (some pod) =
    if is_ignored_namespace cfg (namespace_of request pod)
    then inr (skipped "ignored namespace")
    else if is_opt_out_pod pod
    then inr (skipped "opt-out annotation")
    else inr (decide (pod_operations duration_text cfg pod))
