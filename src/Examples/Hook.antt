-- ===== src/Examples/Hook.antt =====
-- The webhook on a pod, with a server that applies patches.
use Prim.Native.Char.{code}
use package.text.Mathlib.TextLemmas.{nil-append, cons-append}
use service_mesh.Base.{
  ℕ, ◌≤◌, String, true, Option, none, some, List, [], ◌∷◌, ◌++◌, ◌≡◌, refl, inr, ◌<>◌, arith, ap,
  ◌==◌, if◌then◌else◌, str_eq,
}
use service_mesh.Base.Int.{ℤ, pos}
use service_mesh.Base.Text.{itoa}
use service_mesh.Base.Space.{trim_space}
use service_mesh.Base.Table.{Table, find, put}
use service_mesh.Hook.{Config, Container, ContainerPort, Pod, Volume}
use service_mesh.Hook.Pointer.{read_token, escape_json_pointer, read_token-escape_json_pointer}
use service_mesh.Hook.Ports.{inbound_ports, collect_inbound_ports, derive_app_target_addr}
use service_mesh.Hook.Ports.Exposed.{exposes, inbound_ports_exposed}
use service_mesh.Hook.Ports.Lowest.{app_target_lowest}
use service_mesh.Base.Sort.{has, increasing}
use service_mesh.Hook.Patch.{
  PatchOperation, PatchValue, text, texts, one_volume, many_volumes, one_container, many_containers,
  is_ignored_namespace, is_opt_out_pod, is_member, AdmissionRequest, skipped, mutated,
}
use service_mesh.Hook.Patch.Apply.{PatchServer, run}
use service_mesh.Hook.Patch.Build.{
  build_patch, decide, pod_operations, namespace_of, account_operations,
}
use service_mesh.Hook.Handler.{
  ReviewRequest, AdmissionResponse, reviewed, handle_mutate, review_answered,
}
use service_mesh.Hook.Patch.Again.{injected, run-pod_operations}
use service_mesh.Hook.Patch.Once.{patched_once, patched-IsInjected, IsInjected}

-- What is behind a prefix.
strip : String → String → Option String
strip String.[] s = some s
strip (String.◌∷◌ c p) String.[] = none
strip (String.◌∷◌ c p) (String.◌∷◌ d s) =
    let rest = strip p s in if code c == code d then rest else none

strip-append : (p t : String) → strip p (p <> t) ≡ some t
unfolding strip
strip-append String.[] t = rw (nil-append t) refl
strip-append (String.◌∷◌ c p) t = rw (cons-append c p t) (ground (arith, strip-append p t))

note_in : Option (Table String) → String → String → Pod → Option Pod
note_in none token v p = none
note_in (some m) token v p = some (record p { annotations = some (put (read_token token) v m) })

-- An element can only be put behind or before those of a list that is there.
grow_volumes : Volume → List Volume → Pod → Option Pod
grow_volumes v [] p = none
grow_volumes v (u ∷ us) p = some (record p { volumes = (u ∷ us) ++ v ∷ [] })

grow_containers : Container → List Container → Pod → Option Pod
grow_containers c [] p = none
grow_containers c (u ∷ us) p = some (record p { containers = (u ∷ us) ++ c ∷ [] })

grow_init : Container → List Container → Pod → Option Pod
grow_init c [] p = none
grow_init c (u ∷ us) p = some (record p { init_containers = c ∷ u ∷ us })

-- The value at a path that is no annotation's.
set_at : String → PatchValue → Pod → Option Pod
unfolding grow_volumes grow_containers grow_init
set_at path (text v) p = some (record p { service_account_name = v })
set_at path (texts m) p = some (record p { annotations = some m })
set_at path (one_volume v) p = grow_volumes v p.volumes p
set_at path (many_volumes vs) p = some (record p { volumes = vs })
set_at path (one_container c) p =
    if str_eq path "/spec/initContainers/0"
    then grow_init c p.init_containers p
    else grow_containers c p.containers p
set_at path (many_containers cs) p =
    if str_eq path "/spec/initContainers"
    then some (record p { init_containers = cs })
    else some (record p { containers = cs })

-- An annotation's value is a text.
set_key : Option String → String → PatchValue → Pod → Option Pod
unfolding note_in set_at
set_key (some token) path (text v) p = note_in p.annotations token v p
set_key (some token) path _ p = none
set_key none path v p = set_at path v p

apply : PatchOperation → Pod → Option Pod
unfolding strip set_key
apply o p = set_key (strip "/metadata/annotations/" o.path) o.path o.value p

-- Adding and replacing are the same write here.
apply_key :
    (op token v : String) (m : Table String) (p : Pod)
    → p.annotations ≡ some m
    → apply (record { op = op; path = "/metadata/annotations/" <> token; value = text v }) p
      ≡ some (record p { annotations = some (put (read_token token) v m) })
unfolding apply set_key note_in
apply_key op token v m p e =
    rw (strip-append "/metadata/annotations/" token, set_key) (ap (λ a. note_in a token v p) e)

server : PatchServer
unfolding apply strip set_key set_at grow_volumes grow_containers grow_init
server = record {
  apply = apply;
  sets_account = λ v p. refl;
  sets_annotations = λ m p. refl;
  adds_annotation = λ token v m p e h. apply_key "add" token v m p e;
  replaces_annotation = λ token v w m p e h there. apply_key "replace" token v m p e;
  sets_volumes = λ vs p. refl;
  appends_volume = λ v u us p e. ap (λ vs. grow_volumes v vs p) e;
  sets_init_containers = λ cs p. refl;
  prepends_init_container = λ c u us p e. ap (λ cs. grow_init c cs p) e;
  sets_containers = λ cs p. refl;
  appends_container = λ c u us p e. ap (λ cs. grow_containers c cs p) e;
}

abbrev pub hook_config : Config
hook_config = record {
  http_addr = ":8080";
  tls_cert_file = "";
  tls_key_file = "";
  max_request_bytes = pos 1048576;
  read_header_timeout = pos 10000000000;
  idle_timeout = pos 60000000000;
  shutdown_timeout = pos 10000000000;
  ignore_namespaces = "kube-system" ∷ "mesh-system" ∷ [];
  iptables_image = "mesh/iptables-init:latest";
  sidecar_image = "mesh/sidecar:latest";
  mesh_version = "v0.1.0";
  monitoring_enabled = true;
  metrics_port = pos 9090;
  inbound_plain_port = pos 15006;
  outbound_port = pos 15002;
  inbound_mtls_port = pos 15001;
  mtls_enabled = true;
  exclude_inbound = "9090";
  exclude_outbound = "169.254.169.254/32";
  sidecar_uid = pos 1337;
  load_balancer_algorithm = "roundRobin";
  copy_mode = "buffered";
  retry_attempts = pos 3;
  connect_timeout = pos 5000000000;
  circuit_breaker_failure_threshold = pos 5;
  circuit_breaker_recovery_time = pos 30000000000;
}

abbrev plain_container : String → List ContainerPort → Container
plain_container name ports = record {
  name = name;
  image = "demo:v1";
  image_pull_policy = "";
  capabilities = [];
  run_as_non_root = none;
  run_as_user = none;
  limits = [];
  requests = [];
  ports = ports;
  env = [];
  volume_mounts = [];
}

abbrev port : ℕ → ContainerPort
port n = record { name = ""; container_port = pos n; protocol = "TCP" }

abbrev demo_containers : List Container
demo_containers =
    plain_container "app" (port 9000 ∷ port 8080 ∷ []) ∷ plain_container "log" (port 9000 ∷ []) ∷ []

-- It was injected by an older version.
abbrev demo_pod : Pod
demo_pod = record {
  name = "demo";
  namespace = "default";
  annotations = some (("sidecar.mesh.io/version", "v0.0.9") ∷ []);
  labels = ("app", " demo ") ∷ [];
  owner_references = [];
  service_account_name = "";
  volumes = [];
  init_containers = [];
  containers = demo_containers;
}

abbrev pub seconds : ℤ → String
seconds n = "5s"

abbrev review : AdmissionRequest
review = record { namespace = "default" }

abbrev demo_operations : List PatchOperation
demo_operations = pod_operations seconds hook_config demo_pod

demo_mutated :
    build_patch seconds hook_config (some review) (some demo_pod) ≡ inr (mutated demo_operations)
unfolding build_patch decide pod_operations namespace_of account_operations trim_space
    is_ignored_namespace is_member is_opt_out_pod find
demo_mutated = refl

patched_once_example :
    (after : Pod) × (run server demo_operations demo_pod ≡ some after)
    × (build_patch seconds hook_config (some review) (some after)
        ≡ inr (skipped "already injected"))
patched_once_example =
    patched_once server seconds hook_config review demo_pod demo_operations demo_mutated

patched-IsInjected_example : IsInjected demo_pod (injected seconds hook_config demo_pod)
patched-IsInjected_example =
    patched-IsInjected server seconds hook_config review demo_pod
      (injected seconds hook_config demo_pod) demo_operations demo_mutated
      (run-pod_operations server seconds hook_config demo_pod)

inbound_ports_exposed_example :
    (increasing (inbound_ports demo_containers) ≡ true)
    × (has 9000 (inbound_ports demo_containers) ≡ true)
unfolding exposes
inbound_ports_exposed_example = inbound_ports_exposed demo_containers 9000

app_target_lowest_example :
    (lowest : ℕ) × (exposes lowest demo_containers ≡ true)
    × ((n : ℕ) → exposes n demo_containers ≡ true → lowest ≤ n)
    × (derive_app_target_addr (collect_inbound_ports demo_containers) ≡ "127.0.0.1:" <> itoa lowest)
unfolding exposes
app_target_lowest_example = app_target_lowest demo_containers 9000 refl

read_token-escape_json_pointer_example :
    read_token (escape_json_pointer "a/b~1/prometheus.io~") ≡ "a/b~1/prometheus.io~"
read_token-escape_json_pointer_example = read_token-escape_json_pointer "a/b~1/prometheus.io~"

abbrev demo_review : ReviewRequest
demo_review = record { uid = "u-1"; kind = "Pod"; request = review; object = some demo_pod }

review_answered_example :
    (response : AdmissionResponse) × (handle_mutate seconds hook_config
        (service_mesh.Hook.Handler.review (some demo_review))
      ≡ reviewed response)
    × (response.uid ≡ "u-1")
    × (response.allowed ≡ true)
    × (response.patch ≡ some demo_operations)
unfolding build_patch decide pod_operations namespace_of account_operations trim_space
    is_ignored_namespace is_member is_opt_out_pod find
review_answered_example = review_answered seconds hook_config demo_review
