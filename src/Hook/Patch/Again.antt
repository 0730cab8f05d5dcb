-- ===== src/Hook/Patch/Again.antt =====
-- A pod after the hook's patch, and the hook on it once more.
use service_mesh.Base.{
  String, Bool, true, false, some, List, [], ◌∷◌, ◌≡◌, refl, ◌∙◌, inl, inr, not, if◌then◌else◌,
  str_eq, Bool-cases, Option-cases,
}
use service_mesh.Base.Int.{ℤ}
use service_mesh.Base.Space.{trim_space, trim_space_again}
use service_mesh.Hook.{Config, Pod, OwnerReference}
use service_mesh.Hook.Patch.{
  text, add, text_at, derive_service_account_name, owner_account, has_volume_by_name,
  has_container_by_name, build_annotations_patch_ops,
}
use service_mesh.Hook.Patch.Apply.{
  PatchServer, run, run-append, with_volume, with_init, with_sidecar, run-volume_operations,
  run-init_operations, run-sidecar_operations, has-with_volume, has-with_init, has-with_sidecar,
}
use service_mesh.Hook.Patch.Noted.{noted, run-annotations, noted_nothing_left}
use service_mesh.Hook.Patch.Build.{
  account_of, account_operations, desired_annotations, volume_operations, init_operations,
  sidecar_operations, init_for, sidecar_for, pod_operations,
}
use service_mesh.Hook.Patch.Containers.{build_iptables_container, build_sidecar_container}

-- The name of the account in the spec.
unfoldable pub account_field : Pod → String
account_field pod =
    if str_eq (trim_space pod.service_account_name) ""
    then account_of pod
    else pod.service_account_name

-- The pod that the patch is meant to make.
unfoldable pub injected : (ℤ → String) → Config → Pod → Pod
injected duration_text cfg pod = record pod {
  service_account_name = account_field pod;
  annotations = some (noted pod.annotations (desired_annotations cfg));
  volumes = with_volume pod.volumes;
  init_containers = with_init (init_for cfg pod) pod.init_containers;
  containers = with_sidecar (sidecar_for duration_text cfg pod) pod.containers;
}

account_step :
    (server : PatchServer) (pod : Pod) (name : String) (blank : Bool)
    → run server (if blank then add "/spec/serviceAccountName" (text name) ∷ [] else []) pod
      ≡ some
          (record pod { service_account_name = if blank then name else pod.service_account_name })
unfolding run
account_step server pod name true = rw (server.sets_account name pod) refl
account_step server pod name false = refl

run-account_operations :
    (server : PatchServer) (pod : Pod)
    → run server (account_operations pod) pod
      ≡ some (record pod { service_account_name = account_field pod })
unfolding account_operations account_field
run-account_operations server pod =
    account_step server pod (account_of pod) (str_eq (trim_space pod.service_account_name) "")

-- All operations can be applied, and make that pod.
pub run-pod_operations :
    (server : PatchServer) (duration_text : ℤ → String) (cfg : Config) (pod : Pod)
    → run server (pod_operations duration_text cfg pod) pod ≡ some (injected duration_text cfg pod)
unfolding pod_operations injected
run-pod_operations server duration_text cfg pod =
    let p1 : Pod = record pod { service_account_name = account_field pod } in
    let p2 : Pod = record p1 {
      annotations = some (noted pod.annotations (desired_annotations cfg));
    } in
    let p3 : Pod = record p2 { volumes = with_volume pod.volumes } in
    let p4 : Pod = record p3 {
      init_containers = with_init (init_for cfg pod) pod.init_containers;
    } in
    run-append server (account_operations pod) _ pod p1 (run-account_operations server pod)
    ∙ run-append server (build_annotations_patch_ops pod.annotations (desired_annotations cfg)) _ p1
        p2 (run-annotations server cfg pod.annotations p1 refl)
    ∙ run-append server (volume_operations pod.volumes) _ p2 p3
        (run-volume_operations server pod.volumes p2 refl)
    ∙ run-append server (init_operations (init_for cfg pod) pod.init_containers) _ p3 p4
        (run-init_operations server (init_for cfg pod) pod.init_containers p3 refl)
    ∙ run-sidecar_operations server (sidecar_for duration_text cfg pod) pod.containers p4 refl

-- A name that was trimmed and is not empty does not become empty.
trimmed_full :
    (s rest : String) (blank : Bool)
    → str_eq (trim_space s) "" ≡ blank
    → str_eq (trim_space rest) "" ≡ false
    → str_eq (trim_space (if blank then rest else trim_space s)) "" ≡ false
trimmed_full s rest true e h = h
trimmed_full s rest false e h = rw (trim_space_again s) e

trimmed_full_not :
    (s rest : String) (blank : Bool)
    → str_eq (trim_space s) "" ≡ blank
    → str_eq (trim_space rest) "" ≡ false
    → str_eq (trim_space (if not blank then trim_space s else rest)) "" ≡ false
trimmed_full_not s rest true e h = h
trimmed_full_not s rest false e h = rw (trim_space_again s) e

default_full : str_eq (trim_space "default") "" ≡ false
unfolding trim_space
default_full = refl

owner_account_full :
    (owners : List OwnerReference) → str_eq (trim_space (owner_account owners)) "" ≡ false
unfolding owner_account
owner_account_full [] = default_full
owner_account_full (owner ∷ owners) = elim (Option-cases owner.controller) [
  | inl unset ↦ rw (unset, owner_account) (owner_account_full owners)
  | inr (controls, e) ↦ elim (Bool-cases controls) [
    | inl does ↦
        rw (e, owner_account, does)
          (trimmed_full owner.name (owner_account owners) (str_eq (trim_space owner.name) "") refl
            (owner_account_full owners))
    | inr other ↦ rw (e, owner_account, other) (owner_account_full owners)
  ]
]

derive_full : (pod : Pod) → str_eq (trim_space (derive_service_account_name pod)) "" ≡ false
unfolding derive_service_account_name
derive_full pod = trimmed_full_not (text_at "app" pod.labels) _ _ refl (
    trimmed_full_not (text_at "app.kubernetes.io/name" pod.labels) _ _ refl
      (owner_account_full pod.owner_references))

pub account_full : (pod : Pod) → str_eq (trim_space (account_field pod)) "" ≡ false
unfolding account_field account_of
account_full pod = elim (Bool-cases (str_eq (trim_space pod.service_account_name) "")) [
  | inl blank ↦ rw blank (derive_full pod)
  | inr named ↦ rw named named
]

account_done :
    (p : Pod) → str_eq (trim_space p.service_account_name) "" ≡ false → account_operations p ≡ []
unfolding account_operations
account_done p h = rw h refl

volume_done : (vs : List _) → has_volume_by_name vs "mesh-ca" ≡ true → volume_operations vs ≡ []
unfolding volume_operations
volume_done vs h = rw h refl

init_done :
    (init : _) (cs : List _)
    → has_container_by_name cs "iptables-init" ≡ true
    → init_operations init cs ≡ []
unfolding init_operations
init_done init cs h = rw h refl

sidecar_done :
    (sidecar : _) (cs : List _)
    → has_container_by_name cs "sidecar" ≡ true
    → sidecar_operations sidecar cs ≡ []
unfolding sidecar_operations
sidecar_done sidecar cs h = rw h refl

pub init_name : (cfg : Config) (pod : Pod) → str_eq (init_for cfg pod).name "iptables-init" ≡ true
unfolding init_for build_iptables_container
init_name cfg pod = refl

pub sidecar_name :
    (duration_text : ℤ → String) (cfg : Config) (pod : Pod)
    → str_eq (sidecar_for duration_text cfg pod).name "sidecar" ≡ true
unfolding sidecar_for build_sidecar_container
sidecar_name duration_text cfg pod = refl

-- On the pod that the patch makes nothing is left to do.
pub nothing_left :
    (duration_text : ℤ → String) (cfg : Config) (pod : Pod)
    → pod_operations duration_text cfg (injected duration_text cfg pod) ≡ []
unfolding pod_operations injected
nothing_left duration_text cfg pod =
    let after : Pod = injected duration_text cfg pod in
    rw
      (
        account_done after (account_full pod),
        noted_nothing_left pod.annotations (desired_annotations cfg),
        volume_done (with_volume pod.volumes) (has-with_volume pod.volumes),
        init_done (init_for cfg after) (with_init (init_for cfg pod) pod.init_containers)
            (has-with_init (init_for cfg pod) pod.init_containers (init_name cfg pod)),
        sidecar_done (sidecar_for duration_text cfg after)
            (with_sidecar (sidecar_for duration_text cfg pod) pod.containers)
            (has-with_sidecar (sidecar_for duration_text cfg pod) pod.containers
              (sidecar_name duration_text cfg pod)),
      )
      refl
