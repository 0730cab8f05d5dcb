-- ===== src/Hook/Patch/Once.antt =====
-- The hook on a pod that it has patched.
use mathlib.Core.Path.{subst}
use mathlib.Core.List.{append-nil}
use service_mesh.Base.{
  String, true, false, Option, none, some, List, [], ◌∷◌, ◌++◌, ◌≡◌, refl, sym, ◌∙◌, ap, ◌⊎◌, inl,
  inr, arith, str_eq, Bool-cases,
}
use service_mesh.Base.Int.{ℤ}
use service_mesh.Base.Space.{trim_space}
use service_mesh.Base.Table.{Table, find}
use service_mesh.Base.Int.{int_text}
use service_mesh.Hook.{Config, Container, Pod}
use service_mesh.Hook.Patch.{
  AdmissionRequest, PatchOperation, Decision, skipped, mutated, Refusal, is_ignored_namespace,
  opts_out, is_opt_out_pod, has_volume_by_name, has_container_by_name,
}
use service_mesh.Hook.Patch.Apply.{
  PatchServer, run, with_sidecar, has-with_volume, has-with_init, has-with_sidecar,
}
use service_mesh.Hook.Patch.Noted.{noted, noted-found, noted-other, marks}
use service_mesh.Hook.Patch.Build.{
  namespace_of, desired_annotations, init_for, sidecar_for, pod_operations, decide, build_patch,
}
use service_mesh.Hook.Patch.Again.{
  injected, run-pod_operations, nothing_left, account_full, init_name, sidecar_name,
}

-- The operations of a decision.
operations_of : Refusal ⊎ Decision → List PatchOperation
operations_of (inl refusal) = []
operations_of (inr (skipped reason)) = []
operations_of (inr (mutated operations)) = operations

reason_of : Refusal ⊎ Decision → String
reason_of (inr (skipped reason)) = reason
reason_of _ = ""

operations_of-decide :
    (operations : List PatchOperation) → operations_of (inr (decide operations)) ≡ operations
unfolding decide operations_of
operations_of-decide [] = refl
operations_of-decide (o ∷ os) = refl

decided :
    (duration_text : ℤ → String) (cfg : Config) (request : AdmissionRequest) (pod : Pod)
    → is_ignored_namespace cfg (namespace_of request pod) ≡ false
    → is_opt_out_pod pod ≡ false
    → build_patch duration_text cfg (some request) (some pod)
      ≡ inr (decide (pod_operations duration_text cfg pod))
unfolding build_patch
decided duration_text cfg request pod known stays = rw (known, stays) refl

-- A pod that is patched is in no ignored namespace and has not opted out.
passes :
    (duration_text : ℤ → String) (cfg : Config) (request : AdmissionRequest) (pod : Pod)
    (operations : List PatchOperation)
    → build_patch duration_text cfg (some request) (some pod) ≡ inr (mutated operations)
    → (is_ignored_namespace cfg (namespace_of request pod) ≡ false)
      × (is_opt_out_pod pod ≡ false)
      × (pod_operations duration_text cfg pod ≡ operations)
unfolding build_patch operations_of
passes duration_text cfg request pod operations h =
    elim (Bool-cases (is_ignored_namespace cfg (namespace_of request pod))) [
      | inl ignored ↦ absurd (ground arith)
      | inr known ↦ elim (Bool-cases (is_opt_out_pod pod)) [
        | inl out ↦ absurd (ground arith)
        | inr stays ↦
            let same = sym (decided duration_text cfg request pod known stays) ∙ h in
            (
              known,
              stays,
              sym (operations_of-decide (pod_operations duration_text cfg pod))
                  ∙ ap operations_of same,
            )
      ]
    ]

opts_out-noted :
    (existing : Option (Table String)) (cfg : Config)
    → opts_out (find "sidecar.mesh.io/inject" (noted existing (desired_annotations cfg)))
      ≡ elim existing [ none ↦ false | some m ↦ opts_out (find "sidecar.mesh.io/inject" m) ]
unfolding noted desired_annotations opts_out
opts_out-noted none cfg =
    let (_, _, _, absent) =
      marks cfg.monitoring_enabled cfg.mesh_version (int_text cfg.metrics_port) in
    rw absent refl
opts_out-noted (some m) cfg =
    let (_, other, _, _) =
      marks cfg.monitoring_enabled cfg.mesh_version (int_text cfg.metrics_port) in
    rw (noted-other m (desired_annotations cfg) "sidecar.mesh.io/inject" other) refl

still_in :
    (duration_text : ℤ → String) (cfg : Config) (pod : Pod)
    → is_opt_out_pod (injected duration_text cfg pod) ≡ is_opt_out_pod pod
unfolding is_opt_out_pod injected
still_in duration_text cfg pod = opts_out-noted pod.annotations cfg

still_known :
    (duration_text : ℤ → String) (cfg : Config) (request : AdmissionRequest) (pod : Pod)
    → is_ignored_namespace cfg (namespace_of request pod) ≡ false
    → is_ignored_namespace cfg (namespace_of request (injected duration_text cfg pod)) ≡ false
unfolding namespace_of injected
still_known duration_text cfg request pod known = known

-- When the hook patches a pod, the API server can apply all of the patch, and what comes out, seen
-- by the hook once more under the same request, is left alone as already injected; whatever the
-- server is that applies patches as RFC 6902 says.
pub patched_once :
    (server : PatchServer) (duration_text : ℤ → String) (cfg : Config) (request : AdmissionRequest)
    (pod : Pod) (operations : List PatchOperation)
    → build_patch duration_text cfg (some request) (some pod) ≡ inr (mutated operations)
    → (after : Pod) × (run server operations pod ≡ some after)
      × (build_patch duration_text cfg (some request) (some after)
          ≡ inr (skipped "already injected"))
unfolding decide
patched_once server duration_text cfg request pod operations h =
    let (known, stays, same) = passes duration_text cfg request pod operations h in
    let after : Pod = injected duration_text cfg pod in
    (
      after,
      rw (sym same) (run-pod_operations server duration_text cfg pod),
      decided duration_text cfg request after (still_known duration_text cfg request pod known)
            (still_in duration_text cfg pod ∙ stays)
          ∙ ap (λ os. inr (decide os)) (nothing_left duration_text cfg pod),
    )

-- What a pod has that `pod` was made into.
abbrev pub IsInjected : Pod → Pod → Type 0
IsInjected pod after =
    (has_volume_by_name after.volumes "mesh-ca" ≡ true)
    × (has_container_by_name after.init_containers "iptables-init" ≡ true)
    × (has_container_by_name after.containers "sidecar" ≡ true)
    × (str_eq (trim_space after.service_account_name) "" ≡ false)
    × ((added : List Container) × (after.containers ≡ pod.containers ++ added))
    × ((annotations : Table String) × (after.annotations ≡ some annotations)
        × (find "sidecar.mesh.io/injected" annotations ≡ some "true"))

with_sidecar_behind :
    (sidecar : Container) (cs : List Container)
    → (added : List Container) × (with_sidecar sidecar cs ≡ cs ++ added)
unfolding with_sidecar
with_sidecar_behind sidecar cs = elim (Bool-cases (has_container_by_name cs "sidecar")) [
  | inl there ↦ ([], rw there (sym (append-nil cs)))
  | inr missing ↦ (sidecar ∷ [], rw missing refl)
]

injected_mark :
    (existing : Option (Table String)) (cfg : Config)
    → find "sidecar.mesh.io/injected" (noted existing (desired_annotations cfg)) ≡ some "true"
unfolding desired_annotations
injected_mark existing cfg =
    let (member, _, says, _) =
      marks cfg.monitoring_enabled cfg.mesh_version (int_text cfg.metrics_port) in
    noted-found existing (desired_annotations cfg) "sidecar.mesh.io/injected" member ∙ ap some says

injected-IsInjected :
    (duration_text : ℤ → String) (cfg : Config) (pod : Pod)
    → IsInjected pod (injected duration_text cfg pod)
unfolding injected
injected-IsInjected duration_text cfg pod = (
  has-with_volume pod.volumes,
  has-with_init (init_for cfg pod) pod.init_containers (init_name cfg pod),
  has-with_sidecar (sidecar_for duration_text cfg pod) pod.containers
      (sidecar_name duration_text cfg pod),
  account_full pod,
  with_sidecar_behind (sidecar_for duration_text cfg pod) pod.containers,
  (noted pod.annotations (desired_annotations cfg), refl, injected_mark pod.annotations cfg),
)

-- A pod that comes out of the hook's patch has the volume of the mesh's certificate, the initial
-- container and the sidecar, its spec names an account that is not blank, its own containers are
-- the first ones still, in their order, and its annotations say that it is injected.
pub patched-IsInjected :
    (server : PatchServer) (duration_text : ℤ → String) (cfg : Config) (request : AdmissionRequest)
    (pod after : Pod) (operations : List PatchOperation)
    → build_patch duration_text cfg (some request) (some pod) ≡ inr (mutated operations)
    → run server operations pod ≡ some after
    → IsInjected pod after
patched-IsInjected server duration_text cfg request pod after operations h done =
    let (_, _, same) = passes duration_text cfg request pod operations h in
    let made : run server operations pod ≡ some (injected duration_text cfg pod) =
      rw (sym same) (run-pod_operations server duration_text cfg pod) in
    let one : injected duration_text cfg pod ≡ after = ground arith in
    subst (IsInjected pod) one (injected-IsInjected duration_text cfg pod)
