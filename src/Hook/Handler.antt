-- ===== src/Hook/Handler.antt =====
-- k8s/mesh/hook/internal/transport/http/handler.go: the admission requests of the API server. What
-- reading and decoding give is an input; the headers and the log lines are left out.
use service_mesh.Base.{
  ℕ, String, Bool, true, false, Option, none, some, List, ◌≡◌, refl, ◌⊎◌, inl, inr, not, ◌||◌,
  arith, if◌then◌else◌, str_eq, Bool-cases,
}
use service_mesh.Base.Int.{ℤ}
use service_mesh.Hook.{Config, Pod}
use service_mesh.Hook.Patch.{
  is_ignored_namespace, is_opt_out_pod, AdmissionRequest, PatchOperation, Decision, skipped,
  mutated, Refusal,
}
use service_mesh.Hook.Patch.Build.{build_patch, namespace_of, decide, pod_operations}

-- A request of a review, with what the JSON decoder makes of its object as a pod.
pub record ReviewRequest : Type 0 where
  pub uid : String
  pub kind : String
  pub request : AdmissionRequest
  pub object : Option Pod

-- A body that cannot be read (one that is larger than MaxBytesReader allows cannot), one that is no
-- review, and a review with a request or without one.
pub data Body : Type 0 where
  unreadable undecodable : Body
  review : Option ReviewRequest → Body

pub record AdmissionResponse : Type 0 where
  pub uid : String
  pub allowed : Bool
  pub result : Option (ℕ × String)
  pub patch : Option (List PatchOperation)

-- http.Error with a status, or a review that is written with status 200.
pub data HttpAnswer : Type 0 where
  http_error : ℕ → HttpAnswer
  reviewed : AdmissionResponse → HttpAnswer

abbrev pub allow : String → AdmissionResponse
allow uid = record { uid = uid; allowed = true; result = none; patch = none }

-- writeAdmissionResponse writes the request's uid into the response.
write_admission_response : String → AdmissionResponse → HttpAnswer
write_admission_response uid response = reviewed (record response { uid = uid })

-- The rest of handleMutate once BuildPatch has returned.
answer_patch : String → Refusal ⊎ Decision → HttpAnswer
unfolding write_admission_response
answer_patch uid (inl refusal) = write_admission_response uid (record (allow uid) {
  allowed = false;
  result = some (500, "failed to build pod mutation patch");
})
answer_patch uid (inr (skipped reason)) = write_admission_response uid (allow uid)
answer_patch uid (inr (mutated operations)) =
    write_admission_response uid (record (allow uid) { patch = some operations })

-- The rest of handleMutate from the decoding of the pod on.
answer_object : (ℤ → String) → Config → ReviewRequest → Option Pod → HttpAnswer
unfolding write_admission_response answer_patch
answer_object duration_text cfg r none =
    write_admission_response r.uid
      (record (allow r.uid) { allowed = false; result = some (400, "failed to decode pod object") })
answer_object duration_text cfg r (some pod) =
    answer_patch r.uid (build_patch duration_text cfg (some r.request) (some pod))

unfoldable pub handle_mutate : (ℤ → String) → Config → Body → HttpAnswer
unfolding answer_object write_admission_response
handle_mutate duration_text cfg unreadable = http_error 400
handle_mutate duration_text cfg undecodable = http_error 400
handle_mutate duration_text cfg (review none) = http_error 400
handle_mutate duration_text cfg (review (some r)) =
    if not (str_eq r.kind "Pod")
    then write_admission_response r.uid (allow r.uid)
    else answer_object duration_text cfg r r.object

-- The patch of a decision.
abbrev pub patch_of : Refusal ⊎ Decision → Option (List PatchOperation)
patch_of (inl refusal) = none
patch_of (inr (skipped reason)) = none
patch_of (inr (mutated operations)) = some operations

abbrev pub is_decoded : Option Pod → Bool
is_decoded none = false
is_decoded (some pod) = true

-- The patch that the answer to a pod's review has to carry.
abbrev pub patch_for :
    (ℤ → String) → Config → ReviewRequest → Option Pod → Option (List PatchOperation)
patch_for duration_text cfg r none = none
patch_for duration_text cfg r (some pod) =
    patch_of (build_patch duration_text cfg (some r.request) (some pod))

build_patch_works :
    (duration_text : ℤ → String) (cfg : Config) (request : AdmissionRequest) (pod : Pod)
    → (decision : Decision) × (build_patch duration_text cfg (some request) (some pod)
        ≡ inr decision)
unfolding build_patch
build_patch_works duration_text cfg request pod =
    elim (Bool-cases (is_ignored_namespace cfg (namespace_of request pod))) [
      | inl ignored ↦ (skipped "ignored namespace", rw ignored refl)
      | inr known ↦ elim (Bool-cases (is_opt_out_pod pod)) [
        | inl out ↦ (skipped "opt-out annotation", rw (known, out) refl)
        | inr stays ↦ (decide (pod_operations duration_text cfg pod), rw (known, stays) refl)
      ]
    ]

answered :
    (uid : String) (outcome : Refusal ⊎ Decision) (decision : Decision)
    → outcome ≡ inr decision
    → answer_patch uid outcome ≡ reviewed (record (allow uid) { patch = patch_of outcome })
unfolding answer_patch write_admission_response
answered uid (inl refusal) decision e = absurd (ground arith)
answered uid (inr (skipped reason)) decision e = refl
answered uid (inr (mutated operations)) decision e = refl

object_answered :
    (duration_text : ℤ → String) (cfg : Config) (r : ReviewRequest) (object : Option Pod)
    → (response : AdmissionResponse) × (answer_object duration_text cfg r object
        ≡ reviewed response)
      × (response.uid ≡ r.uid)
      × (response.allowed ≡ is_decoded object)
      × (response.patch ≡ patch_for duration_text cfg r object)
unfolding answer_object write_admission_response
object_answered duration_text cfg r none = (_, refl, refl, refl, refl)
object_answered duration_text cfg r (some pod) =
    let (decision, works) = build_patch_works duration_text cfg r.request pod in
    let outcome : Refusal ⊎ Decision = build_patch duration_text cfg (some r.request) (some pod) in
    (
      record (allow r.uid) { patch = patch_of outcome },
      answered r.uid outcome decision works,
      refl,
      refl,
      refl,
    )

-- A review with a request is always answered with a review that has the request's uid. What is not
-- a pod is allowed without a patch; a pod that can be decoded is allowed, with the patch that
-- BuildPatch makes and without one if BuildPatch skips the pod, so the error of BuildPatch is never
-- answered; only a pod that cannot be decoded is denied.
pub review_answered :
    (duration_text : ℤ → String) (cfg : Config) (r : ReviewRequest)
    → (response : AdmissionResponse) × (handle_mutate duration_text cfg (review (some r))
        ≡ reviewed response)
      × (response.uid ≡ r.uid)
      × (response.allowed ≡ (not (str_eq r.kind "Pod") || is_decoded r.object))
      × (response.patch
          ≡ (if str_eq r.kind "Pod" then patch_for duration_text cfg r r.object else none))
unfolding handle_mutate write_admission_response
review_answered duration_text cfg r = elim (Bool-cases (str_eq r.kind "Pod")) [
  | inl is_pod ↦
      let (response, one, two, three, four) = object_answered duration_text cfg r r.object in
      (response, rw (is_pod, handle_mutate) one, two, rw is_pod three, rw is_pod four)
  | inr other ↦ (allow r.uid, rw (other, handle_mutate) refl, refl, rw other refl, rw other refl)
]
