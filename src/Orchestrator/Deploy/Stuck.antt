-- ===== src/Orchestrator/Deploy/Stuck.antt =====
-- Services that a request has removed, and services that no request can remove any more.
use service_mesh.Base.{
  ℕ, ◌+◌, ◌<◌, ◌==◌, String, Bool, true, false, Option, none, some, List, [], ◌∷◌, ◌≡◌, refl, sym,
  ap, ◌∙◌, inl, inr, arith, if◌then◌else◌, str_eq, eq_refl, Bool-cases, Option-cases,
}
use service_mesh.Base.Table.{find, delete, find-delete}
use service_mesh.Orchestrator.{
  ContainerInfo, HealthMonitor, HealthState, probe_timeout, check_states,
}
use service_mesh.Orchestrator.Lost.{lost_container_panics}
use service_mesh.Orchestrator.Deploy.{Outside, CDocker, Outcome, answered, panicked}
use service_mesh.Orchestrator.Deploy.Requests.{
  set_status, remove_instances, drop_service, remove_container,
}
use service_mesh.Orchestrator.Deploy.Removal.{
  is_one_of, after_round, find-after_round, first_stays_gone, removed_all, services_kept,
}

abbrev code_of : Outcome → ℕ
code_of (answered code message) = code
code_of panicked = 0

abbrev is_ok : Option Outcome → Bool
is_ok none = false
is_ok (some (answered code message)) = code == 200
is_ok (some panicked) = false

module _ {D : Type 0} (outside : Outside D) where
  failed_loop :
      (name message : String) (r : Option Outcome × CDocker × D) (c1 : CDocker) (d1 : D)
      → drop_service outside name r ≡ (answered 500 message, c1, d1)
      → r.1 ≡ c1
  unfolding drop_service
  failed_loop name message (none, c, d) c1 d1 h =
      let wrong : ◌≡◌ {A = ℕ} 200 500 = ap (λ (a : Outcome × CDocker × D). code_of a.0) h in
      absurd (omega arith)
  failed_loop name message (some outcome, c, d) c1 d1 h = ap (λ (a : Outcome × CDocker × D). a.1) h

  -- Behind a first container that Docker has removed, the loop goes on without it.
  first_gone :
      (first : String) (others : List String) (info : ContainerInfo) (c : CDocker) (d : D)
      → find first c.containers ≡ some info
      → (outside.remove_container info.container_id d).0 ≡ true
      → (outside.remove_container info.sidecar_id
          (outside.remove_container info.container_id d).1).0
        ≡ true
      → find first (remove_instances outside (first ∷ others) c d).1.containers ≡ none
  unfolding remove_instances set_status
  first_gone first others info c d there app side =
      let d2 =
        (outside.remove_container info.sidecar_id
          (outside.remove_container info.container_id d).1).1 in
      let c2 : CDocker = after_round outside first info c in
      let rest = remove_instances outside others c2 d2 in
      let absent : find first c2.containers ≡ none =
        find-after_round outside first first info c ∙ rw (eq_refl first) refl in
      rw (there, remove_instances, app, side)
        (first_stays_gone outside others c2 rest.1 d2 rest.2 first rest.0 absent refl)

  -- If a removal in which Docker removes both parts of the first container is answered 500, the
  -- service stays in the maps and that container does not: a removal of the service that comes next
  -- reads a nil pointer, whatever Docker would do then, and leaves the maps as they are.
  pub half_removed_stuck :
      (name first message : String) (others : List String) (info : ContainerInfo) (c c1 : CDocker)
      (d d1 later : D)
      → find name c.services ≡ some (first ∷ others)
      → find first c.containers ≡ some info
      → (outside.remove_container info.container_id d).0 ≡ true
      → (outside.remove_container info.sidecar_id
          (outside.remove_container info.container_id d).1).0
        ≡ true
      → remove_container outside (some name) c d ≡ (answered 500 message, c1, d1)
      → (find name c1.services ≡ some (first ∷ others))
        × (find first c1.containers ≡ none)
        × (remove_container outside (some name) c1 later ≡ (panicked, c1, later))
  unfolding remove_container drop_service remove_instances
  half_removed_stuck name first message others info c c1 d d1 later known there app side failed =
      elim (Bool-cases (str_eq name "")) [
        | inl empty ↦ absurd (ground arith)
        | inr filled ↦
            let loop = remove_instances outside (first ∷ others) c d in
            let dropped : drop_service outside name loop ≡ (answered 500 message, c1, d1) =
              rw (sym failed, remove_container, filled, known) refl in
            let same : loop.1 ≡ c1 = failed_loop name message loop c1 d1 dropped in
            let still : find name c1.services ≡ some (first ∷ others) =
              ap (λ (m : CDocker). find name m.services) (sym same)
              ∙ (ap (find name) (services_kept outside (first ∷ others) c d) ∙ known) in
            let gone : find first c1.containers ≡ none =
              ap (λ (m : CDocker). find first m.containers) (sym same)
              ∙ first_gone first others info c d there app side in
            (still, gone, rw (filled, still, remove_instances, gone, drop_service) refl)
      ]

  -- The loop fails only with an error or a panic.
  not_ok :
      (instances : List String) (c : CDocker) (d : D)
      → is_ok (remove_instances outside instances c d).0 ≡ false
  unfolding remove_instances set_status
  not_ok [] c d = refl
  not_ok (instance ∷ instances) c d = elim (Option-cases (find instance c.containers)) [
    | inl missing ↦ rw (missing, remove_instances) refl
    | inr (info, there) ↦
        let app = outside.remove_container info.container_id d in
        let side = outside.remove_container info.sidecar_id app.1 in
        elim (Bool-cases app.0) [
          | inr failed ↦ rw (there, remove_instances, failed) refl
          | inl done ↦ elim (Bool-cases side.0) [
            | inr failed ↦ rw (there, remove_instances, done, failed) refl
            | inl both ↦
                rw (there, remove_instances, done, both)
                  (not_ok instances (after_round outside instance info c) side.1)
          ]
        ]
  ]

  -- The answer that a service is removed comes from a loop that ended.
  ended_loop :
      (name message : String) (r : Option Outcome × CDocker × D) (c1 : CDocker) (d1 : D)
      → is_ok r.0 ≡ false
      → drop_service outside name r ≡ (answered 200 message, c1, d1)
      → (r ≡ (none, r.1, r.2)) × (c1 ≡ record r.1 { services = delete name r.1.services })
  unfolding drop_service
  ended_loop name message (none, c, d) c1 d1 bad h =
      (refl, sym (ap (λ (a : Outcome × CDocker × D). a.1) h))
  ended_loop name message (some outcome, c, d) c1 d1 bad h =
      let same : is_ok (some outcome) ≡ true =
        ap (λ (a : Outcome × CDocker × D). is_ok (some a.0)) h in
      absurd (ground arith)

  -- A removal that is answered 200 has taken the service and its containers out of the maps, and
  -- every other service and container is known as before.
  pub removed_service :
      (name message : String) (instances : List String) (c c1 : CDocker) (d d1 : D) (j : String)
      → find name c.services ≡ some instances
      → remove_container outside (some name) c d ≡ (answered 200 message, c1, d1)
      → (find j c1.containers ≡ (if is_one_of j instances then none else find j c.containers))
        × (find j c1.services ≡ (if str_eq name j then none else find j c.services))
  unfolding remove_container
  removed_service name message instances c c1 d d1 j known ok = elim (Bool-cases (str_eq name "")) [
    | inl empty ↦ absurd (ground arith)
    | inr filled ↦
        let loop = remove_instances outside instances c d in
        let dropped : drop_service outside name loop ≡ (answered 200 message, c1, d1) =
          ground arith in
        let (ended, same) = ended_loop name message loop c1 d1 (not_ok instances c d) dropped in
        let (containers, services) = removed_all outside instances c loop.1 d loop.2 j ended in
        (
          ap (λ (m : CDocker). find j m.containers) same ∙ containers,
          ap (λ (m : CDocker). find j m.services) same
              ∙ (find-delete name j loop.1.services
                  ∙ ap (λ t. if str_eq name j then none else find j t) services),
        )
  ]

  -- Once a service is removed, the health monitor that shares the map of containers and has heard of
  -- one of the service's containers panics in its own goroutine when that container's probe times
  -- out, which ends the orchestrator.
  pub removal_ends_orchestrator :
      (name message instance : String) (instances : List String) (c c1 : CDocker) (d d1 : D)
      (s : HealthState) (now : ℕ) (m : HealthMonitor)
      → find name c.services ≡ some instances
      → is_one_of instance instances ≡ true
      → remove_container outside (some name) c d ≡ (answered 200 message, c1, d1)
      → m.containers ≡ c1.containers
      → find instance m.states ≡ some s
      → 0 < s.last_liveness_time
      → s.last_liveness_time + probe_timeout < now
      → check_states now m ≡ none
  removal_ends_orchestrator name message instance instances c c1 d d1 s now m known member ok shared
        there heard late =
      let (gone, _) = removed_service name message instances c c1 d d1 instance known ok in
      lost_container_panics instance s now m there heard late (
        ap (find instance) shared
        ∙ (gone ∙ ap (λ b. if b then none else find instance c.containers) member))
