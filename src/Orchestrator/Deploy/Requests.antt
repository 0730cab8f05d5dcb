-- ===== src/Orchestrator/Deploy/Requests.antt =====
-- The handlers of docker/cdocker/internal/app/http/cdocker/cdocker.go that deploy, stop and remove. An
-- undecodable body is `none`; the details of an error are left out of the answer.
use service_mesh.Base.{
  ℕ, String, Bool, true, Option, none, some, List, [], ◌∷◌, ◌||◌, ltb, if◌then◌else◌, str_eq,
}
use service_mesh.Base.Int.{ℤ, pos, negsuc}
use service_mesh.Base.Table.{find, put, delete}
use service_mesh.Orchestrator.{ContainerInfo}
use service_mesh.Orchestrator.Deploy.{
  Outside, DeployServiceRequest, CDocker, Outcome, answered, panicked, sidecar_image,
  deploy_replicas,
}

-- How many replicas a positive number asks for.
unfoldable pub count_of : ℤ → ℕ
count_of (pos n) = n
count_of (negsuc n) = 0

-- A status is written into the container of a name, if it is there.
unfoldable pub set_status : String → String → ContainerInfo → CDocker → CDocker
set_status name status info c = record c {
  containers = put name (record info { status = status }) c.containers;
}

module _ {D : Type 0} (outside : Outside D) where
  -- An image that is not there is pulled.
  unfoldable pub ensure_image : String → D → Bool × D
  ensure_image image d =
      let (ok, d1) = outside.pull_image image d in
      if outside.image_exists image d then (true, d) else (ok, d1)

  unfoldable pub deploy_with_images : DeployServiceRequest → CDocker → D → Outcome × CDocker × D
  unfolding ensure_image count_of
  deploy_with_images req c d =
      let (sidecar_there, d1) = ensure_image sidecar_image d in
      let (there, d2) = ensure_image req.image d1 in
      if sidecar_there
      then (if there
          then deploy_replicas outside req (count_of req.replicas) 0 c d2
          else (answered 400 "no image found", c, d2))
      else (answered 500 "failed to pull sidecar image", c, d1)

  unfoldable pub deploy_service_internal :
      DeployServiceRequest → CDocker → D → Outcome × CDocker × D
  unfolding deploy_with_images count_of
  deploy_service_internal req c d =
      if str_eq req.name "" || str_eq req.image ""
      then (answered 400 "name and image are required", c, d)
      else if ltb (count_of req.replicas) 1
      then (answered 400 "replicas must be at least 1", c, d)
      else deploy_with_images req c d

  -- The loop of stopContainer, from its first container on; `none` where it came to its end.
  stop_instances : List String → CDocker → D → Option Outcome × CDocker × D
  unfolding set_status
  stop_instances [] c d = (none, c, d)
  stop_instances (instance ∷ instances) c d = elim (find instance c.containers) [
    | none ↦ (some panicked, c, d)
    | some info ↦
        let c1 = set_status instance "stopping" info c in
        let (app_done, d1) = outside.stop_container info.container_id d in
        let (sidecar_done, d2) = outside.stop_container info.sidecar_id d1 in
        let rest = stop_instances instances (set_status instance "stopped" info c1) d2 in
        if app_done
        then (if sidecar_done then rest else (some (answered 500 "failed to stop sidecar"), c1, d2))
        else (some (answered 500 "failed to stop container"), c1, d1)
  ]

  stopped : Option Outcome × CDocker × D → Outcome × CDocker × D
  stopped (none, c, d) = (answered 200 "stopped", c, d)
  stopped (some outcome, c, d) = (outcome, c, d)

  unfoldable pub stop_container : Option String → CDocker → D → Outcome × CDocker × D
  unfolding stop_instances stopped
  stop_container none c d = (answered 400 "invalid request body", c, d)
  stop_container (some name) c d =
      if str_eq name ""
      then (answered 400 "name is required", c, d)
      else elim (find name c.services) [
        | none ↦ (answered 404 "service not found", c, d)
        | some instances ↦ stopped (stop_instances instances c d)
      ]

  -- The loop of removeContainer, from its first container on; `none` where it came to its end.
  unfoldable pub remove_instances : List String → CDocker → D → Option Outcome × CDocker × D
  unfolding set_status
  remove_instances [] c d = (none, c, d)
  remove_instances (instance ∷ instances) c d = elim (find instance c.containers) [
    | none ↦ (some panicked, c, d)
    | some info ↦
        let c1 = set_status instance "removing" info c in
        let (app_done, d1) = outside.remove_container info.container_id d in
        let (sidecar_done, d2) = outside.remove_container info.sidecar_id d1 in
        let rest =
          remove_instances instances (record c1 { containers = delete instance c1.containers })
            d2 in
        if app_done
        then (if sidecar_done
            then rest
            else (some (answered 500 "failed to remove sidecar"), c1, d2))
        else (some (answered 500 "failed to remove container"), c1, d1)
  ]

  -- delete(c.services, req.Name) after the loop.
  unfoldable pub drop_service : String → Option Outcome × CDocker × D → Outcome × CDocker × D
  drop_service name (none, c, d) =
      (answered 200 "removed", record c { services = delete name c.services }, d)
  drop_service name (some outcome, c, d) = (outcome, c, d)

  unfoldable pub remove_container : Option String → CDocker → D → Outcome × CDocker × D
  unfolding drop_service remove_instances
  remove_container none c d = (answered 400 "invalid request body", c, d)
  remove_container (some name) c d =
      if str_eq name ""
      then (answered 400 "name is required", c, d)
      else elim (find name c.services) [
        | none ↦ (answered 404 "service not found", c, d)
        | some instances ↦ drop_service name (remove_instances instances c d)
      ]
