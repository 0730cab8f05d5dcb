-- ===== src/Examples/Deploy.antt =====
-- Deployments and removals with a Docker that fails at chosen calls. Its state counts the calls that
-- create or remove.
use service_mesh.Base.{
  ℕ, ◌+◌, ◌<◌, ◌≤◌, ◌≢◌, ◌⊎◌, ◌<>◌, String, true, false, none, some, [], ◌∷◌, ◌++◌, ◌≡◌, refl, ltb,
  arith, if◌then◌else◌,
}
use service_mesh.Base.Int.{pos}
use service_mesh.Base.Text.{itoa}
use service_mesh.Base.Table.{find, put, delete}
use service_mesh.Orchestrator.{ContainerInfo, HealthMonitor, HealthState, new_state, check_states}
use service_mesh.Orchestrator.Deploy.{
  Outside, DeployServiceRequest, CDocker, answered, panicked, deploy_single_service,
  deploy_replicas, clean, enlist,
}
use service_mesh.Orchestrator.Deploy.Env.{end, build_probe_env_vars, build_env_vars_from_map}
use service_mesh.Orchestrator.Deploy.Requests.{
  remove_instances, drop_service, remove_container, set_status, deploy_service_internal,
  deploy_with_images, ensure_image, count_of,
}
use service_mesh.Orchestrator.Deploy.Removal.{is_one_of}
use service_mesh.Orchestrator.Deploy.Stuck.{
  removed_service, half_removed_stuck, removal_ends_orchestrator,
}
use service_mesh.Orchestrator.Deploy.Failed.{failed_deployment_leaves}
use service_mesh.Orchestrator.Deploy.Registered.{instances_of, replica_names, deployment_registers}

-- The creations and removals succeed before the call of that number.
abbrev works_until : ℕ → Outside ℕ
works_until n = record {
  image_exists = λ image d. true;
  pull_image = λ image d. (true, d);
  create_and_start_container = λ config d. (if ltb d n then some config.name else none, d + 1);
  stop_container = λ id d. (true, d);
  remove_container = λ id d. (ltb d n, d + 1);
  container_exists = λ name d. (some false, d);
  create_network = λ name d. (some "n", d);
  generate_service_cert = λ name d. (some ("cert", "key"), d);
  ca_cert = "ca";
  post_register = λ name sidecar d. d;
  to_upper = λ c. "X";
}

abbrev replica : String → String → ContainerInfo
replica name status = record {
  name = name;
  service_name = "cart";
  status = status;
  restarts = 0;
  container_id = name;
  sidecar_id = "s";
}

abbrev two_replicas : CDocker
two_replicas = record {
  containers = ("cart-1", replica "cart-1" "running") ∷ ("cart-2", replica "cart-2" "running") ∷ [];
  services = ("cart", "cart-1" ∷ "cart-2" ∷ []) ∷ [];
}

abbrev half_removed : CDocker
half_removed = record two_replicas { containers = ("cart-2", replica "cart-2" "removing") ∷ [] }

abbrev nothing_known : CDocker
nothing_known = record { containers = []; services = [] }

half_removed_stuck_example :
    (find "cart" half_removed.services ≡ some ("cart-1" ∷ "cart-2" ∷ []))
    × (find "cart-1" half_removed.containers ≡ none)
    × (remove_container (works_until 2) (some "cart") half_removed 7 ≡ (panicked, half_removed, 7))
unfolding remove_container drop_service remove_instances set_status find put delete
half_removed_stuck_example =
    half_removed_stuck (works_until 2) "cart" "cart-1" "failed to remove container" ("cart-2" ∷ [])
      (replica "cart-1" "running") two_replicas half_removed 0 3 7 refl refl refl refl refl

removed_service_example :
    (find "cart-2" nothing_known.containers ≡ none) × (find "cart-2" nothing_known.services ≡ none)
unfolding remove_container drop_service remove_instances set_status find put delete is_one_of
removed_service_example =
    removed_service (works_until 9) "cart" "removed" ("cart-1" ∷ "cart-2" ∷ []) two_replicas
      nothing_known 0 4 "cart-2" refl refl

-- Heard of at 1000.
abbrev heard : HealthState
heard = record (new_state "cart-2") { last_liveness_time = 1000 }

abbrev watching : HealthMonitor
watching = record { containers = []; states = ("cart-2", heard) ∷ []; restarted = [] }

removal_ends_orchestrator_example : check_states 1200 watching ≡ none
unfolding remove_container drop_service remove_instances set_status find put delete is_one_of
removal_ends_orchestrator_example =
    removal_ends_orchestrator (works_until 9) "cart" "removed" "cart-2" ("cart-1" ∷ "cart-2" ∷ [])
      two_replicas nothing_known 0 4 heard 1200 watching refl refl refl refl refl (omega arith)
      (omega arith)

abbrev cart_request : DeployServiceRequest
cart_request = record {
  name = "cart";
  image = "cart:1";
  replicas = pos 2;
  sidecar = end;
  liveness_probe = none;
  readiness_probe = none;
}

abbrev first_replica : ContainerInfo
first_replica = record (replica "cart-1" "initializing") { sidecar_id = "cart-1-sidecar" }

unfinished : (deploy_replicas (works_until 2) cart_request 2 0 nothing_known 0).0 ≢ answered 201 ""
unfolding deploy_replicas deploy_single_service enlist clean find put itoa build_probe_env_vars
    build_env_vars_from_map
unfinished e = absurd (ground arith)

failed_deployment_leaves_example :
    (((n : ℕ) × (1 < n)
        × (n ≤ 2)
        × ((deploy_replicas (works_until 2) cart_request 2 0 nothing_known 0).0
            ≡ answered 500 ("failed to deploy service replica " <> itoa n)))
      ⊎ ((deploy_replicas (works_until 2) cart_request 2 0 nothing_known 0).0 ≡ panicked))
    × ((known : ContainerInfo) × (find "cart-1"
            (deploy_replicas (works_until 2) cart_request 2 0 nothing_known 0).1.containers
          ≡ some known))
unfolding deploy_single_service clean find put itoa build_probe_env_vars build_env_vars_from_map
failed_deployment_leaves_example =
    failed_deployment_leaves (works_until 2) cart_request 1 nothing_known 0 first_replica refl
      unfinished

abbrev deployed_two : CDocker
deployed_two = record {
  containers =
      ("cart-1", first_replica)
      ∷ ("cart-2", record (replica "cart-2" "initializing") { sidecar_id = "cart-2-sidecar" })
      ∷ [];
  services = ("cart", "cart-1" ∷ "cart-2" ∷ []) ∷ [];
}

deployment_registers_example :
    instances_of "cart" deployed_two ≡ instances_of "cart" nothing_known ++ replica_names "cart" 1 2
unfolding deploy_service_internal deploy_with_images ensure_image count_of deploy_replicas
    deploy_single_service enlist find put itoa build_probe_env_vars build_env_vars_from_map
deployment_registers_example =
    deployment_registers (works_until 9) cart_request 2 nothing_known deployed_two 0 4 "" refl refl
