-- ===== src/Orchestrator/Deploy.antt =====
-- docker/cdocker/internal/app/http/cdocker/cdocker.go: the deployment, the stopping and the removal
-- of services. Docker, the certificates and the control plane are outside: their calls act on a
-- state of a type that is left open.
pub mod Env
pub mod Requests
pub mod Removal
pub mod Stuck
pub mod Failed
pub mod Registered
pub mod Others
use service_mesh.Base.{
  ℕ, zero, suc, ◌+◌, ◌-◌, String, Bool, true, false, Option, none, some, List, [], ◌∷◌, ◌++◌, ◌||◌,
  ltb, ◌==◌, if◌then◌else◌, str_eq, itoa, ◌<>◌,
}
use service_mesh.Base.Int.{ℤ, pos, negsuc}
use service_mesh.Base.Table.{Table, find, put, delete}
use service_mesh.Orchestrator.{ContainerInfo}
use service_mesh.Orchestrator.Deploy.Env.{
  Probe, Entries, build_env_vars_from_map, build_probe_env_vars,
}

pub record ContainerConfig : Type 0 where
  pub name : String
  pub image : String
  pub env : List String
  pub network : String
  pub labels : Table String
  pub port_mapping : List (ℕ × ℕ)
  pub volumes : Table String

-- docker.Client, pki.PKI and the control plane, on a state `D`. A Boolean tells whether the call
-- succeeded; a container that was created has an identifier, and a certificate has a key.
pub record Outside (D : Type 0) : Type 0 where
  pub image_exists : String → D → Bool
  pub pull_image : String → D → Bool × D
  pub create_and_start_container : ContainerConfig → D → Option String × D
  pub stop_container : String → D → Bool × D
  pub remove_container : String → D → Bool × D
  pub container_exists : String → D → Option Bool × D
  pub create_network : String → D → Option String × D
  pub generate_service_cert : String → D → Option (String × String) × D
  pub ca_cert : String
  pub post_register : String → String → D → D
  pub to_upper : ℕ → String

pub record DeployServiceRequest : Type 0 where
  pub name : String
  pub image : String
  pub replicas : ℤ
  pub sidecar : Entries
  pub liveness_probe : Option Probe
  pub readiness_probe : Option Probe

-- The maps of CDocker. The first is the one that the health monitor reads too.
pub record CDocker : Type 0 where
  pub containers : Table ContainerInfo
  pub services : Table (List String)

-- The status and the message of an answer; a nil pointer that is read is a panic, which the server
-- recovers.
pub data Outcome : Type 0 where
  answered : ℕ → String → Outcome
  panicked : Outcome

-- What deploySingleService gives.
pub data Single : Type 0 where
  failed crashed : Single
  deployed : ContainerInfo → Single

abbrev pub mesh_network : String
mesh_network = "mesh_network"

abbrev pub sidecar_image : String
sidecar_image = "lliepjiok/sidecar:latest"

unfoldable pub labels_for : String → Table String
labels_for name =
    ("com.docker.compose.project", "control-plane") ∷ ("com.docker.compose.service", name) ∷ []

unfoldable pub replica_name : String → ℕ → String
replica_name name i = name <> "-" <> itoa i

-- c.containers[info.Name] = &info, and the append to c.services[info.ServiceName].
unfoldable pub enlist : ContainerInfo → CDocker → CDocker
enlist info c = record c {
  containers = put info.name info c.containers;
  services =
      put info.service_name
        (elim (find info.service_name c.services) [
          | none ↦ info.name ∷ []
          | some names ↦ names ++ info.name ∷ []
        ])
        c.services;
}

module _ {D : Type 0} (outside : Outside D) where
  -- A container in the network of the mesh with the labels of its name.
  create : String → String → List String → D → Option String × D
  unfolding labels_for
  create name image env d =
      outside.create_and_start_container
        (record {
          name = name;
          image = image;
          env = env;
          network = mesh_network;
          labels = labels_for name;
          port_mapping = [];
          volumes = [];
        })
        d

  app_env : String → String → String × String → List String
  app_env container sidecar (cert, key) =
      ("HTTP_PROXY=http://" <> sidecar <> ":8080")
      ∷ ("HTTPS_PROXY=http://" <> sidecar <> ":8080")
      ∷ ("SERVICE_NAME=" <> container)
      ∷ ("TLS_CERT=" <> cert)
      ∷ ("TLS_KEY=" <> key)
      ∷ ("TLS_CA=" <> outside.ca_cert)
      ∷ []

  -- deploySingleService once the app is created, or not. The error of the registration is only logged.
  app_created : DeployServiceRequest → String → String → Option String × D → Single × D
  app_created req container sidecar_id (none, d) = (failed, d)
  app_created req container sidecar_id (some app_id, d) = (
    deployed (record {
      name = container;
      service_name = req.name;
      status = "initializing";
      restarts = 0;
      container_id = app_id;
      sidecar_id = sidecar_id;
    }),
    outside.post_register req.name (container <> "-sidecar") d,
  )

  sidecar_created : DeployServiceRequest → String → String × String → Option String × D → Single × D
  unfolding create app_env app_created
  sidecar_created req container pair (none, d) = (failed, d)
  sidecar_created req container pair (some sidecar_id, d) =
      app_created req container sidecar_id
        (create container req.image (app_env container (container <> "-sidecar") pair) d)

  deploy_with_env :
      DeployServiceRequest → String → String × String → Option (List String) → D → Single × D
  unfolding create sidecar_created build_env_vars_from_map
  deploy_with_env req container pair none d = (crashed, d)
  deploy_with_env req container pair (some probes) d =
      let env =
        build_env_vars_from_map outside.to_upper req.sidecar
        ++ (("SIDECAR_TARGET=" <> container <> ":8080")
            ∷ ("SIDECAR_SERVICE_NAME=" <> container)
            ∷ probes) in
      sidecar_created req container pair (create (container <> "-sidecar") sidecar_image env d)

  certified : DeployServiceRequest → String → Option (String × String) × D → Single × D
  unfolding deploy_with_env build_probe_env_vars
  certified req container (none, d) = (failed, d)
  certified req container (some pair, d) =
      deploy_with_env req container pair
        (build_probe_env_vars req.liveness_probe req.readiness_probe container) d

  unfoldable pub deploy_single_service : DeployServiceRequest → ℕ → D → Single × D
  unfolding replica_name certified
  deploy_single_service req i d =
      let container = replica_name req.name i in
      certified req container (outside.generate_service_cert container d)

  -- The two removals of a round of `clean`, the errors of which are dropped.
  clean_one : String → ℕ → D → D
  unfolding replica_name
  clean_one name i d =
      (outside.remove_container (replica_name name i <> "-sidecar")
        (outside.remove_container (replica_name name i) d).1).1

  -- clean(created): the replicas from `i` on, in their order.
  unfoldable pub clean : String → ℕ → ℕ → D → D
  unfolding clean_one
  clean name i zero d = d
  clean name i (suc left) d = clean name (suc i) left (clean_one name i d)

  -- The loop over the replicas, with those that are left and those that were created.
  unfoldable pub deploy_replicas :
      DeployServiceRequest → ℕ → ℕ → CDocker → D → Outcome × CDocker × D
  unfolding deploy_single_service clean enlist
  deploy_replicas req zero created c d = (answered 201 "", c, d)
  deploy_replicas req (suc left) created c d =
      let (single, d1) = deploy_single_service req (suc created) d in
      elim single [
        | failed ↦ (
          answered 500 ("failed to deploy service replica " <> itoa (suc created)),
          c,
          clean req.name 1 created d1,
        )
        | crashed ↦ (panicked, c, d1)
        | deployed info ↦ deploy_replicas req left (suc created) (enlist info c) d1
      ]
