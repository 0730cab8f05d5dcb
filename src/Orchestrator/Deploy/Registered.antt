-- ===== src/Orchestrator/Deploy/Registered.antt =====
-- What a deployment that succeeds leaves.
use service_mesh.Base.{
  ℕ, zero, suc, String, Option, none, some, List, [], ◌∷◌, ◌++◌, ◌≡◌, refl, sym, ap, ◌∙◌, inl, inr,
  ◌||◌, ltb, arith, str_eq, eq_refl, Bool-cases, Option-cases,
}
use mathlib.Core.List.{append-nil, append_assoc}
use mathlib.Core.Path.{subst}
use service_mesh.Base.Table.{find, find-put}
use service_mesh.Orchestrator.{ContainerInfo}
use service_mesh.Orchestrator.Deploy.{
  Outside, DeployServiceRequest, CDocker, Outcome, answered, Single, failed, crashed, deployed,
  replica_name, app_created, sidecar_created, deploy_with_env, certified, deploy_single_service,
  enlist, deploy_replicas, sidecar_image,
}
use service_mesh.Base.Int.{pos}
use service_mesh.Orchestrator.Deploy.Requests.{
  count_of, ensure_image, deploy_with_images, deploy_service_internal,
}
use service_mesh.Orchestrator.Deploy.Failed.{Single-cases, next_replica}

-- The names of replicas, from one on.
unfoldable pub replica_names : String → ℕ → ℕ → List String
replica_names name first zero = []
replica_names name first (suc left) = replica_name name first ∷ replica_names name (suc first) left

-- The instances of a service.
abbrev pub instances_of : String → CDocker → List String
instances_of name c = elim (find name c.services) [ none ↦ [] | some names ↦ names ]

IsReplica : DeployServiceRequest → String → ContainerInfo → Type 0
IsReplica req container info = (info.name ≡ container) × (info.service_name ≡ req.name)

info_of : ContainerInfo → Single → ContainerInfo
info_of other (deployed info) = info
info_of other failed = other
info_of other crashed = other

deployed_injective : (a b : ContainerInfo) → deployed a ≡ deployed b → a ≡ b
unfolding info_of
deployed_injective a b h = ap (info_of a) h

enlist_own :
    (info : ContainerInfo) (c : CDocker)
    → instances_of info.service_name (enlist info c)
      ≡ instances_of info.service_name c ++ info.name ∷ []
unfolding enlist
enlist_own info c = elim (Option-cases (find info.service_name c.services)) [
  | inl new ↦
      rw
        (
          new,
          instances_of,
          find-put info.service_name info.service_name (info.name ∷ []) c.services,
          eq_refl info.service_name,
        )
        refl
  | inr (names, old) ↦
      rw
        (
          old,
          instances_of,
          find-put info.service_name info.service_name (names ++ info.name ∷ []) c.services,
          eq_refl info.service_name,
        )
        refl
]

instances-enlist :
    (req : DeployServiceRequest) (container : String) (info : ContainerInfo) (c : CDocker)
    → IsReplica req container info
    → instances_of req.name (enlist info c) ≡ instances_of req.name c ++ container ∷ []
unfolding IsReplica
instances-enlist req container info c (same_name, same_service) =
    subst (λ s. instances_of s (enlist info c) ≡ instances_of s c ++ container ∷ []) same_service
      (enlist_own info c ∙ ap (λ n. instances_of info.service_name c ++ n ∷ []) same_name)

module _ {D : Type 0} (outside : Outside D) where
  app_created-IsReplica :
      (req : DeployServiceRequest) (container sidecar_id : String) (r : Option String × D)
      (info : ContainerInfo)
      → (app_created outside req container sidecar_id r).0 ≡ deployed info
      → IsReplica req container info
  unfolding app_created IsReplica
  app_created-IsReplica req container sidecar_id (none, d) info h = absurd (ground arith)
  app_created-IsReplica req container sidecar_id (some app_id, d) info h =
      let same = deployed_injective _ info h in
      (
        sym (ap (λ (i : ContainerInfo). i.name) same),
        sym (ap (λ (i : ContainerInfo). i.service_name) same),
      )

  sidecar_created-IsReplica :
      (req : DeployServiceRequest) (container : String) (pair : String × String)
      (r : Option String × D) (info : ContainerInfo)
      → (sidecar_created outside req container pair r).0 ≡ deployed info
      → IsReplica req container info
  unfolding sidecar_created
  sidecar_created-IsReplica req container pair (none, d) info h = absurd (ground arith)
  sidecar_created-IsReplica req container pair (some sidecar_id, d) info h =
      app_created-IsReplica req container sidecar_id _ info h

  with_env-IsReplica :
      (req : DeployServiceRequest) (container : String) (pair : String × String)
      (probes : Option (List String)) (d : D) (info : ContainerInfo)
      → (deploy_with_env outside req container pair probes d).0 ≡ deployed info
      → IsReplica req container info
  unfolding deploy_with_env
  with_env-IsReplica req container pair none d info h = absurd (ground arith)
  with_env-IsReplica req container pair (some probes) d info h =
      sidecar_created-IsReplica req container pair _ info h

  certified-IsReplica :
      (req : DeployServiceRequest) (container : String) (r : Option (String × String) × D)
      (info : ContainerInfo)
      → (certified outside req container r).0 ≡ deployed info
      → IsReplica req container info
  unfolding certified
  certified-IsReplica req container (none, d) info h = absurd (ground arith)
  certified-IsReplica req container (some pair, d) info h =
      with_env-IsReplica req container pair _ d info h

  single-IsReplica :
      (req : DeployServiceRequest) (i : ℕ) (d : D) (info : ContainerInfo)
      → (deploy_single_service outside req i d).0 ≡ deployed info
      → IsReplica req (replica_name req.name i) info
  unfolding deploy_single_service
  single-IsReplica req i d info h = certified-IsReplica req (replica_name req.name i) _ info h

  -- The loop over the replicas that all are deployed.
  loop_registers :
      (req : DeployServiceRequest) (left created : ℕ) (c c1 : CDocker) (d d1 : D) (message : String)
      → deploy_replicas outside req left created c d ≡ (answered 201 message, c1, d1)
      → instances_of req.name c1
        ≡ instances_of req.name c ++ replica_names req.name (suc created) left
  unfolding deploy_replicas replica_names
  loop_registers req zero created c c1 d d1 message h =
      ap (λ (r : Outcome × CDocker × D). instances_of req.name r.1) (sym h)
      ∙ sym (append-nil (instances_of req.name c))
  loop_registers req (suc left) created c c1 d d1 message h =
      let step = deploy_single_service outside req (suc created) d in
      elim (Single-cases step.0) [
        | inl lost ↦ absurd (ground arith)
        | inr (inl crash) ↦ absurd (ground arith)
        | inr (inr (info, made)) ↦
            let replica = single-IsReplica req (suc created) d info made in
            let rest =
              loop_registers req left (suc created) (enlist info c) c1 step.1 d1 message
                (sym (next_replica outside req left created c d info made) ∙ h) in
            rest
            ∙ (ap (λ names. names ++ replica_names req.name (suc (suc created)) left)
                  (instances-enlist req (replica_name req.name (suc created)) info c replica)
                ∙ append_assoc (instances_of req.name c) (replica_name req.name (suc created) ∷ [])
                    (replica_names req.name (suc (suc created)) left))
      ]

  -- A deployment that is answered 201 had its images.
  with_images :
      (req : DeployServiceRequest) (c c1 : CDocker) (d d1 : D) (message : String)
      → deploy_with_images outside req c d ≡ (answered 201 message, c1, d1)
      → (d2 : D) × (deploy_replicas outside req (count_of req.replicas) 0 c d2
          ≡ (answered 201 message, c1, d1))
  unfolding deploy_with_images
  with_images req c c1 d d1 message h =
      let sidecar = ensure_image outside sidecar_image d in
      let image = ensure_image outside req.image sidecar.1 in
      elim (Bool-cases sidecar.0) [
        | inr lost ↦ absurd (ground arith)
        | inl there ↦ elim (Bool-cases image.0) [
          | inr lost ↦ absurd (ground arith)
          | inl found ↦ (image.1, ground arith)
        ]
      ]

  -- A deployment that is answered 201 appends all of its replicas, in their order and each once, to
  -- the instances of the service.
  pub deployment_registers :
      (req : DeployServiceRequest) (n : ℕ) (c c1 : CDocker) (d d1 : D) (message : String)
      → req.replicas ≡ pos n
      → deploy_service_internal outside req c d ≡ (answered 201 message, c1, d1)
      → instances_of req.name c1 ≡ instances_of req.name c ++ replica_names req.name 1 n
  unfolding deploy_service_internal count_of
  deployment_registers req n c c1 d d1 message asked h =
      let count : count_of req.replicas ≡ n = rw (asked, count_of) refl in
      elim (Bool-cases (str_eq req.name "" || str_eq req.image "")) [
        | inl blank ↦ absurd (ground arith)
        | inr filled ↦ elim (Bool-cases (ltb (count_of req.replicas) 1)) [
          | inl few ↦ absurd (ground arith)
          | inr enough ↦
              let (d2, deployed_all) = with_images req c c1 d d1 message (ground arith) in
              loop_registers req (count_of req.replicas) 0 c c1 d2 d1 message deployed_all
              ∙ ap (λ k. instances_of req.name c ++ replica_names req.name 1 k) count
        ]
      ]
