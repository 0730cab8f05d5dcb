-- ===== src/Orchestrator/Deploy/Failed.antt =====
-- What a deployment leaves when Docker fails on the way.
use service_mesh.Base.{
  ℕ, zero, suc, ◌+◌, ◌<◌, ◌≤◌, ◌≢◌, arith, itoa, ◌<>◌, String, some, ◌≡◌, refl, ap, ◌∙◌, ◌⊎◌, inl,
  inr, if◌then◌else◌, str_eq, eq_refl, Bool-cases,
}
use service_mesh.Base.Table.{find, find-put}
use service_mesh.Orchestrator.{ContainerInfo}
use service_mesh.Orchestrator.Deploy.{
  Outside, DeployServiceRequest, CDocker, Outcome, answered, panicked, Single, failed, crashed,
  deployed, deploy_single_service, enlist, deploy_replicas,
}

find-enlist :
    (info : ContainerInfo) (c : CDocker) (j : String)
    → find j (enlist info c).containers
      ≡ (if str_eq info.name j then some info else find j c.containers)
unfolding enlist
find-enlist info c j = find-put info.name j info c.containers

enlisted :
    (info : ContainerInfo) (c : CDocker) → find info.name (enlist info c).containers ≡ some info
enlisted info c = rw (find-enlist info c info.name, eq_refl info.name) refl

still_known :
    (new : ContainerInfo) (c : CDocker) (j : String) (info : ContainerInfo)
    → find j c.containers ≡ some info
    → (known : ContainerInfo) × (find j (enlist new c).containers ≡ some known)
still_known new c j info h = elim (Bool-cases (str_eq new.name j)) [
  | inl same ↦ (new, rw (find-enlist new c j, same) refl)
  | inr other ↦ (info, rw (find-enlist new c j, other) h)
]

pub Single-cases :
    (s : Single) → (s ≡ failed) ⊎ ((s ≡ crashed) ⊎ ((info : ContainerInfo) × (s ≡ deployed info)))
Single-cases failed = inl refl
Single-cases crashed = inr (inl refl)
Single-cases (deployed info) = inr (inr (info, refl))

module _ {D : Type 0} (outside : Outside D) where
  -- A container that is known stays known, however the loop over the replicas ends.
  stays_known :
      (req : DeployServiceRequest) (left created : ℕ) (c : CDocker) (d : D) (j : String)
      (info : ContainerInfo)
      → find j c.containers ≡ some info
      → (known : ContainerInfo) × (find j
            (deploy_replicas outside req left created c d).1.containers
          ≡ some known)
  unfolding deploy_replicas
  stays_known req zero created c d j info h = (info, h)
  stays_known req (suc left) created c d j info h =
      let step = deploy_single_service outside req (suc created) d in
      elim (Single-cases step.0) [
        | inl lost ↦ (info, rw (lost, deploy_replicas) h)
        | inr (inl crash) ↦ (info, rw (crash, deploy_replicas) h)
        | inr (inr (new, made)) ↦
            let (now, there) = still_known new c j info h in
            let (known, end) =
              stays_known req left (suc created) (enlist new c) step.1 j now there in
            (known, rw (made, deploy_replicas) end)
      ]

  pub next_replica :
      (req : DeployServiceRequest) (left created : ℕ) (c : CDocker) (d : D) (info : ContainerInfo)
      → (deploy_single_service outside req (suc created) d).0 ≡ deployed info
      → deploy_replicas outside req (suc left) created c d
        ≡ deploy_replicas outside req left
            (suc created)
            (enlist info c)
            (deploy_single_service outside req (suc created) d).1
  unfolding deploy_replicas
  next_replica req left created c d info made = rw (made, deploy_replicas) refl

  -- The loop ends with 201, or with an error that names the replica that failed, or it panics.
  loop_ends :
      (req : DeployServiceRequest) (left created : ℕ) (c : CDocker) (d : D)
      → ((deploy_replicas outside req left created c d).0 ≡ answered 201 "")
        ⊎ (((n : ℕ) × (created < n)
              × (n ≤ created + left)
              × ((deploy_replicas outside req left created c d).0
                  ≡ answered 500 ("failed to deploy service replica " <> itoa n)))
            ⊎ ((deploy_replicas outside req left created c d).0 ≡ panicked))
  unfolding deploy_replicas
  loop_ends req zero created c d = inl refl
  loop_ends req (suc left) created c d =
      let step = deploy_single_service outside req (suc created) d in
      elim (Single-cases step.0) [
        | inl lost ↦
            inr (inl (suc created, omega arith, omega arith, rw (lost, deploy_replicas) refl))
        | inr (inl crash) ↦ inr (inr (rw (crash, deploy_replicas) refl))
        | inr (inr (new, made)) ↦ elim (loop_ends req left (suc created) (enlist new c) step.1) [
          | inl all ↦ inl (rw (made, deploy_replicas) all)
          | inr (inl (n, lo, hi, error)) ↦
              inr (inl (n, omega (arith, lo), omega (arith, hi), rw (made, deploy_replicas) error))
          | inr (inr crash) ↦ inr (inr (rw (made, deploy_replicas) crash))
        ]
      ]

  -- If the first replica is deployed and the deployment is not answered 201, then it is answered 500
  -- with the number of a later replica, or it panics, and the first replica stays in the map of
  -- containers.
  pub failed_deployment_leaves :
      (req : DeployServiceRequest) (left : ℕ) (c : CDocker) (d : D) (info : ContainerInfo)
      → (deploy_single_service outside req 1 d).0 ≡ deployed info
      → (deploy_replicas outside req (suc left) 0 c d).0 ≢ answered 201 ""
      → (((n : ℕ) × (1 < n)
            × (n ≤ 1 + left)
            × ((deploy_replicas outside req (suc left) 0 c d).0
                ≡ answered 500 ("failed to deploy service replica " <> itoa n)))
          ⊎ ((deploy_replicas outside req (suc left) 0 c d).0 ≡ panicked))
        × ((known : ContainerInfo) × (find info.name
                (deploy_replicas outside req (suc left) 0 c d).1.containers
              ≡ some known))
  failed_deployment_leaves req left c d info made unfinished =
      let step = deploy_single_service outside req 1 d in
      let on = next_replica req left 0 c d info made in
      let (known, there) =
        stays_known req left 1 (enlist info c) step.1 info.name info (enlisted info c) in
      (
        elim (loop_ends req left 1 (enlist info c) step.1) [
          | inl all ↦ absurd (unfinished (ap (λ (r : Outcome × CDocker × D). r.0) on ∙ all))
          | inr (inl (n, lo, hi, error)) ↦
              inl (n, lo, hi, ap (λ (r : Outcome × CDocker × D). r.0) on ∙ error)
          | inr (inr crash) ↦ inr (ap (λ (r : Outcome × CDocker × D). r.0) on ∙ crash)
        ],
        (known, ap (λ (r : Outcome × CDocker × D). find info.name r.1.containers) on ∙ there),
      )
