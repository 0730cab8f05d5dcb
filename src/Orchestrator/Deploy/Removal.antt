-- ===== src/Orchestrator/Deploy/Removal.antt =====
-- What a removal leaves, and what it leaves when Docker fails on the way.
use service_mesh.Base.{
  String, Bool, false, Option, none, List, [], ◌∷◌, ◌||◌, ◌≡◌, refl, sym, ap, ◌∙◌, inl, inr, arith,
  if◌then◌else◌, str_eq, eq_iff, Bool-cases, Option-cases,
}
use service_mesh.Base.Table.{find, put, delete, find-put, find-delete}
use service_mesh.Orchestrator.{ContainerInfo}
use service_mesh.Orchestrator.Deploy.{Outside, CDocker, Outcome}
use service_mesh.Orchestrator.Deploy.Requests.{set_status, remove_instances}

-- Whether a name is one of some names.
unfoldable pub is_one_of : String → List String → Bool
is_one_of j [] = false
is_one_of j (name ∷ names) = str_eq name j || is_one_of j names

module _ {D : Type 0} (outside : Outside D) where
  -- A round in which Docker removes both containers.
  abbrev pub after_round : String → ContainerInfo → CDocker → CDocker
  after_round instance info c = record c {
    containers = delete instance (put instance (record info { status = "removing" }) c.containers);
  }

  pub find-after_round :
      (instance j : String) (info : ContainerInfo) (c : CDocker)
      → find j (after_round instance info c).containers
        ≡ (if str_eq instance j then none else find j c.containers)
  find-after_round instance j info c = ground (
    arith,
    find-delete instance j (put instance (record info { status = "removing" }) c.containers),
    find-put instance j (record info { status = "removing" }) c.containers,
  )

  -- The loop goes on behind an instance only if both removals succeeded.
  pub goes_on :
      (instance : String) (instances : List String) (c c1 : CDocker) (d d1 : D)
      → remove_instances outside (instance ∷ instances) c d ≡ (none, c1, d1)
      → (info : ContainerInfo) × (d2 : D) × (remove_instances outside instances
            (after_round instance info c)
            d2
          ≡ (none, c1, d1))
  unfolding remove_instances set_status
  goes_on instance instances c c1 d d1 h = elim (Option-cases (find instance c.containers)) [
    | inl gone ↦ absurd (ground arith)
    | inr (info, there) ↦
        let app = outside.remove_container info.container_id d in
        let side = outside.remove_container info.sidecar_id app.1 in
        elim (Bool-cases app.0) [
          | inr failed ↦ absurd (ground arith)
          | inl done ↦ elim (Bool-cases side.0) [
            | inr failed ↦ absurd (ground arith)
            | inl both ↦ (info, side.1, ground arith)
          ]
        ]
  ]

  -- What the loop makes of the map of containers, when it ends: the instances are gone, and the
  -- others are as they were.
  pub removed_all :
      (instances : List String) (c c1 : CDocker) (d d1 : D) (j : String)
      → remove_instances outside instances c d ≡ (none, c1, d1)
      → (find j c1.containers ≡ (if is_one_of j instances then none else find j c.containers))
        × (c1.services ≡ c.services)
  unfolding is_one_of remove_instances
  removed_all [] c c1 d d1 j h =
      let same : c ≡ c1 = ap (λ (r : Option Outcome × CDocker × D). r.1) h in
      (
        ap (λ (m : CDocker). find j m.containers) (sym same),
        ap (λ (m : CDocker). m.services) (sym same),
      )
  removed_all (instance ∷ instances) c c1 d d1 j h =
      let (info, d2, rest) = goes_on instance instances c c1 d d1 h in
      let (containers, services) =
        removed_all instances (after_round instance info c) c1 d2 d1 j rest in
      (ground (arith, containers, find-after_round instance j info c), services)

  -- A loop that fails behind its first instance has taken that instance out of the map.
  pub first_stays_gone :
      (instances : List String) (c c1 : CDocker) (d d1 : D) (j : String) (outcome : Option Outcome)
      → find j c.containers ≡ none
      → remove_instances outside instances c d ≡ (outcome, c1, d1)
      → find j c1.containers ≡ none
  unfolding remove_instances
  first_stays_gone [] c c1 d d1 j outcome gone h =
      ap (λ (r : Option Outcome × CDocker × D). find j r.1.containers) (sym h) ∙ gone
  first_stays_gone (instance ∷ instances) c c1 d d1 j outcome gone h =
      elim (Option-cases (find instance c.containers)) [
        | inl missing ↦
            let same : c ≡ c1 = ground arith in
            ap (λ (m : CDocker). find j m.containers) (sym same) ∙ gone
        | inr (info, there) ↦
            let app = outside.remove_container info.container_id d in
            let side = outside.remove_container info.sidecar_id app.1 in
            let marked : CDocker = set_status instance "removing" info c in
            let still : find j marked.containers ≡ none = ground (
              arith,
              eq_iff instance j,
              find-put instance j (record info { status = "removing" }) c.containers,
            ) in
            elim (Bool-cases app.0) [
              | inr failed ↦
                  let same : marked ≡ c1 = ground arith in
                  ap (λ (m : CDocker). find j m.containers) (sym same) ∙ still
              | inl done ↦ elim (Bool-cases side.0) [
                | inr failed ↦
                    let same : marked ≡ c1 = ground arith in
                    ap (λ (m : CDocker). find j m.containers) (sym same) ∙ still
                | inl both ↦
                    first_stays_gone instances (after_round instance info c) c1 side.1 d1 j outcome
                      (ground (arith, find-after_round instance j info c)) (ground arith)
              ]
            ]
      ]

  -- However the loop ends, the services stay as they are.
  pub services_kept :
      (instances : List String) (c : CDocker) (d : D)
      → (remove_instances outside instances c d).1.services ≡ c.services
  unfolding remove_instances set_status
  services_kept [] c d = refl
  services_kept (instance ∷ instances) c d = elim (Option-cases (find instance c.containers)) [
    | inl missing ↦ rw (missing, remove_instances) refl
    | inr (info, there) ↦
        let app = outside.remove_container info.container_id d in
        let side = outside.remove_container info.sidecar_id app.1 in
        elim (Bool-cases app.0) [
          | inr failed ↦ rw (there, remove_instances, failed) refl
          | inl done ↦ elim (Bool-cases side.0) [
            | inr failed ↦ rw (there, remove_instances, done, failed) refl
            | inl both ↦
                rw (there, remove_instances, done, both)
                  (services_kept instances (after_round instance info c) side.1)
          ]
        ]
  ]
