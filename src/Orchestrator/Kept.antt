-- ===== src/Orchestrator/Kept.antt =====
-- What a report of one container leaves of what the monitor knows of another.
use service_mesh.Base.{
  ℕ, String, Bool, true, false, ◌≡◌, refl, ◌∙◌, str_eq, Bool-cases, Option-cases, inl, inr,
}
use service_mesh.Base.Table.{find, find-put}
use service_mesh.Orchestrator.{
  HealthMonitor, HealthState, ProbeReport, state_of, write_status, write_state, is_healthy,
  count_after, take_liveness, take_readiness, handle_probe_report,
}

-- What the monitor knows of a container is as it was.
abbrev pub IsKept : String → HealthMonitor → HealthMonitor → Type 0
IsKept name m m1 =
    (find name m1.containers ≡ find name m.containers) × (find name m1.states ≡ find name m.states)

IsKept-trans :
    (name : String) (m m1 m2 : HealthMonitor)
    → IsKept name m m1
    → IsKept name m1 m2
    → IsKept name m m2
IsKept-trans name m m1 m2 (c, s) (c1, s1) = (c1 ∙ c, s1 ∙ s)

module _ (name other : String) (apart : str_eq other name ≡ false) where
  write_state-IsKept : (s : HealthState) (m : HealthMonitor) → IsKept name m (write_state other s m)
  unfolding write_state
  write_state-IsKept s m = (refl, rw (find-put other name, apart) refl)

  write_status-IsKept :
      (change : String → String) (m : HealthMonitor) → IsKept name m (write_status other change m).1
  unfolding write_status
  write_status-IsKept change m = elim (Option-cases (find other m.containers)) [
    | inl absent ↦ rw (absent, write_status) (refl, refl)
    | inr (info, there) ↦ rw (there, write_status) (rw (find-put other name, apart) refl, refl)
  ]

  count_after-IsKept :
      (s : HealthState) (m : HealthMonitor) (r : Bool × HealthMonitor)
      → IsKept name m r.1
      → IsKept name m (count_after other s r).1
  unfolding count_after
  count_after-IsKept s m (true, m1) h = h
  count_after-IsKept s m (false, m1) h =
      IsKept-trans name m m1 (write_state other s m1) h (write_state-IsKept s m1)

  written :
      (old seen s : HealthState) (change : String → String) (m : HealthMonitor)
      → IsKept name m
          (count_after other s
            (write_status other change (write_state other seen (write_state other old m)))).1
  written old seen s change m =
      let m0 = write_state other old m in
      let m1 = write_state other seen m0 in
      let m2 = (write_status other change m1).1 in
      count_after-IsKept s m (write_status other change m1) (
        IsKept-trans name m m0 m2 (write_state-IsKept old m)
          (IsKept-trans name m0 m1 m2 (write_state-IsKept seen m0) (write_status-IsKept change m1)))

-- A report of another container keeps what is known of this one.
pub report-IsKept :
    (name : String) (r : ProbeReport) (now : ℕ) (m : HealthMonitor)
    → str_eq r.container_name name ≡ false
    → IsKept name m (handle_probe_report r now m).1
unfolding handle_probe_report take_liveness take_readiness
report-IsKept name r now m apart =
    let j = r.container_name in
    let s = state_of j m in
    let m1 = write_state j s m in
    let first : IsKept name m m1 = write_state-IsKept name j apart s m in
    let live = record s { last_liveness_time = now } in
    let ready = record s { last_readiness_time = now } in
    elim (Bool-cases (str_eq r.probe_name "liveness")) [
      | inl liveness ↦ elim (Bool-cases (is_healthy r.status)) [
        | inl well ↦
            rw (handle_probe_report, liveness, take_liveness, well)
              (written name j apart s live _ _ m)
        | inr ill ↦
            rw (handle_probe_report, liveness, take_liveness, ill)
              (written name j apart s live _ _ m)
      ]
      | inr not_liveness ↦ elim (Bool-cases (str_eq r.probe_name "readiness")) [
        | inl readiness ↦ elim (Bool-cases (is_healthy r.status)) [
          | inl well ↦
              rw (handle_probe_report, not_liveness, readiness, take_readiness, well)
                (written name j apart s ready _ _ m)
          | inr ill ↦
              rw (handle_probe_report, not_liveness, readiness, take_readiness, ill)
                (written name j apart s ready _ _ m)
        ]
        | inr neither ↦ rw (handle_probe_report, not_liveness, neither) first
      ]
    ]
