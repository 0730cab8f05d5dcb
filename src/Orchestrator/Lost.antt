-- ===== src/Orchestrator/Lost.antt =====
-- A state of health whose container is not known any more.
use service_mesh.Base.{
  ℕ, ◌+◌, ◌<◌, String, true, Option, none, some, [], ◌∷◌, ◌≡◌, refl, arith, if◌then◌else◌, str_eq,
  eq_iff, Bool-cases, Option-cases, inl, inr,
}
use service_mesh.Base.Table.{Table, find, find-put}
use service_mesh.Orchestrator.{
  HealthMonitor, HealthState, probe_timeout, is_due, restart_container, check_each, check_states,
}

late_IsDue :
    (now : ℕ) (s : HealthState)
    → 0 < s.last_liveness_time
    → s.last_liveness_time + probe_timeout < now
    → is_due now s ≡ true
unfolding is_due
late_IsDue now s heard late = ground arith

restart-absent :
    (name j : String) (m m1 : HealthMonitor)
    → restart_container name m ≡ some m1
    → find j m.containers ≡ none
    → find j m1.containers ≡ none
unfolding restart_container
restart-absent name j m m1 h absent = elim (Option-cases (find name m.containers)) [
  | inl gone ↦ absurd (ground arith)
  | inr (info, there) ↦ ground (
    arith,
    eq_iff name j,
    find-put name j (record info { restarts = info.restarts + 1 }) m.containers,
  )
]

-- A round for one state.
abbrev pub round : ℕ → String → HealthState → HealthMonitor → Option HealthMonitor
round now name s m = if is_due now s then restart_container name m else some m

pub round-absent :
    (now : ℕ) (name j : String) (s : HealthState) (m m1 : HealthMonitor)
    → round now name s m ≡ some m1
    → find j m.containers ≡ none
    → find j m1.containers ≡ none
round-absent now name j s m m1 h absent = elim (Bool-cases (is_due now s)) [
  | inl due ↦ restart-absent name j m m1 (ground arith) absent
  | inr fine ↦ let same : m1 ≡ m = ground arith in rw same absent
]

check_each-lost :
    (states : Table HealthState) (name : String) (s : HealthState) (now : ℕ) (m : HealthMonitor)
    → find name states ≡ some s
    → is_due now s ≡ true
    → find name m.containers ≡ none
    → check_each now states m ≡ none
unfolding check_each find restart_container
check_each-lost [] name s now m there due absent = absurd (ground arith)
check_each-lost ((j, t) ∷ states) name s now m there due absent =
    elim (Bool-cases (str_eq j name)) [
      | inl same ↦ ground (arith, eq_iff j name)
      | inr other ↦ elim (Option-cases (round now j t m)) [
        | inl gone ↦ rw (gone, check_each) refl
        | inr (m1, on) ↦
            rw
              (
                on,
                check_each,
                check_each-lost states name s now m1 (ground arith) due
                    (round-absent now j name t m m1 on absent),
              )
              refl
      ]
    ]

-- If a container that has reported its liveness is no longer known, the first check after its probe
-- has timed out makes the goroutine of the monitor panic, which ends the orchestrator; whatever the
-- other containers and states are, and in whatever order the check comes to them.
pub lost_container_panics :
    (name : String) (s : HealthState) (now : ℕ) (m : HealthMonitor)
    → find name m.states ≡ some s
    → 0 < s.last_liveness_time
    → s.last_liveness_time + probe_timeout < now
    → find name m.containers ≡ none
    → check_states now m ≡ none
unfolding check_states
lost_container_panics name s now m there heard late absent =
    check_each-lost m.states name s now (record m { states = [] }) there
      (late_IsDue now s heard late) absent
