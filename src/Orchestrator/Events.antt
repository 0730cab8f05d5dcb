-- ===== src/Orchestrator/Events.antt =====
-- Checks and reports one after another, and a container that is not known meanwhile.
use service_mesh.Base.{
  ℕ, ◌+◌, ◌<◌, String, Bool, false, Option, none, some, List, [], ◌∷◌, ◌++◌, ◌≡◌, refl, sym, ◌∙◌,
  ap, arith, All, str_eq, Bool-cases, Option-cases, inl, inr,
}
use service_mesh.Base.Table.{Table, find}
use service_mesh.Orchestrator.{
  HealthMonitor, HealthState, ProbeReport, probe_timeout, handle_probe_report, settle_state,
  check_each, check_states,
}
use service_mesh.Orchestrator.Kept.{report-IsKept}
use service_mesh.Orchestrator.Lost.{round, round-absent, lost_container_panics}

-- What happens to the monitor: a check at an instant, or a report.
pub data Event : Type 0 where
  check : ℕ → Event
  report : ProbeReport → ℕ → Event

-- The state after some events; `none` if a check panics, which ends the process.
unfoldable pub run : List Event → HealthMonitor → Option HealthMonitor
run [] m = some m
run (check now ∷ events) m = elim (check_states now m) [ none ↦ none | some m1 ↦ run events m1 ]
run (report r now ∷ events) m = run events (handle_probe_report r now m).1

-- Whether an event is a report of the container.
unfoldable pub is_about : String → Event → Bool
is_about name (check now) = false
is_about name (report r now) = str_eq r.container_name name

-- The state of health is kept by its check, but for the failures that are counted.
settle_state-heard :
    (now : ℕ) (s : HealthState) → (settle_state now s).last_liveness_time ≡ s.last_liveness_time
unfolding settle_state
settle_state-heard now s = ground arith

-- A container that is not known, but was heard of at `t`.
pub record IsLost (name : String) (t : ℕ) (m : HealthMonitor) : Type 0 where
  pub state : HealthState
  pub absent : find name m.containers ≡ none
  pub there : find name m.states ≡ some state
  pub heard : state.last_liveness_time ≡ t

-- The round for a state, and the rest of the loop.
rounds :
    (now : ℕ) (j : String) (r : HealthState) (states : Table HealthState) (m m1 : HealthMonitor)
    → check_each now ((j, r) ∷ states) m ≡ some m1
    → (m0 : HealthMonitor) × (m2 : HealthMonitor) × (round now j r m ≡ some m0)
      × (check_each now states m0 ≡ some m2)
      × (m1 ≡ record m2 { states = (j, settle_state now r) ∷ m2.states })
unfolding check_each
rounds now j r states m m1 h = elim (Option-cases (round now j r m)) [
  | inl panic ↦ absurd (ground arith)
  | inr (m0, on) ↦ elim (Option-cases (check_each now states m0)) [
    | inl panic ↦ absurd (ground arith)
    | inr (m2, rest) ↦ (m0, m2, on, rest, ground arith)
  ]
]

check_each-absent :
    (name : String) (now : ℕ) (states : Table HealthState) (m m1 : HealthMonitor)
    → check_each now states m ≡ some m1
    → find name m.containers ≡ none
    → find name m1.containers ≡ none
unfolding check_each
check_each-absent name now [] m m1 h absent =
    let same : m ≡ m1 = ground arith in rw (sym same) absent
check_each-absent name now ((j, r) ∷ states) m m1 h absent =
    let (m0, m2, on, rest, same) = rounds now j r states m m1 h in
    rw same
      (check_each-absent name now states m0 m2 rest (round-absent now j name r m m0 on absent))

check_each-heard :
    (name : String) (now : ℕ) (s : HealthState) (states : Table HealthState) (m m1 : HealthMonitor)
    → check_each now states m ≡ some m1
    → find name states ≡ some s
    → (s1 : HealthState) × (find name m1.states ≡ some s1)
      × (s1.last_liveness_time ≡ s.last_liveness_time)
unfolding find
check_each-heard name now s [] m m1 h there = absurd (ground arith)
check_each-heard name now s ((j, r) ∷ states) m m1 h there =
    let (m0, m2, on, rest, same) = rounds now j r states m m1 h in
    elim (Bool-cases (str_eq j name)) [
      | inl here ↦
          let one : r ≡ s = ground arith in
          (
            settle_state now r,
            rw (same, find, here) refl,
            settle_state-heard now r ∙ ap (λ (x : HealthState). x.last_liveness_time) one,
          )
      | inr behind ↦
          let (s1, found, heard) = check_each-heard name now s states m0 m2 rest (ground arith) in
          (s1, rw (same, find, behind) found, heard)
    ]

check_states-IsLost :
    (name : String) (t now : ℕ) (m m1 : HealthMonitor)
    → check_states now m ≡ some m1
    → IsLost name t m
    → IsLost name t m1
unfolding check_states
check_states-IsLost name t now m m1 h lost =
    let bare : HealthMonitor = record m { states = [] } in
    let (s1, found, heard) = check_each-heard name now lost.state m.states bare m1 h lost.there in
    record {
      state = s1;
      absent = check_each-absent name now m.states bare m1 h lost.absent;
      there = found;
      heard = heard ∙ lost.heard;
    }

-- Whatever checks and reports of other containers come in between, the monitor ends with the check
-- that comes more than three minutes after the container was heard of, if it has not ended before.
pub run-IsLost :
    (name : String) (t later : ℕ) (events : List Event) (m : HealthMonitor)
    → IsLost name t m
    → 0 < t
    → t + probe_timeout < later
    → All (λ e. is_about name e ≡ false) events
    → run (events ++ check later ∷ []) m ≡ none
unfolding run is_about
run-IsLost name t later [] m lost known late others =
    let e = lost.heard in
    let ended =
      lost_container_panics name lost.state later m lost.there (omega (arith, e, known))
        (omega (arith, e, late)) lost.absent in
    rw (run, ended) refl
run-IsLost name t later (check now ∷ events) m lost known late (any, others) =
    elim (Option-cases (check_states now m)) [
      | inl ended ↦ rw (run, ended) refl
      | inr (m1, on) ↦
          rw (run, on)
            (run-IsLost name t later events m1 (check_states-IsLost name t now m m1 on lost) known
              late others)
    ]
run-IsLost name t later (report r now ∷ events) m lost known late (apart, others) =
    let (containers, states) = report-IsKept name r now m apart in
    run-IsLost name t later events (handle_probe_report r now m).1
      (record {
        state = lost.state;
        absent = containers ∙ lost.absent;
        there = states ∙ lost.there;
        heard = lost.heard;
      })
      known late others
