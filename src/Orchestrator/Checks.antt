-- ===== src/Orchestrator/Checks.antt =====
-- Which containers a check restarts.
use service_mesh.Base.{
  ℕ, ◌+◌, String, Bool, ltb, leb, ◌&&◌, ◌||◌, some, List, [], ◌∷◌, ◌++◌, ◌≡◌, refl, sym, ◌∙◌, arith,
  if◌then◌else◌, Bool-cases, Option-cases, inl, inr, All,
}
use mathlib.Core.Path.{ap, ap₂}
use mathlib.Core.List.{append_assoc, append-nil}
use service_mesh.Base.Table.{Table, find, put, find-put}
use service_mesh.Orchestrator.{
  HealthMonitor, HealthState, ContainerInfo, is_due, restart_container, check_each, check_states,
  settle_state,
}

-- A probe that was heard of is overdue when that is more than three minutes ago, and it is unwell
-- when it has failed three times or is overdue.
unfoldable pub overdue : ℕ → ℕ → Bool
overdue now heard = ltb 0 heard && ltb (heard + 180) now

unfoldable pub unwell : ℕ → ℕ → ℕ → Bool
unfolding overdue
unwell now fails heard = leb 3 fails || overdue now heard

-- The containers with an unwell probe, in the order of the states.
unfoldable pub due_names : ℕ → Table HealthState → List String
unfolding unwell
due_names now [] = []
due_names now ((name, s) ∷ states) =
    let rest = due_names now states in
    if unwell now s.liveness_fails s.last_liveness_time
      || unwell now s.readiness_fails s.last_readiness_time
    then name ∷ rest
    else rest

-- The failures that are counted after a check: an unwell liveness probe starts anew, and an unwell
-- readiness probe does if the liveness probe is well; otherwise an overdue one counts three.
unfoldable pub settled_state : ℕ → HealthState → HealthState
unfolding unwell overdue
settled_state now s =
    if unwell now s.liveness_fails s.last_liveness_time
    then record s {
      liveness_fails = 0;
      readiness_fails = if overdue now s.last_readiness_time then 3 else s.readiness_fails;
    }
    else if unwell now s.readiness_fails s.last_readiness_time
    then record s { readiness_fails = 0 }
    else s

unfoldable pub settled : ℕ → Table HealthState → Table HealthState
unfolding settled_state
settled now [] = []
settled now ((name, s) ∷ states) = (name, settled_state now s) ∷ settled now states

is_due-unwell :
    (now : ℕ) (s : HealthState)
    → is_due now s ≡ (
        unwell now s.liveness_fails s.last_liveness_time
        || unwell now s.readiness_fails s.last_readiness_time)
unfolding is_due unwell overdue
is_due-unwell now s = ground arith

settle_state-settled_state : (now : ℕ) (s : HealthState) → settle_state now s ≡ settled_state now s
unfolding settle_state settled_state unwell overdue
settle_state-settled_state now s = ground arith

due_names-first :
    (now : ℕ) (name : String) (s : HealthState) (states : Table HealthState)
    → due_names now ((name, s) ∷ states)
      ≡ (if is_due now s then name ∷ due_names now states else due_names now states)
unfolding due_names
due_names-first now name s states = rw (is_due-unwell now s) refl

-- The container is known.
abbrev pub IsKnown : Table ContainerInfo → String × HealthState → Type 0
IsKnown containers (name, s) = (info : ContainerInfo) × (find name containers ≡ some info)

find-restarted :
    (name j : String) (info : ContainerInfo) (m m1 : HealthMonitor)
    → restart_container name m ≡ some m1
    → find j m.containers ≡ some info
    → (later : ContainerInfo) × (find j m1.containers ≡ some later)
unfolding restart_container
find-restarted name j info m m1 h there = elim (Option-cases (find j m1.containers)) [
  | inr found ↦ found
  | inl gone ↦ elim (Option-cases (find name m.containers)) [
    | inl absent ↦ absurd (ground arith)
    | inr (old, present) ↦
        absurd (
          ground (arith, find-put name j (record old { restarts = old.restarts + 1 }) m.containers))
  ]
]

IsKnown-after :
    (name : String) (m m1 : HealthMonitor) (states : Table HealthState)
    → restart_container name m ≡ some m1
    → All (IsKnown m.containers) states
    → All (IsKnown m1.containers) states
IsKnown-after name m m1 [] h all = tt
IsKnown-after name m m1 ((j, s) ∷ states) h ((info, there), all) =
    (find-restarted name j info m m1 h there, IsKnown-after name m m1 states h all)

restarted-one :
    (name : String) (info : ContainerInfo) (m : HealthMonitor)
    → find name m.containers ≡ some info
    → (m1 : HealthMonitor) × (restart_container name m ≡ some m1)
      × (m1.restarted ≡ m.restarted ++ name ∷ [])
      × (m1.states ≡ m.states)
unfolding restart_container
restarted-one name info m there = (
  record m {
    containers = put name (record info { restarts = info.restarts + 1 }) m.containers;
    restarted = m.restarted ++ name ∷ [];
  },
  rw (there, restart_container) refl,
  refl,
  refl,
)

check_each-due :
    (now : ℕ) (states : Table HealthState) (m : HealthMonitor)
    → All (IsKnown m.containers) states
    → (m1 : HealthMonitor) × (check_each now states m ≡ some m1)
      × (m1.restarted ≡ m.restarted ++ due_names now states)
      × (m1.states ≡ settled now states ++ m.states)
unfolding check_each due_names settled
check_each-due now [] m all = (m, refl, sym (append-nil m.restarted), refl)
check_each-due now ((name, s) ∷ states) m ((info, there), all) = elim (Bool-cases (is_due now s)) [
  | inl due ↦
      let (m0, done, calls, same) = restarted-one name info m there in
      let (m1, rest, more, others) =
        check_each-due now states m0 (IsKnown-after name m m0 states done all) in
      (
        record m1 { states = (name, settle_state now s) ∷ m1.states },
        rw (due, done, check_each, rest) refl,
        rw (due_names-first now name s states, due, more, calls)
            (append_assoc m.restarted (name ∷ []) (due_names now states)),
        ap₂ ◌∷◌ (ap (λ (t : HealthState). (name, t)) (settle_state-settled_state now s))
            (others ∙ ap (λ t. settled now states ++ t) same),
      )
  | inr fine ↦
      let (m1, rest, more, others) = check_each-due now states m all in
      (
        record m1 { states = (name, settle_state now s) ∷ m1.states },
        rw (fine, check_each, rest) refl,
        rw (due_names-first now name s states, fine, more) refl,
        ap₂ ◌∷◌ (ap (λ (t : HealthState). (name, t)) (settle_state-settled_state now s)) others,
      )
]

-- While every container with a state of health is known, a check comes to an end without a panic,
-- restarts exactly the containers with a probe that has failed three times or was not heard of for
-- more than three minutes, each once and in the order in which it comes to them, and starts the
-- count of the liveness failures anew, or that of the readiness failures if the liveness is well.
pub check_states_restarts_due :
    (now : ℕ) (m : HealthMonitor)
    → All (IsKnown m.containers) m.states
    → (m1 : HealthMonitor) × (check_states now m ≡ some m1)
      × (m1.restarted ≡ m.restarted ++ due_names now m.states)
      × (m1.states ≡ settled now m.states)
unfolding check_states
check_states_restarts_due now m all =
    let (m1, done, calls, states) = check_each-due now m.states (record m { states = [] }) all in
    (m1, done, calls, states ∙ append-nil (settled now m.states))
