-- ===== src/Orchestrator.antt =====
-- docker/cdocker/internal/domain/manifest.go, and app/http/cdocker/health_monitor.go: what the
-- orchestrator knows of its containers, and the monitor that restarts them. Instants are seconds
-- of Unix time.
pub mod Checks
pub mod Lost
pub mod Kept
pub mod Events
pub mod Reports
pub mod Deploy
use service_mesh.Base.{
  ℕ, ◌+◌, String, Bool, true, false, Option, none, some, List, [], ◌∷◌, ◌++◌, ltb, leb, ◌&&◌, ◌||◌,
  if◌then◌else◌, str_eq,
}
use service_mesh.Base.Table.{Table, find, put}

pub record ContainerInfo : Type 0 where
  pub name : String
  pub service_name : String
  pub status : String
  pub restarts : ℕ
  pub container_id : String
  pub sidecar_id : String

-- Any other text counts like `unknown`.
pub data ProbeStatus : Type 0 where
  healthy unhealthy unknown : ProbeStatus

pub record ProbeReport : Type 0 where
  pub container_name : String
  pub probe_name : String
  pub status : ProbeStatus

pub record HealthState : Type 0 where
  pub container_name : String
  pub liveness_fails : ℕ
  pub readiness_fails : ℕ
  pub last_liveness_time : ℕ
  pub last_readiness_time : ℕ

-- `containers` is the map that the orchestrator shares with the monitor; `restarted` has the calls
-- of docker.RestartContainer in their order, the errors of which are only logged.
pub record HealthMonitor : Type 0 where
  pub containers : Table ContainerInfo
  pub states : Table HealthState
  pub restarted : List String

-- livenessThreshold, readinessThreshold, and probeTimeout in seconds.
abbrev pub liveness_threshold : ℕ
liveness_threshold = 3

abbrev pub readiness_threshold : ℕ
readiness_threshold = 3

abbrev pub probe_timeout : ℕ
probe_timeout = 180

-- m.containers[name].Status = ..., from the status that it had; without the container a nil
-- pointer is read, and `true` is that panic.
write_status : String → (String → String) → HealthMonitor → Bool × HealthMonitor
write_status name change m = elim (find name m.containers) [
  | none ↦ (true, m)
  | some info ↦ (
    false,
    record m { containers = put name (record info { status = change info.status }) m.containers },
  )
]

write_state : String → HealthState → HealthMonitor → HealthMonitor
write_state name state m = record m { states = put name state m.states }

abbrev pub is_healthy : ProbeStatus → Bool
is_healthy healthy = true
is_healthy unhealthy = false
is_healthy unknown = false

-- The count of failures is written after the status, so not at all if that panics.
count_after : String → HealthState → Bool × HealthMonitor → Bool × HealthMonitor
unfolding write_state
count_after name state (true, m) = (true, m)
count_after name state (false, m) = (false, write_state name state m)

take_liveness : ProbeReport → ℕ → HealthState → HealthMonitor → Bool × HealthMonitor
unfolding write_status write_state count_after
take_liveness report now state m =
    let name = report.container_name in
    let seen = record state { last_liveness_time = now } in
    let m1 = write_state name seen m in
    if is_healthy report.status
    then count_after name (record seen { liveness_fails = 0 })
        (write_status name (λ s. "running") m1)
    else count_after name (record seen { liveness_fails = state.liveness_fails + 1 })
        (write_status name (λ s. "failed") m1)

take_readiness : ProbeReport → ℕ → HealthState → HealthMonitor → Bool × HealthMonitor
unfolding write_status write_state count_after
take_readiness report now state m =
    let name = report.container_name in
    let seen = record state { last_readiness_time = now } in
    let m1 = write_state name seen m in
    if is_healthy report.status
    then count_after name (record seen { readiness_fails = 0 })
        (write_status name (λ s. "running") m1)
    else count_after name (record seen { readiness_fails = state.readiness_fails + 1 })
        (write_status name (λ s. if str_eq s "failed" then s else "not ready") m1)

abbrev pub new_state : String → HealthState
new_state name = record {
  container_name = name;
  liveness_fails = 0;
  readiness_fails = 0;
  last_liveness_time = 0;
  last_readiness_time = 0;
}

unfoldable pub state_of : String → HealthMonitor → HealthState
state_of name m = elim (find name m.states) [ none ↦ new_state name | some state ↦ state ]

-- HandleProbeReport: whether it panicked, and the state that is left; the server recovers the
-- panic, and the deferred release of the lock comes then too.
unfoldable pub handle_probe_report : ProbeReport → ℕ → HealthMonitor → Bool × HealthMonitor
unfolding take_liveness take_readiness state_of write_state
handle_probe_report report now m =
    let state = state_of report.container_name m in
    let m1 = write_state report.container_name state m in
    if str_eq report.probe_name "liveness"
    then take_liveness report now state m1
    else if str_eq report.probe_name "readiness"
    then take_readiness report now state m1
    else (false, m1)

-- The two probes that have not been heard of for too long count as failed.
unfoldable pub time_out_probes : ℕ → HealthState → HealthState
time_out_probes now s =
    let late_live = ltb 0 s.last_liveness_time && ltb (s.last_liveness_time + probe_timeout) now in
    let late_ready =
      ltb 0 s.last_readiness_time && ltb (s.last_readiness_time + probe_timeout) now in
    record s {
      liveness_fails = if late_live then liveness_threshold else s.liveness_fails;
      readiness_fails = if late_ready then readiness_threshold else s.readiness_fails;
    }

-- restartContainer: `none` is the panic on a container that is not there. Nothing recovers it.
unfoldable pub restart_container : String → HealthMonitor → Option HealthMonitor
restart_container name m = elim (find name m.containers) [
  | none ↦ none
  | some info ↦ some (record m {
    containers = put name (record info { restarts = info.restarts + 1 }) m.containers;
    restarted = m.restarted ++ name ∷ [];
  })
]

-- What a round of the loop of `checkStates` makes of the state.
unfoldable pub settle_state : ℕ → HealthState → HealthState
unfolding time_out_probes
settle_state now s =
    let t = time_out_probes now s in
    if leb liveness_threshold t.liveness_fails
    then record t { liveness_fails = 0 }
    else if leb readiness_threshold t.readiness_fails
    then record t { readiness_fails = 0 }
    else t

-- Whether the round restarts the container.
unfoldable pub is_due : ℕ → HealthState → Bool
unfolding time_out_probes
is_due now s =
    let t = time_out_probes now s in
    leb liveness_threshold t.liveness_fails || leb readiness_threshold t.readiness_fails

-- The loop over the states that are left.
unfoldable pub check_each : ℕ → Table HealthState → HealthMonitor → Option HealthMonitor
check_each now [] m = some m
check_each now ((name, s) ∷ states) m =
    elim (if is_due now s then restart_container name m else some m) [
      | none ↦ none
      | some m1 ↦ elim (check_each now states m1) [
        | none ↦ none
        | some m2 ↦ some (record m2 { states = (name, settle_state now s) ∷ m2.states })
      ]
    ]

-- checkStates, where `none` is a panic in the goroutine of the monitor, which ends the process.
unfoldable pub check_states : ℕ → HealthMonitor → Option HealthMonitor
unfolding check_each
check_states now m = check_each now m.states (record m { states = [] })
