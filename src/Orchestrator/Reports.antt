-- ===== src/Orchestrator/Reports.antt =====
-- What reports of probes lead to.
use service_mesh.Base.{
  ℕ, ◌+◌, ◌<◌, ◌≤◌, String, true, false, ◌++◌, All, false, none, some, List, [], ◌∷◌, ◌≡◌, refl,
  ◌∙◌, arith, eq_refl, length,
}
use service_mesh.Base.Table.{find, put, find-put}
use service_mesh.Orchestrator.{
  HealthMonitor, HealthState, ContainerInfo, ProbeReport, ProbeStatus, healthy, unhealthy, unknown,
  probe_timeout, is_due, state_of, handle_probe_report, write_status, write_state, count_after,
  take_liveness,
}
use service_mesh.Orchestrator.Events.{Event, check, run, is_about, run-IsLost}

abbrev liveness : String → ProbeStatus → ProbeReport
liveness name status = record { container_name = name; probe_name = "liveness"; status = status }

write_status-unknown :
    (name : String) (change : String → String) (m : HealthMonitor)
    → find name m.containers ≡ none
    → write_status name change m ≡ (true, m)
unfolding write_status
write_status-unknown name change m absent = rw (absent, write_status) refl

write_status-known :
    (name : String) (change : String → String) (m : HealthMonitor) (info : ContainerInfo)
    → find name m.containers ≡ some info
    → write_status name change m ≡ (
      false,
      record m { containers = put name (record info { status = change info.status }) m.containers },
    )
unfolding write_status
write_status-known name change m info there = rw (there, write_status) refl

liveness-unknown :
    (status : ProbeStatus) (name : String) (now : ℕ) (s : HealthState) (m : HealthMonitor)
    → find name m.containers ≡ none
    → take_liveness (liveness name status) now s m
      ≡ (true, write_state name (record s { last_liveness_time = now }) m)
unfolding take_liveness count_after write_state
liveness-unknown healthy name now s m absent =
    rw
      (write_status-unknown name _ (write_state name (record s { last_liveness_time = now }) m)
        absent)
      refl
liveness-unknown unhealthy name now s m absent =
    rw
      (write_status-unknown name _ (write_state name (record s { last_liveness_time = now }) m)
        absent)
      refl
liveness-unknown unknown name now s m absent =
    rw
      (write_status-unknown name _ (write_state name (record s { last_liveness_time = now }) m)
        absent)
      refl

liveness-failed :
    (name : String) (now : ℕ) (s : HealthState) (m : HealthMonitor) (info : ContainerInfo)
    → find name m.containers ≡ some info
    → take_liveness (liveness name unhealthy) now s m ≡ (
      false,
      record {
        containers = put name (record info { status = "failed" }) m.containers;
        states =
            put name
              (record s { last_liveness_time = now; liveness_fails = s.liveness_fails + 1 })
              (put name (record s { last_liveness_time = now }) m.states);
        restarted = m.restarted;
      },
    )
unfolding take_liveness count_after write_state
liveness-failed name now s m info there =
    rw
      (write_status-known name _ (write_state name (record s { last_liveness_time = now }) m) info
        there)
      refl

-- A liveness report for a container that is not known panics after it has left a state of health. If
-- the container stays unknown, no other report of it comes, and a check comes more than three minutes
-- later, then that check panics where nothing recovers it, if none has before; whatever checks and
-- reports of other containers come in between.
pub unknown_report_ends :
    (name : String) (status : ProbeStatus) (now later : ℕ) (events : List Event) (m : HealthMonitor)
    → find name m.containers ≡ none
    → 0 < now
    → now + probe_timeout < later
    → All (λ e. is_about name e ≡ false) events
    → let told =
        handle_probe_report
          (record { container_name = name; probe_name = "liveness"; status = status })
          now
          m in
      (told.0 ≡ true) × (run (events ++ check later ∷ []) told.1 ≡ none)
unfolding handle_probe_report write_state
unknown_report_ends name status now later events m absent heard late others =
    let s : HealthState = record (state_of name m) { last_liveness_time = now } in
    let m0 : HealthMonitor = write_state name (state_of name m) m in
    rw (liveness-unknown status name now (state_of name m) m0 absent) (
      refl,
      run-IsLost name now later events (write_state name s m0)
          (record {
            state = s;
            absent = absent;
            there = rw (find-put name name, eq_refl name) refl;
            heard = refl;
          })
          heard late others,
    )

-- Unhealthy liveness reports of a container, at the instants.
unfoldable pub tell_failing : String → List ℕ → HealthMonitor → HealthMonitor
tell_failing name [] m = m
tell_failing name (now ∷ times) m =
    tell_failing name times
      (handle_probe_report
        (record { container_name = name; probe_name = "liveness"; status = unhealthy }) now m).1

failing_counts :
    (name : String) (now : ℕ) (m : HealthMonitor) (info : ContainerInfo)
    → find name m.containers ≡ some info
    → let m1 =
        (handle_probe_report
          (record { container_name = name; probe_name = "liveness"; status = unhealthy })
          now
          m).1 in
      ((state_of name m1).liveness_fails ≡ (state_of name m).liveness_fails + 1)
      × (find name m1.containers ≡ some (record info { status = "failed" }))
unfolding handle_probe_report write_state state_of
failing_counts name now m info there =
    rw
      (liveness-failed name now (state_of name m) (write_state name (state_of name m) m) info there)
      (
        rw (find-put name name, eq_refl name, state_of) refl,
        rw (find-put name name, eq_refl name) refl,
      )

failing-fails :
    (name : String) (times : List ℕ) (m : HealthMonitor) (info : ContainerInfo)
    → find name m.containers ≡ some info
    → (state_of name (tell_failing name times m)).liveness_fails
      ≡ (state_of name m).liveness_fails + length times
unfolding tell_failing
failing-fails name [] m info there = omega arith
failing-fails name (now ∷ times) m info there =
    let (counted, known) = failing_counts name now m info there in
    failing-fails name times _ _ known ∙ omega (arith, counted)

-- After three or more unhealthy liveness reports in a row for a known container, whatever it had
-- counted before, the next check is to restart it, whenever that comes.
failing_is_due :
    (name : String) (times : List ℕ) (now : ℕ) (m : HealthMonitor) (info : ContainerInfo)
    → find name m.containers ≡ some info
    → 3 ≤ length times
    → is_due now (state_of name (tell_failing name times m)) ≡ true
unfolding is_due
failing_is_due name times now m info there enough =
    ground (arith, failing-fails name times m info there)
