-- ===== src/Examples/Orchestrator.antt =====
-- The health monitor with one container.
use service_mesh.Base.{true, none, some, List, ◌++◌, [], ◌∷◌, ◌≡◌, refl, arith}
use service_mesh.Base.Table.{find}
use service_mesh.Orchestrator.{
  HealthMonitor, HealthState, ContainerInfo, healthy, check_states, handle_probe_report, new_state,
}
use service_mesh.Orchestrator.Checks.{due_names, settled, check_states_restarts_due}
use service_mesh.Orchestrator.Events.{Event, check, report, run, is_about}
use service_mesh.Orchestrator.Reports.{unknown_report_ends}

abbrev cart : ContainerInfo
cart = record {
  name = "cart-1";
  service_name = "cart";
  status = "running";
  restarts = 0;
  container_id = "c1";
  sidecar_id = "s1";
}

-- Heard of at 1000, and failing.
abbrev failing : HealthState
failing = record (new_state "cart-1") { liveness_fails = 3; last_liveness_time = 1000 }

abbrev watching : HealthMonitor
watching = record {
  containers = ("cart-1", cart) ∷ [];
  states = ("cart-1", failing) ∷ [];
  restarted = [];
}

-- The container was removed, and its state of health was not.
abbrev removed : HealthMonitor
removed = record watching { containers = [] }

check_states_restarts_due_example :
    (m1 : HealthMonitor) × (check_states 1030 watching ≡ some m1)
    × (m1.restarted ≡ "cart-1" ∷ [])
    × (m1.states ≡ ("cart-1", record failing { liveness_fails = 0 }) ∷ [])
unfolding due_names settled find
check_states_restarts_due_example = check_states_restarts_due 1030 watching ((cart, refl), tt)

-- A check every thirty seconds, and a report of another container.
abbrev meanwhile : List Event
meanwhile =
    check 1030
    ∷ report (record { container_name = "cart-1"; probe_name = "liveness"; status = healthy }) 1060
    ∷ check 1090
    ∷ []

unknown_report_ends_example :
    let told =
      handle_probe_report
        (record { container_name = "pay-1"; probe_name = "liveness"; status = healthy })
        1000
        watching in
    (told.0 ≡ true) × (run (meanwhile ++ check 1200 ∷ []) told.1 ≡ none)
unfolding find is_about
unknown_report_ends_example =
    unknown_report_ends "pay-1" healthy 1000 1200 meanwhile watching refl (omega arith)
      (omega arith) (refl, (refl, (refl, tt)))
