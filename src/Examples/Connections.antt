-- ===== src/Examples/Connections.antt =====
-- Connections through the whole chain, and through its parts.
use service_mesh.Base.{◌≡◌, refl, arith, none, some, [], ◌∷◌, ◌++◌}
use service_mesh.Sidecar.Observe.{metrics_handle}
use service_mesh.Sidecar.Observe.Labels.{newest_request, status_of}
use service_mesh.Sidecar.Service.{serve, dispatch, outbound, inbound_mtls, direction_for_profile}
use service_mesh.Sidecar.Service.Chain.{dispatch-append}
use service_mesh.Sidecar.Service.Journeys.{timeout_label, inbound_success}
use service_mesh.Examples.{world, tripped, settings, accepted, routed, succeeds}

timeout_label_example :
    newest_request (serve settings outbound accepted succeeds world).2.samples
    ≡ some ("external", status_of (serve settings outbound accepted succeeds world).0, "outbound")
unfolding direction_for_profile
timeout_label_example = timeout_label settings outbound accepted succeeds world (omega arith)

inbound_success_example : (serve settings inbound_mtls accepted succeeds tripped).0 ≡ none
inbound_success_example =
    inbound_success settings succeeds (λ c v. refl) inbound_mtls accepted tripped
      (λ e. ground arith)

dispatch-append_example :
    dispatch ((metrics_handle ∷ []) ++ metrics_handle ∷ []) routed succeeds world
    ≡ dispatch
        (metrics_handle ∷ [])
        routed
        (λ c v. dispatch (metrics_handle ∷ []) c succeeds v)
        world
dispatch-append_example =
    dispatch-append (metrics_handle ∷ []) (metrics_handle ∷ []) routed succeeds world
