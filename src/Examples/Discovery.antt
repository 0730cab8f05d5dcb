-- ===== src/Examples/Discovery.antt =====
-- A cluster with a service whose pods listen at another port than the service has.
use service_mesh.Base.{String, true, false, none, some, List, [], ◌∷◌, ◌≡◌, refl, differ, has_code}
use service_mesh.Base.Text.{itoa}
use service_mesh.Base.Table.{find, put}
use service_mesh.Sidecar.Context.{ConnContext, get_string}
use service_mesh.Sidecar.Cache.Lookup.{answers_to}
use service_mesh.Sidecar.Routing.{routing_handle, join_host_port}
use service_mesh.Sidecar.Routing.Routes.{told}
use service_mesh.Sidecar.Discovery.{
  KubeService, EndpointSlice, SliceEndpoint, ServiceMeta, endpoints_at, add_services,
  add_service_ports, add_slices, relist, is_known, build_service_key, slice_name,
}
use service_mesh.Sidecar.Discovery.Offers.{slices_offer, ports_offer, open_port}
use service_mesh.Sidecar.Discovery.Offered.{gathered_are_offered}
use service_mesh.Sidecar.Discovery.Bypassed.{offers_nothing, unoffered_port_bypasses}
use service_mesh.Examples.{world, router, outgoing, succeeds}

abbrev cart : KubeService
cart = record { name = "cart"; namespace = "default"; cluster_ip = "10.0.0.5"; ports = 80 ∷ [] }

abbrev pods : List SliceEndpoint
pods =
    record { ready = some true; addresses = "10.1.0.1" ∷ [] }
    ∷ record { ready = none; addresses = "10.1.0.2" ∷ [] }
    ∷ []

-- The targetPort of the service is 8080.
abbrev cart_pods : EndpointSlice
cart_pods = record {
  service_name = some "cart";
  ports = record { port = some 8080; protocol = some "TCP" } ∷ [];
  endpoints = pods;
}

abbrev same_port : EndpointSlice
same_port = record cart_pods { ports = record { port = some 80; protocol = none } ∷ [] }

unoffered_port_bypasses_example :
    let w1 = (relist "default" (some (cart ∷ [])) (some (cart_pods ∷ [])) world).1 in
    (c : ConnContext) × (routing_handle router outgoing succeeds w1 ≡ succeeds c w1)
    × (told c ≡ record {
      target_addr = "10.0.0.5:80";
      service = "external";
      in_mesh = false;
      server_name = "";
      breaker_key = "";
    })
unfolding get_string find put offers_nothing add_services add_service_ports answers_to slices_offer
    ports_offer slice_name open_port build_service_key itoa join_host_port has_code
unoffered_port_bypasses_example =
    unoffered_port_bypasses router outgoing succeeds world "default" (cart ∷ []) (cart_pods ∷ [])
      (differ "outbound" "inbound_plain" refl) (differ "outbound" "inbound_mtls" refl) refl

abbrev metas : List (String × ServiceMeta)
metas = add_services (cart ∷ []) []

gathered_are_offered_example :
    endpoints_at "cart:80" (add_slices metas "default" (same_port ∷ []) [])
    ≡ slices_offer "cart:80" "default" (same_port ∷ [])
unfolding is_known find put add_services add_service_ports build_service_key itoa
gathered_are_offered_example = gathered_are_offered "cart:80" "default" metas refl (same_port ∷ [])
