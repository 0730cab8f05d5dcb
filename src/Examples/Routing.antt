-- ===== src/Examples/Routing.antt =====
-- Routes, and the endpoints that the cache knows.
use service_mesh.Base.{ℕ, ◌%◌, arith, some, get_elem?, ◌≡◌, inl, refl, true, [], ◌∷◌, itoa, differ}
use service_mesh.Base.Table.{find}
use service_mesh.Sidecar.Context.{Endpoint, ConnContext, get_string}
use service_mesh.Sidecar.Breaker.{breaker_handle}
use service_mesh.Sidecar.Cache.{CachedService, get_endpoints}
use service_mesh.Sidecar.Routing.{routing_handle, join_host_port}
use service_mesh.Sidecar.World.{World}
use service_mesh.Sidecar.Routing.Rotation.{IsRoundRobin, turn}
use service_mesh.Sidecar.Routing.Routes.{told, mesh_route, routing_bypasses_breaker}
use service_mesh.Examples.{
  world, tripped, breaker, router, inbound, outgoing, succeeds, fails_to_copy, first_pod,
  second_pod,
}

mesh_route_example :
    (i : ℕ) × (chosen : Endpoint) × (c : ConnContext) × (w1 : World) × (get_elem?
        (first_pod ∷ second_pod ∷ [])
        i
      ≡ some chosen)
    × (IsRoundRobin router → i ≡ turn router "10.0.0.5:80" world % 2)
    × (w1.breakers ≡ world.breakers)
    × (w1.by_key ≡ world.by_key)
    × (routing_handle router outgoing succeeds world ≡ succeeds c w1)
    × (let target = join_host_port chosen.ip (itoa 15008) in
        told c ≡ record {
          target_addr = target;
          service = chosen.service_name;
          in_mesh = true;
          server_name = chosen.service_name;
          breaker_key = target;
        })
unfolding get_string find get_endpoints
mesh_route_example =
    mesh_route router outgoing succeeds world first_pod (second_pod ∷ [])
      (differ "outbound" "inbound_plain" refl, differ "outbound" "inbound_mtls" refl) refl
      (λ seed b h. omega (arith, h))

routing_bypasses_breaker_example :
    routing_handle router inbound (λ c v. breaker_handle breaker c fails_to_copy v) tripped
    ≡ routing_handle router inbound fails_to_copy tripped
unfolding get_string find
routing_bypasses_breaker_example =
    routing_bypasses_breaker router breaker inbound fails_to_copy tripped (inl refl)

-- A service that replaces the one that was known.
abbrev pay : CachedService
pay = record {
  service_key = "10.0.0.9:80";
  cluster_key = "pay:80";
  service_label = "pay";
  endpoints = first_pod ∷ [];
}
