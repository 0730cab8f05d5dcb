-- ===== src/Sidecar/Discovery/Offers.antt =====
-- What slices of endpoints offer under a key, without the tables of relist.
use service_mesh.Base.{
  ℕ, String, Bool, true, Option, none, some, List, [], ◌∷◌, ◌++◌, if◌then◌else◌, str_eq,
}
use service_mesh.Sidecar.Context.{Endpoint}
use service_mesh.Sidecar.Discovery.{
  EndpointSlice, SlicePort, SliceEndpoint, build_service_key, build_service_fqdn, slice_name,
}

-- An endpoint stands unless it says that it is not ready.
unfoldable pub stands : Option Bool → Bool
stands none = true
stands (some ready) = ready

-- The addresses of an endpoint, and the ready endpoints of a slice, at a port.
unfoldable pub at_addresses : ℕ → String → List String → List Endpoint
at_addresses port label [] = []
at_addresses port label (address ∷ addresses) =
    record { ip = address; port = port; service_name = label } ∷ at_addresses port label addresses

unfoldable pub ready_at : ℕ → String → List SliceEndpoint → List Endpoint
unfolding at_addresses stands
ready_at port label [] = []
ready_at port label (endpoint ∷ endpoints) =
    if stands endpoint.ready
    then at_addresses port label endpoint.addresses ++ ready_at port label endpoints
    else ready_at port label endpoints

-- A port that may be offered: its number, unless it names a protocol that is not TCP.
unfoldable pub open_port : Option String → Option ℕ → Option ℕ
open_port none port = port
open_port (some protocol) port = if str_eq protocol "TCP" then port else none

-- What the ports of a slice offer under a key.
unfoldable pub ports_offer :
    String → String → String → EndpointSlice → List SlicePort → List Endpoint
unfolding ready_at open_port
ports_offer key namespace name slice [] = []
ports_offer key namespace name slice (p ∷ ps) =
    let rest = ports_offer key namespace name slice ps in
    elim (open_port p.protocol p.port) [
      | none ↦ rest
      | some port ↦
          if str_eq (build_service_key name port) key
          then ready_at port (build_service_fqdn name namespace) slice.endpoints ++ rest
          else rest
    ]

-- What slices offer under a key, in their order.
unfoldable pub slices_offer : String → String → List EndpointSlice → List Endpoint
unfolding ports_offer
slices_offer key namespace [] = []
slices_offer key namespace (slice ∷ slices) =
    let rest = slices_offer key namespace slices in
    if str_eq (slice_name slice) ""
    then rest
    else ports_offer key namespace (slice_name slice) slice slice.ports ++ rest
