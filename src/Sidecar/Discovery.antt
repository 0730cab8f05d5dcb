-- ===== src/Sidecar/Discovery.antt =====
-- relist and what it calls of k8s/mesh/sidecar/internal/adapters/discovery/controller.go: the services
-- and the endpoint slices of the cluster, translated into the entries of the cache. What the two
-- lists of the Kubernetes client give is an input; ports are not negative there.
pub mod Offers
pub mod Offered
pub mod Bypassed
use service_mesh.Base.{
  ℕ, suc, String, Bool, true, false, Option, none, some, List, [], ◌∷◌, ◌++◌, ◌||◌, not, ltb,
  if◌then◌else◌, str_eq, itoa, ◌<>◌, length, map,
}
use service_mesh.Base.Table.{Table, find, put}
use service_mesh.Sidecar.Context.{Endpoint}
use service_mesh.Sidecar.World.{World}
use service_mesh.Sidecar.Routing.{join_host_port}
use service_mesh.Sidecar.Cache.{CachedService, replace}

-- Of corev1.Service what is read.
pub record KubeService : Type 0 where
  pub name : String
  pub namespace : String
  pub cluster_ip : String
  pub ports : List ℕ

pub record SlicePort : Type 0 where
  pub port : Option ℕ
  pub protocol : Option String

pub record SliceEndpoint : Type 0 where
  pub ready : Option Bool
  pub addresses : List String

-- Of discoveryv1.EndpointSlice what is read, with the label that names its service.
pub record EndpointSlice : Type 0 where
  pub service_name : Option String
  pub ports : List SlicePort
  pub endpoints : List SliceEndpoint

pub record ServiceMeta : Type 0 where
  pub cluster_key : String
  pub service_label : String

unfoldable pub build_service_key : String → ℕ → String
build_service_key service_name port = service_name <> ":" <> itoa port

unfoldable pub build_service_fqdn : String → String → String
build_service_fqdn service_name namespace = service_name <> "." <> namespace <> ".svc.cluster.local"

-- The loop over the ports of a service.
unfoldable pub add_service_ports : KubeService → List ℕ → Table ServiceMeta → Table ServiceMeta
unfolding build_service_key build_service_fqdn
add_service_ports service [] services = services
add_service_ports service (port ∷ ports) services = add_service_ports service ports (
    put (build_service_key service.name port)
      (record {
        cluster_key = join_host_port service.cluster_ip (itoa port);
        service_label = build_service_fqdn service.name service.namespace;
      })
      services)

-- serviceMap after the loop over the services.
unfoldable pub add_services : List KubeService → Table ServiceMeta → Table ServiceMeta
unfolding add_service_ports
add_services [] services = services
add_services (service ∷ rest) services = add_services rest (
    if str_eq service.cluster_ip "" || str_eq service.cluster_ip "None"
    then services
    else add_service_ports service service.ports services)

-- m[k] of a map of lists.
unfoldable pub endpoints_at : String → Table (List Endpoint) → List Endpoint
endpoints_at key aggregated = elim (find key aggregated) [ none ↦ [] | some endpoints ↦ endpoints ]

-- The loop over the addresses of an endpoint.
unfoldable pub add_addresses :
    String → ℕ → String → List String → Table (List Endpoint) → Table (List Endpoint)
unfolding endpoints_at
add_addresses key port label [] aggregated = aggregated
add_addresses key port label (address ∷ addresses) aggregated =
    add_addresses key port label addresses (
      put key
        (endpoints_at key aggregated
          ++ record { ip = address; port = port; service_name = label } ∷ [])
        aggregated)

-- An endpoint of which nothing is said counts as ready.
unfoldable pub is_ready : SliceEndpoint → Bool
is_ready endpoint = elim endpoint.ready [ none ↦ true | some ready ↦ ready ]

unfoldable pub add_endpoints :
    String → ℕ → String → List SliceEndpoint → Table (List Endpoint) → Table (List Endpoint)
unfolding add_addresses is_ready
add_endpoints key port label [] aggregated = aggregated
add_endpoints key port label (endpoint ∷ endpoints) aggregated =
    add_endpoints key port label endpoints (
      if is_ready endpoint
      then add_addresses key port label endpoint.addresses aggregated
      else aggregated)

-- The number of a port that is passed on: one with a number, and with TCP if a protocol is named.
unfoldable pub tcp_port : SlicePort → Option ℕ
tcp_port p = elim p.protocol [
  | none ↦ p.port
  | some protocol ↦ if str_eq protocol "TCP" then p.port else none
]

unfoldable pub is_known : String → Table ServiceMeta → Bool
is_known key services = elim (find key services) [ none ↦ false | some meta ↦ true ]

-- One port of a slice.
unfoldable pub add_port :
    Table ServiceMeta
    → String
    → String
    → EndpointSlice
    → Option ℕ
    → Table (List Endpoint)
    → Table (List Endpoint)
unfolding add_endpoints is_known build_service_key build_service_fqdn
add_port services namespace name slice none aggregated = aggregated
add_port services namespace name slice (some port) aggregated =
    let key = build_service_key name port in
    if is_known key services
    then add_endpoints key port (build_service_fqdn name namespace) slice.endpoints aggregated
    else aggregated

unfoldable pub add_ports :
    Table ServiceMeta
    → String
    → String
    → EndpointSlice
    → List SlicePort
    → Table (List Endpoint)
    → Table (List Endpoint)
unfolding add_port tcp_port
add_ports services namespace name slice [] aggregated = aggregated
add_ports services namespace name slice (p ∷ ps) aggregated =
    add_ports services namespace name slice ps
      (add_port services namespace name slice (tcp_port p) aggregated)

-- The name of the service that a slice belongs to.
unfoldable pub slice_name : EndpointSlice → String
slice_name slice = elim slice.service_name [ none ↦ "" | some name ↦ name ]

-- `aggregated` after the loop over the slices.
unfoldable pub add_slices :
    Table ServiceMeta → String → List EndpointSlice → Table (List Endpoint) → Table (List Endpoint)
unfolding add_ports slice_name
add_slices services namespace [] aggregated = aggregated
add_slices services namespace (slice ∷ slices) aggregated = add_slices services namespace slices (
    if str_eq (slice_name slice) ""
    then aggregated
    else add_ports services namespace (slice_name slice) slice slice.ports aggregated)

-- The loop of dedupeEndpoints. Go leaves the order of its result open.
unique_endpoints : List Endpoint → Table Endpoint → Table Endpoint
unfolding join_host_port
unique_endpoints [] unique = unique
unique_endpoints (e ∷ es) unique =
    unique_endpoints es (put (join_host_port e.ip (itoa e.port)) e unique)

unfoldable pub dedupe_endpoints : List Endpoint → List Endpoint
unfolding unique_endpoints
dedupe_endpoints endpoints =
    if ltb (length endpoints) 2
    then endpoints
    else map (λ entry. entry.1) (unique_endpoints endpoints [])

-- The loop over `serviceMap`.
unfoldable pub cache_entries : Table ServiceMeta → Table (List Endpoint) → List CachedService
unfolding dedupe_endpoints
cache_entries [] aggregated = []
cache_entries ((key, meta) ∷ services) aggregated =
    record {
      service_key = key;
      cluster_key = meta.cluster_key;
      service_label = meta.service_label;
      endpoints = dedupe_endpoints (endpoints_at key aggregated);
    }
    ∷ cache_entries services aggregated

-- The errors of relist, which are wrapped as errors of the discovery.
pub data ListError : Type 0 where
  list_services list_endpointslices : ListError

-- relist in a namespace, where `none` is a list that failed.
unfoldable pub relist :
    String
    → Option (List KubeService)
    → Option (List EndpointSlice)
    → World
    → Option ListError × World
unfolding cache_entries add_services add_slices
relist namespace none slices w = (some list_services, w)
relist namespace (some services) none w = (some list_endpointslices, w)
relist namespace (some services) (some slices) w =
    let metas = add_services services [] in
    (none, replace (cache_entries metas (add_slices metas namespace slices [])) w)
