-- ===== src/Sidecar/Cache.antt =====
-- k8s/mesh/sidecar/internal/adapters/discovery/cache.go: the endpoints by service key and by
-- cluster key. The lock makes each operation atomic, and the copies that it makes keep the lists
-- of the callers apart, so lists are values here.
pub mod Lookup
use service_mesh.Base.{ℕ, String, Option, none, some, List, [], ◌∷◌, if◌then◌else◌, str_eq, length}
use service_mesh.Base.Table.{Table, find, put}
use service_mesh.Sidecar.Context.{Endpoint}
use service_mesh.Sidecar.World.{World, set_endpoints_ready}

pub record CachedService : Type 0 where
  pub service_key : String
  pub cluster_key : String
  pub service_label : String
  pub endpoints : List Endpoint

unfoldable pub get_endpoints : String → World → List Endpoint
get_endpoints key w = elim (find key w.by_key) [ none ↦ [] | some endpoints ↦ endpoints ]

-- One round of the loop of `Replace`.
unfoldable pub enter : CachedService → Table (List Endpoint) → Table (List Endpoint)
enter service next =
    let by_name = put service.service_key service.endpoints next in
    if str_eq service.cluster_key ""
    then by_name
    else put service.cluster_key service.endpoints by_name

unfoldable pub enter_all : List CachedService → Table (List Endpoint) → Table (List Endpoint)
unfolding enter
enter_all [] next = next
enter_all (service ∷ services) next = enter_all services (enter service next)

-- The observer is the recorder, and is told in the same round.
ready_all : List CachedService → World → World
ready_all [] w = w
ready_all (service ∷ services) w =
    ready_all services (set_endpoints_ready service.service_label (length service.endpoints) w)

unfoldable pub replace : List CachedService → World → World
unfolding enter_all ready_all
replace services w = record (ready_all services w) { by_key = enter_all services [] }
