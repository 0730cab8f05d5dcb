-- ===== src/Sidecar/Cache/Lookup.antt =====
-- What the cache holds after `Replace`.
use service_mesh.Base.{
  String, Bool, Option, none, some, List, [], ◌∷◌, ◌≡◌, refl, arith, str_eq, if◌then◌else◌, ◌||◌,
  ◌&&◌, not,
}
use service_mesh.Base.Table.{Table, find, put, find-put}
use service_mesh.Sidecar.Context.{Endpoint}
use service_mesh.Sidecar.World.{World}
use service_mesh.Sidecar.Cache.{CachedService, get_endpoints, enter, enter_all, replace}

-- Whether a service is known under a key: by its name and port, or by its cluster address.
unfoldable pub answers_to : String → CachedService → Bool
answers_to key s =
    str_eq s.service_key key || (not (str_eq s.cluster_key "") && str_eq s.cluster_key key)

unfoldable pub or_empty : Option (List Endpoint) → List Endpoint
or_empty none = []
or_empty (some endpoints) = endpoints

-- The endpoints of the last service in the list that is known under the key.
unfoldable pub last_answer :
    String → List CachedService → Option (List Endpoint) → Option (List Endpoint)
last_answer key [] found = found
last_answer key (s ∷ services) found =
    last_answer key services (if answers_to key s then some s.endpoints else found)

find-enter :
    (key : String) (s : CachedService) (t : Table (List Endpoint))
    → find key (enter s t) ≡ (if answers_to key s then some s.endpoints else find key t)
unfolding enter answers_to
find-enter key s t = ground (
  arith,
  find-put s.service_key key s.endpoints t,
  find-put s.cluster_key key s.endpoints (put s.service_key s.endpoints t),
)

find-enter_all :
    (key : String) (services : List CachedService) (t : Table (List Endpoint))
    → find key (enter_all services t) ≡ last_answer key services (find key t)
unfolding enter_all last_answer
find-enter_all key [] t = refl
find-enter_all key (s ∷ services) t =
    rw (find-enter_all key services (enter s t), find-enter key s t) refl

-- After `Replace` a key has the endpoints of the last service that is known under it, and no
-- endpoints where none is: nothing of the former contents is left.
pub get_endpoints-replace :
    (key : String) (services : List CachedService) (w : World)
    → get_endpoints key (replace services w) ≡ or_empty (last_answer key services none)
unfolding get_endpoints replace or_empty find
get_endpoints-replace key services w = rw (find-enter_all key services [], get_endpoints)
