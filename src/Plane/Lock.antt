-- ===== src/Plane/Lock.antt =====
-- The mutex of the registry.
use service_mesh.Base.{String, true, false, none, some, ◌≡◌, ◌≢◌, refl, arith, eq_iff}
use service_mesh.Base.Table.{find}
use service_mesh.Plane.{Service, Mesh, not_found, register, discover, get_address}

-- A request for a name that nobody registered is answered, and leaves the mutex locked: from then
-- on every registration, every request for a name and every request to pass on waits for ever.
pub unknown_name_blocks :
    (name other host : String) (svc : Service) (m : Mesh)
    → name ≢ ""
    → other ≢ ""
    → m.locked ≡ false
    → find name m.registry ≡ none
    → (m1 : Mesh) × (discover name m ≡ some (not_found, m1))
      × (register (some svc) m1 ≡ none)
      × (discover other m1 ≡ none)
      × (get_address host m1 ≡ none)
unfolding register discover get_address
unknown_name_blocks name other host svc m named other_named free absent = (
  record m { locked = true },
  ground (arith, eq_iff name ""),
  refl,
  ground (arith, eq_iff other ""),
  refl,
)
