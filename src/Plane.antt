-- ===== src/Plane.antt =====
-- docker/control-plane/internal/app/http/plane/plane.go: the registry of services, and whose
-- turn it is. An operation that waits for a lock which nobody will release gives `none`.
pub mod Turns
pub mod Rotation
pub mod Lock
pub mod Reach
use service_mesh.Base.{
  ℕ, ◌+◌, String, Bool, true, false, Option, none, some, List, [], ◌∷◌, ◌++◌, if◌then◌else◌, ◌==◌,
  str_eq, length, get_elem?, split_on,
}
use service_mesh.Base.Table.{Table, find, put}

-- domain.Service.
pub record Service : Type 0 where
  pub name : String
  pub address : String

pub record Mesh : Type 0 where
  pub locked : Bool  -- mu
  pub registry : Table (List Service)
  pub idx : Table ℕ

abbrev pub new : Mesh
new = record { locked = false; registry = []; idx = [] }

-- What a handler answers; `panicked` is an index out of range.
pub data Answer : Type 0 where
  bad_request not_found done invalid_host panicked : Answer
  serves : Service → Answer

unfoldable pub services_of : String → Mesh → List Service
services_of name m = elim (find name m.registry) [ none ↦ [] | some services ↦ services ]

unfoldable pub idx_of : String → Mesh → ℕ
idx_of name m = elim (find name m.idx) [ none ↦ 0 | some i ↦ i ]

-- m.registry[svc.Name] = append(m.registry[svc.Name], &svc).
unfoldable pub enroll : Service → Mesh → Mesh
enroll svc m = record m { registry = put svc.name (services_of svc.name m ++ svc ∷ []) m.registry }

-- registerHandler: `none` is a body that cannot be decoded.
unfoldable pub register : Option Service → Mesh → Option (Answer × Mesh)
register none m = some (bad_request, m)
register (some svc) m = if m.locked then none else some (done, enroll svc m)

-- m.idx[name]++, and back to 0 at the end.
pub advance : String → ℕ → Mesh → Mesh
advance name n m =
    let i = idx_of name m + 1 in record m { idx = put name (if i == n then 0 else i) m.idx }

-- services[m.idx[name]] and the step to the next turn, with the lock held.
pub take_turn : String → List Service → Mesh → Answer × Mesh
unfolding advance
take_turn name services m = elim (get_elem? services (idx_of name m)) [
  | none ↦ (panicked, m)
  | some service ↦ (serves service, advance name (length services) m)
]

-- After the turn the lock is released, unless there was a panic: the release is not deferred.
pub release : Answer × Mesh → Answer × Mesh
release (panicked, m) = (panicked, m)
release (bad_request, m) = (bad_request, record m { locked = false })
release (not_found, m) = (not_found, record m { locked = false })
release (done, m) = (done, record m { locked = false })
release (invalid_host, m) = (invalid_host, record m { locked = false })
release (serves s, m) = (serves s, record m { locked = false })

-- discoverHandler, where the answer "not found" returns with the lock held.
unfoldable pub discover : String → Mesh → Option (Answer × Mesh)
unfolding take_turn release
discover name m =
    if str_eq name ""
    then some (bad_request, m)
    else if m.locked
    then none
    else (let held = record m { locked = true } in
        elim (find name m.registry) [
          | none ↦ some (not_found, held)
          | some services ↦ some (release (take_turn name services held))
        ])

-- `getAddress` with the lock held, by the parts of the host.
address_at : List String → Mesh → Answer × Mesh
unfolding take_turn
address_at (name ∷ domain ∷ []) m = elim (find name m.registry) [
  | none ↦ (not_found, m)
  | some services ↦ take_turn name services m
]
address_at parts m = (invalid_host, m)

-- getAddress: the deferred release comes on every path.
unfoldable pub get_address : String → Mesh → Option (Answer × Mesh)
unfolding address_at
get_address host m =
    if m.locked
    then none
    else (let (answer, m1) = address_at (split_on b'.' host) (record m { locked = true }) in
        some (answer, record m1 { locked = false }))
