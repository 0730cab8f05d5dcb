-- ===== src/Plane/Reach.antt =====
-- The states that requests lead to, one after another, from a new registry.
use service_mesh.Base.{
  String, true, Option, some, List, [], ◌∷◌, ◌≡◌, ◌≢◌, ◌⊎◌, inl, inr, refl, arith, split_on,
  Option-cases,
}
use service_mesh.Base.Table.{find}
use service_mesh.Plane.{
  Service, Mesh, Answer, serves, bad_request, not_found, done, invalid_host, panicked, new, idx_of,
  register, discover, get_address, address_at, take_turn, release,
}
use service_mesh.Plane.Turns.{InTurn, plane-InTurn, relock, take_turn-serves}

pub data Reachable : Mesh → Type 0 where
  started : Reachable new
  registered :
      (body : Option Service) (m m1 : Mesh) (a : Answer)
      → Reachable m
      → register body m ≡ some (a, m1)
      → Reachable m1
  discovered :
      (name : String) (m m1 : Mesh) (a : Answer)
      → Reachable m
      → discover name m ≡ some (a, m1)
      → Reachable m1
  addressed :
      (host : String) (m m1 : Mesh) (a : Answer)
      → Reachable m
      → get_address host m ≡ some (a, m1)
      → Reachable m1

new-InTurn : InTurn new
unfolding idx_of find
new-InTurn = record { in_range = λ name services h. ground arith; at_start = λ name h. refl }

-- In every state that requests lead to, the turn of each registered name is one of its services.
pub Reachable-InTurn : (m : Mesh) → Reachable m → InTurn m
Reachable-InTurn _ started = new-InTurn
Reachable-InTurn _ (registered body m0 m1 a r h) =
    plane-InTurn.0 body m0 m1 a h (Reachable-InTurn m0 r)
Reachable-InTurn _ (discovered name m0 m1 a r h) =
    plane-InTurn.1 name m0 m1 a h (Reachable-InTurn m0 r)
Reachable-InTurn _ (addressed host m0 m1 a r h) =
    plane-InTurn.2 host m0 m1 a h (Reachable-InTurn m0 r)

release-answer : (r : Answer × Mesh) → (release r).0 ≡ r.0
unfolding release
release-answer (bad_request, m) = refl
release-answer (not_found, m) = refl
release-answer (done, m) = refl
release-answer (invalid_host, m) = refl
release-answer (panicked, m) = refl
release-answer (serves s, m) = refl

pub turn_serves :
    (name : String) (services : List Service) (m : Mesh)
    → find name m.registry ≡ some services
    → InTurn m
    → (take_turn name services m).0 ≢ panicked
turn_serves name services m there turn =
    let (s, found, taken) = take_turn-serves name services m (turn.in_range name services there) in
    rw taken (λ e. ground arith)

discover_answers :
    (name : String) (m m1 : Mesh) (a : Answer)
    → InTurn m
    → discover name m ≡ some (a, m1)
    → a ≢ panicked
unfolding discover
discover_answers name m m1 a turn h =
    let held : Mesh = record m { locked = true } in
    elim (Option-cases (find name m.registry)) [
      | inl absent ↦ ground arith
      | inr (services, there) ↦ ground (
        arith,
        turn_serves name services held there (relock m true turn),
        release-answer (take_turn name services held),
      )
    ]

address_answers : (parts : List String) (m : Mesh) → InTurn m → (address_at parts m).0 ≢ panicked
unfolding address_at
address_answers [] m turn e = ground arith
address_answers (name ∷ []) m turn e = ground arith
address_answers (name ∷ domain ∷ []) m turn e = elim (Option-cases (find name m.registry)) [
  | inl absent ↦ ground arith
  | inr (services, there) ↦ ground (arith, turn_serves name services m there turn)
]
address_answers (name ∷ domain ∷ more ∷ parts) m turn e = ground arith

-- In every state that requests lead to, neither a request for a name nor a request to pass on
-- makes the code panic on an index out of range.
pub never_panics :
    (m m1 : Mesh) (name host : String) (a : Answer)
    → Reachable m
    → (discover name m ≡ some (a, m1)) ⊎ (get_address host m ≡ some (a, m1))
    → a ≢ panicked
unfolding get_address
never_panics m m1 name host a r (inl h) = discover_answers name m m1 a (Reachable-InTurn m r) h
never_panics m m1 name host a r (inr h) =
    let held : Mesh = record m { locked = true } in
    ground (arith, address_answers (split_on b'.' host) held (relock m true (Reachable-InTurn m r)))
