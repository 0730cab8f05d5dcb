-- ===== src/Plane/Turns.antt =====
-- Whose turn it is among the services of a name.
use service_mesh.Base.{
  ℕ, ◌+◌, ◌<◌, String, Bool, true, false, Option, none, some, List, [], ◌∷◌, ◌++◌, ◌≡◌, ◌⊎◌, arith,
  eq_iff, split_on, str_eq, if◌then◌else◌, ◌==◌, length, length-append, get_elem?, get_elem?-some,
  Option-cases, inl, inr,
}
use service_mesh.Base.Table.{find, find-put}
use service_mesh.Plane.{
  Service, Mesh, Answer, bad_request, not_found, done, invalid_host, panicked, serves, services_of,
  idx_of, enroll, register, advance, take_turn, release, discover, address_at, get_address,
}

-- A registered name has a service, and its turn is that of one of them; a name that is not
-- registered has had no turn.
pub record InTurn (m : Mesh) : Type 0 where
  pub in_range :
      (name : String) (services : List Service)
      → find name m.registry ≡ some services
      → idx_of name m < length services
  pub at_start : (name : String) → find name m.registry ≡ none → idx_of name m ≡ 0

pub take_turn-serves :
    (name : String) (services : List Service) (m : Mesh)
    → idx_of name m < length services
    → (s : Service) × (get_elem? services (idx_of name m) ≡ some s)
      × (take_turn name services m ≡ (serves s, advance name (length services) m))
unfolding take_turn
take_turn-serves name services m h =
    let (s, there) = get_elem?-some services (idx_of name m) h in (s, there, rw (there, take_turn))

-- What taking a turn does to the turns.
pub idx-advance :
    (name j : String) (n : ℕ) (m : Mesh)
    → idx_of j (advance name n m) ≡ (
        if str_eq name j
        then (if idx_of name m + 1 == n then 0 else idx_of name m + 1)
        else idx_of j m)
unfolding advance idx_of
idx-advance name j n m =
    ground (arith, find-put name j (if idx_of name m + 1 == n then 0 else idx_of name m + 1) m.idx)

advance-InTurn :
    (name : String) (services : List Service) (m : Mesh)
    → find name m.registry ≡ some services
    → InTurn m
    → InTurn (advance name (length services) m)
unfolding advance
advance-InTurn name services m there turn = record {
  in_range = λ j ss h. ground (
    arith,
    turn.in_range j ss,
    turn.in_range name services,
    eq_iff name j,
    idx-advance name j (length services) m,
  );
  at_start =
      λ j h. ground (arith, turn.at_start j, eq_iff name j, idx-advance name j (length services) m);
}

take_turn-InTurn :
    (name : String) (services : List Service) (m : Mesh)
    → find name m.registry ≡ some services
    → InTurn m
    → InTurn (take_turn name services m).1
take_turn-InTurn name services m there turn =
    let (s, found, taken) = take_turn-serves name services m (turn.in_range name services there) in
    rw taken (advance-InTurn name services m there turn)

-- The lock does not matter to the turns.
pub relock : (m : Mesh) (b : Bool) → InTurn m → InTurn (record m { locked = b })
unfolding idx_of
relock m b turn = record { in_range = turn.in_range; at_start = turn.at_start }

abbrev pub Keeps : (Mesh → Option (Answer × Mesh)) → Type 0
Keeps f = (m m1 : Mesh) (a : Answer) → f m ≡ some (a, m1) → InTurn m → InTurn m1

enroll-InTurn : (svc : Service) (m : Mesh) → InTurn m → InTurn (enroll svc m)
unfolding enroll services_of idx_of
enroll-InTurn svc m turn = record {
  in_range = λ j ss there. ground (
    arith,
    turn.in_range j ss,
    turn.in_range j (services_of svc.name m),
    turn.at_start j,
    eq_iff svc.name j,
    length-append (services_of svc.name m) (svc ∷ []),
    find-put svc.name j (services_of svc.name m ++ svc ∷ []) m.registry,
  );
  at_start = λ j absent.
      ground (
        arith,
        turn.at_start j,
        find-put svc.name j (services_of svc.name m ++ svc ∷ []) m.registry,
      );
}

register-InTurn : (body : Option Service) → Keeps (register body)
unfolding register
register-InTurn none m m1 a h turn = let same : m1 ≡ m = ground arith in rw same turn
register-InTurn (some svc) m m1 a h turn =
    let same : m1 ≡ enroll svc m = ground arith in rw same (enroll-InTurn svc m turn)

release-InTurn : (r : Answer × Mesh) → InTurn r.1 → InTurn (release r).1
unfolding release
release-InTurn (panicked, m) turn = turn
release-InTurn (bad_request, m) turn = relock m false turn
release-InTurn (not_found, m) turn = relock m false turn
release-InTurn (done, m) turn = relock m false turn
release-InTurn (invalid_host, m) turn = relock m false turn
release-InTurn (serves s, m) turn = relock m false turn

discover-InTurn : (name : String) → Keeps (discover name)
unfolding discover
discover-InTurn name m m1 a h turn =
    let held : Mesh = record m { locked = true } in
    let held_turn : InTurn held = relock m true turn in
    elim (Option-cases (find name m.registry)) [
      | inl absent ↦
          let same : (m1 ≡ m) ⊎ (m1 ≡ held) = ground arith in
          elim same [ inl e ↦ rw e turn | inr e ↦ rw e held_turn ]
      | inr (services, there) ↦
          let same : (m1 ≡ m) ⊎ (m1 ≡ (release (take_turn name services held)).1) = ground arith in
          elim same [
            | inl e ↦ rw e turn
            | inr e ↦ rw e (release-InTurn _ (take_turn-InTurn name services held there held_turn))
          ]
    ]

address_at-InTurn : (parts : List String) (m : Mesh) → InTurn m → InTurn (address_at parts m).1
unfolding address_at
address_at-InTurn [] m turn = turn
address_at-InTurn (name ∷ []) m turn = turn
address_at-InTurn (name ∷ domain ∷ []) m turn = elim (Option-cases (find name m.registry)) [
  | inl absent ↦ rw (absent, address_at) turn
  | inr (services, there) ↦ rw (there, address_at) (take_turn-InTurn name services m there turn)
]
address_at-InTurn (name ∷ domain ∷ more ∷ parts) m turn = turn

get_address-InTurn : (host : String) → Keeps (get_address host)
unfolding get_address
get_address-InTurn host m m1 a h turn =
    let parts : List String = split_on b'.' host in
    let held : Mesh = record m { locked = true } in
    let same : m1 ≡ record (address_at parts held).1 { locked = false } = ground arith in
    rw same (relock _ false (address_at-InTurn parts held (relock m true turn)))

-- The three operations that handle a request, whatever they answer, keep every turn in range.
pub plane-InTurn :
    ((body : Option Service) → Keeps (register body))
    × ((name : String) → Keeps (discover name))
    × ((host : String) → Keeps (get_address host))
plane-InTurn = (register-InTurn, discover-InTurn, get_address-InTurn)
