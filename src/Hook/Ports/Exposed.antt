-- ===== src/Hook/Ports/Exposed.antt =====
-- Which ports of a pod the sidecar takes over, and in which order they are told.
use service_mesh.Base.{
  ℕ, zero, suc, Bool, true, false, List, [], ◌∷◌, ◌≡◌, refl, ◌&&◌, ◌||◌, not, arith, ◌==◌, ltb,
  str_eq, Bool-cases, inl, inr,
}
use service_mesh.Base.Int.{ℤ, pos, negsuc, int_eq}
use service_mesh.Base.Sort.{has, distinct, increasing, has-sort, increasing-sort}
use service_mesh.Hook.{Container, ContainerPort}
use service_mesh.Hook.Ports.{put_port, take_port, put_ports, put_containers, inbound_ports}

-- Whether one of the ports is the positive number `n`.
unfoldable pub lists_port : ℕ → List ContainerPort → Bool
lists_port n [] = false
lists_port n (p ∷ ps) = (int_eq p.container_port (pos n) && ltb 0 n) || lists_port n ps

-- Whether a container other than the sidecar lists the port.
unfoldable pub exposes : ℕ → List Container → Bool
unfolding lists_port
exposes n [] = false
exposes n (c ∷ cs) = (not (str_eq c.name "sidecar") && lists_port n c.ports) || exposes n cs

has-put_port : (n k : ℕ) (ks : List ℕ) → has n (put_port k ks) ≡ (k == n || has n ks)
unfolding has put_port
has-put_port n k [] = ground arith
has-put_port n k (j ∷ ks) = ground (arith, has-put_port n k ks)

distinct-put_port : (k : ℕ) (ks : List ℕ) → distinct ks ≡ true → distinct (put_port k ks) ≡ true
unfolding distinct put_port has
distinct-put_port k [] h = refl
distinct-put_port k (j ∷ ks) h = ground (arith, distinct-put_port k ks, has-put_port j k ks)

has-take_port :
    (n : ℕ) (k : ℤ) (ks : List ℕ)
    → has n (take_port k ks) ≡ ((int_eq k (pos n) && ltb 0 n) || has n ks)
unfolding take_port
has-take_port n (pos zero) ks = ground arith
has-take_port n (pos (suc k)) ks = rw (has-put_port n (suc k) ks) (ground arith)
has-take_port n (negsuc k) ks = refl

distinct-take_port : (k : ℤ) (ks : List ℕ) → distinct ks ≡ true → distinct (take_port k ks) ≡ true
unfolding take_port
distinct-take_port (pos zero) ks h = h
distinct-take_port (pos (suc k)) ks h = distinct-put_port (suc k) ks h
distinct-take_port (negsuc k) ks h = h

has-put_ports :
    (n : ℕ) (ps : List ContainerPort) (unique : List ℕ)
    → has n (put_ports ps unique) ≡ (lists_port n ps || has n unique)
unfolding put_ports lists_port
has-put_ports n [] unique = refl
has-put_ports n (p ∷ ps) unique =
    rw
      (
        has-put_ports n ps (take_port p.container_port unique),
        has-take_port n p.container_port unique,
      )
      (ground arith)

distinct-put_ports :
    (ps : List ContainerPort) (unique : List ℕ)
    → distinct unique ≡ true
    → distinct (put_ports ps unique) ≡ true
unfolding put_ports
distinct-put_ports [] unique h = h
distinct-put_ports (p ∷ ps) unique h =
    distinct-put_ports ps (take_port p.container_port unique)
      (distinct-take_port p.container_port unique h)

has-put_containers :
    (n : ℕ) (cs : List Container) (unique : List ℕ)
    → has n (put_containers cs unique) ≡ (exposes n cs || has n unique)
unfolding put_containers exposes
has-put_containers n [] unique = refl
has-put_containers n (c ∷ cs) unique = elim (Bool-cases (str_eq c.name "sidecar")) [
  | inl own ↦ rw (own, has-put_containers n cs unique) refl
  | inr app ↦
      rw (app, has-put_containers n cs (put_ports c.ports unique), has-put_ports n c.ports unique)
        (ground arith)
]

distinct-put_containers :
    (cs : List Container) (unique : List ℕ)
    → distinct unique ≡ true
    → distinct (put_containers cs unique) ≡ true
unfolding put_containers
distinct-put_containers [] unique h = h
distinct-put_containers (c ∷ cs) unique h = elim (Bool-cases (str_eq c.name "sidecar")) [
  | inl own ↦ rw own (distinct-put_containers cs unique h)
  | inr app ↦
      rw app (
        distinct-put_containers cs (put_ports c.ports unique) (distinct-put_ports c.ports unique h))
]

-- The inbound ports that the hook finds in a pod's containers are in increasing order, so none is
-- there twice, and a number is one of them just when it is positive and a container that is not
-- named `sidecar` lists it.
pub inbound_ports_exposed :
    (cs : List Container) (n : ℕ)
    → (increasing (inbound_ports cs) ≡ true) × (has n (inbound_ports cs) ≡ exposes n cs)
unfolding inbound_ports distinct has
inbound_ports_exposed cs n = (
  increasing-sort (put_containers cs []) (distinct-put_containers cs [] refl),
  rw (has-sort n (put_containers cs []), has-put_containers n cs []) (ground arith),
)
