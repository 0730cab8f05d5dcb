-- ===== src/Hook/Ports.antt =====
-- collectInboundPorts and deriveAppTargetAddr of k8s/mesh/hook/internal/app/injector/service.go.
pub mod Exposed
pub mod Lowest
use service_mesh.Base.{
  ℕ, zero, suc, ◌+◌, String, Bool, true, false, List, [], ◌∷◌, ◌≡◌, refl, ◌&&◌, ◌||◌, not, arith,
  map, ◌==◌, ltb, leb, if◌then◌else◌, str_eq, itoa, ◌<>◌, split_on,
}
use service_mesh.Base.Int.{ℤ, pos, negsuc}
use service_mesh.Base.Sort.{sort, has, distinct, increasing, has-sort, increasing-sort}
use service_mesh.Base.Space.{trim_space, trim_space_same, is_space, all_codes}
use service_mesh.Hook.{Container, ContainerPort}

-- unique[port] = struct{}{}
put_port : ℕ → List ℕ → List ℕ
put_port n [] = n ∷ []
put_port n (k ∷ ks) = let rest = put_port n ks in if k == n then k ∷ ks else k ∷ rest

-- A port that is not positive is passed over.
take_port : ℤ → List ℕ → List ℕ
unfolding put_port
take_port (pos zero) unique = unique
take_port (pos (suc n)) unique = put_port (suc n) unique
take_port (negsuc n) unique = unique

-- The loop over the ports of a container.
put_ports : List ContainerPort → List ℕ → List ℕ
unfolding take_port
put_ports [] unique = unique
put_ports (p ∷ ps) unique = put_ports ps (take_port p.container_port unique)

-- The loop over the containers.
put_containers : List Container → List ℕ → List ℕ
unfolding put_ports
put_containers [] unique = unique
put_containers (c ∷ cs) unique =
    put_containers cs (if str_eq c.name "sidecar" then unique else put_ports c.ports unique)

-- `ports` after sort.Ints.
unfoldable pub inbound_ports : List Container → List ℕ
unfolding put_containers
inbound_ports cs = sort ltb (put_containers cs [])

-- strings.Join with a comma.
unfoldable pub join : List String → String
join [] = ""
join (s ∷ []) = s
join (s ∷ t ∷ ts) = s <> "," <> join (t ∷ ts)

unfoldable pub collect_inbound_ports : List Container → String
unfolding inbound_ports join
collect_inbound_ports cs = join (map itoa (inbound_ports cs))

-- inboundPorts[:idx] at the first comma, or the whole text.
first_port : String → String
first_port s = elim (split_on b',' s) [ [] ↦ s | first ∷ _ ↦ first ]

local_addr : String → String
local_addr first = if str_eq first "" then "127.0.0.1:8080" else "127.0.0.1:" <> first

unfoldable pub derive_app_target_addr : String → String
unfolding first_port local_addr
derive_app_target_addr inbound_ports =
    let trimmed = trim_space inbound_ports in
    if str_eq trimmed "" then "127.0.0.1:8080" else local_addr (trim_space (first_port trimmed))
