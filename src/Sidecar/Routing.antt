-- ===== src/Sidecar/Routing.antt =====
-- k8s/mesh/sidecar/internal/app/sidecar/middleware_routing.go: where a connection goes.
pub mod Rotation
pub mod Routes
use service_mesh.Base.{
  ℕ, zero, suc, ◌+◌, ◌%◌, String, Bool, true, false, Option, none, some, List, [], ◌∷◌,
  if◌then◌else◌, str_eq, ◌<>◌, ◌||◌, length, get_elem?, itoa, has_code,
}
use service_mesh.Base.Table.{Table, find, put}
use service_mesh.Sidecar.Context.{Endpoint, ConnContext, text, flag, get_string, set}
use service_mesh.Sidecar.World.{World, Reply, NextFunc}
use service_mesh.Sidecar.Cache.{get_endpoints}

-- `intn seed n` is what rand.Intn(n) gives, and `next_seed` the state after it.
pub record RoutingMiddleware : Type 0 where
  pub app_target_addr : String
  pub inbound_plain_port : ℕ
  pub inbound_mtls_port : ℕ
  pub mtls_enabled : Bool
  pub load_balancer_policy : String
  pub intn : ℕ → ℕ → ℕ
  pub next_seed : ℕ → ℕ

-- net.JoinHostPort: a host with a colon is put in brackets.
unfoldable pub join_host_port : String → String → String
join_host_port host port =
    if has_code b':' host then "[" <> host <> "]:" <> port else host <> ":" <> port

-- The element at an index into a list that is not empty. Go panics beyond the end; the theorems
-- about `select_endpoint` show that no index is there.
at : Endpoint → List Endpoint → ℕ → Endpoint
at first rest i = elim (get_elem? (first ∷ rest) i) [ none ↦ first | some e ↦ e ]

or_zero : Option ℕ → ℕ
or_zero none = 0
or_zero (some n) = n

-- The index that is chosen from `n` endpoints, and the state after the choice.
unfoldable pub select_index : RoutingMiddleware → String → ℕ → World → ℕ × World
unfolding or_zero
select_index m key n w =
    if str_eq m.load_balancer_policy "none"
    then (0, w)
    else if str_eq m.load_balancer_policy "random"
    then (m.intn w.seed n, record w { seed = m.next_seed w.seed })
    else (let idx = or_zero (find key w.round_robin) in
        (idx % n, record w { round_robin = put key ((idx + 1) % n) w.round_robin }))

-- `selectEndpoint`, which is called with at least one endpoint.
unfoldable pub select_endpoint :
    RoutingMiddleware → String → Endpoint → List Endpoint → World → Endpoint × World
unfolding at select_index
select_endpoint m key first rest w =
    let (i, w1) = select_index m key (length (first ∷ rest)) w in (at first rest i, w1)

-- The five writes into the metadata that every route makes.
route : String → String → Bool → String → String → ConnContext → ConnContext
route target service in_mesh server_name breaker_key ctx =
    set
      (set
        (set (set (set ctx "target_addr" (text target)) "service" (text service)) "in_mesh"
          (flag in_mesh))
        "server_name" (text server_name))
      "breaker_key" (text breaker_key)

route_to : RoutingMiddleware → Endpoint → ConnContext → ConnContext
unfolding route join_host_port
route_to m selected ctx =
    let target_port = if m.mtls_enabled then m.inbound_mtls_port else m.inbound_plain_port in
    let target_addr = join_host_port selected.ip (itoa target_port) in
    route target_addr selected.service_name m.mtls_enabled
      (if m.mtls_enabled then selected.service_name else "") target_addr ctx

route_outbound : RoutingMiddleware → List Endpoint → ConnContext → NextFunc → World → Reply
unfolding route route_to select_endpoint
route_outbound m [] ctx next w = next (route ctx.original_dst "external" false "" "" ctx) w
route_outbound m (first ∷ rest) ctx next w =
    let (selected, w1) = select_endpoint m ctx.original_dst first rest w in
    next (route_to m selected ctx) w1

unfoldable pub routing_handle : RoutingMiddleware → ConnContext → NextFunc → World → Reply
unfolding route route_outbound
routing_handle m ctx next w =
    if str_eq (get_string ctx "listener") "inbound_plain"
      || str_eq (get_string ctx "listener") "inbound_mtls"
    then next (route m.app_target_addr "local-app" false "" "" ctx) w
    else route_outbound m (get_endpoints ctx.original_dst w) ctx next w
