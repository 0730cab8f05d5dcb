-- ===== src/Sidecar/Routing/Routes.antt =====
-- What the router tells the handlers behind it.
use service_mesh.Base.{
  ℕ, ◌<◌, ◌%◌, length, get_elem?, get_elem?-some, some, refl, Bool-cases, str_eq, String, Bool,
  false, List, [], ◌∷◌, ◌≡◌, ◌≢◌, ◌⊎◌, inl, inr, arith, eq_iff, if◌then◌else◌, itoa, ap, ◌∙◌,
}
use service_mesh.Sidecar.Context.{Endpoint, ConnContext, get_string, get_bool}
use service_mesh.Sidecar.Context.Metadata.{metadata_laws}
use service_mesh.Sidecar.World.{World, NextFunc}
use service_mesh.Sidecar.Cache.{get_endpoints}
use service_mesh.Sidecar.Breaker.{BreakerMiddleware, breaker_handle}
use service_mesh.Sidecar.Routing.{
  RoutingMiddleware, at, join_host_port, select_index, select_endpoint, route, route_to,
  route_outbound, routing_handle,
}
use service_mesh.Sidecar.Routing.Rotation.{IsRoundRobin, turn, select_index-lt, select_index-turn}

-- What a context tells the breaker and the forwarder.
pub record Told : Type 0 where
  pub target_addr : String
  pub service : String
  pub in_mesh : Bool
  pub server_name : String
  pub breaker_key : String

unfoldable pub told : ConnContext → Told
told ctx = record {
  target_addr = get_string ctx "target_addr";
  service = get_string ctx "service";
  in_mesh = get_bool ctx "in_mesh";
  server_name = get_string ctx "server_name";
  breaker_key = get_string ctx "breaker_key";
}

told-route :
    (target service : String) (in_mesh : Bool) (server_name breaker_key : String)
    (ctx : ConnContext)
    → told (route target service in_mesh server_name breaker_key ctx) ≡ record {
      target_addr = target;
      service = service;
      in_mesh = in_mesh;
      server_name = server_name;
      breaker_key = breaker_key;
    }
unfolding told route
told-route target service in_mesh server_name breaker_key ctx = simp metadata_laws

module _ (m : RoutingMiddleware) (ctx : ConnContext) (next : NextFunc) (w : World) where
  -- A connection of an inbound listener goes to the application, outside the mesh and past the
  -- breaker; the state is as it was.
  pub inbound_route :
      (get_string ctx "listener" ≡ "inbound_plain") ⊎ (get_string ctx "listener" ≡ "inbound_mtls")
      → (c : ConnContext) × (routing_handle m ctx next w ≡ next c w)
        × (told c ≡ record {
          target_addr = m.app_target_addr;
          service = "local-app";
          in_mesh = false;
          server_name = "";
          breaker_key = "";
        })
  unfolding routing_handle
  inbound_route (inl plain) = (_, rw plain, told-route _ _ _ _ _ ctx)
  inbound_route (inr mtls) = (_, rw mtls, told-route _ _ _ _ _ ctx)

  abbrev IsOutbound : Type 0
  IsOutbound =
      (get_string ctx "listener" ≢ "inbound_plain") × (get_string ctx "listener" ≢ "inbound_mtls")

  outbound :
      IsOutbound
      → routing_handle m ctx next w ≡ route_outbound m (get_endpoints ctx.original_dst w) ctx next w
  unfolding routing_handle
  outbound h = ground (
    arith,
    eq_iff (get_string ctx "listener") "inbound_plain",
    eq_iff (get_string ctx "listener") "inbound_mtls",
  )

  -- An outbound connection to an address that the cache does not know goes to that address,
  -- outside the mesh and past the breaker; the state is as it was.
  pub external_route :
      IsOutbound
      → get_endpoints ctx.original_dst w ≡ []
      → (c : ConnContext) × (routing_handle m ctx next w ≡ next c w)
        × (told c ≡ record {
          target_addr = ctx.original_dst;
          service = "external";
          in_mesh = false;
          server_name = "";
          breaker_key = "";
        })
  unfolding route_outbound
  external_route h nothing = (_, outbound h ∙ rw nothing, told-route _ _ _ _ _ ctx)

  chosen_there :
      (first : Endpoint) (rest : List Endpoint)
      → ((seed b : ℕ) → 0 < b → m.intn seed b < b)
      → get_elem? (first ∷ rest) (select_index m ctx.original_dst (length (first ∷ rest)) w).0
        ≡ some (select_endpoint m ctx.original_dst first rest w).0
  unfolding select_endpoint
  chosen_there first rest bound =
      let n = length (first ∷ rest) in
      let i = (select_index m ctx.original_dst n w).0 in
      let below : i < n = select_index-lt m ctx.original_dst n w (omega arith) bound in
      let (e, there) = get_elem?-some (first ∷ rest) i below in rw (there, at) refl

  -- Whatever the policy is, a choice changes neither the breakers nor the cache.
  choice_keeps :
      (n : ℕ)
      → ((select_index m ctx.original_dst n w).1.breakers ≡ w.breakers)
        × ((select_index m ctx.original_dst n w).1.by_key ≡ w.by_key)
  unfolding select_index
  choice_keeps n = elim (Bool-cases (str_eq m.load_balancer_policy "none")) [
    | inl fixed ↦ rw (select_index, fixed) (refl, refl)
    | inr chosen ↦ elim (Bool-cases (str_eq m.load_balancer_policy "random")) [
      | inl drawn ↦ rw (select_index, chosen, drawn) (refl, refl)
      | inr turns ↦ rw (select_index, chosen, turns) (refl, refl)
    ]
  ]

  -- An outbound connection to a known address goes to the sidecar of one of the endpoints that the
  -- cache has for the address, with round-robin to that whose turn it is: by mutual TLS under the
  -- name of its service if that is enabled, and in plain text otherwise; the breaker is that of the
  -- target address, and the breakers and the cache are as they were. The random source has to keep
  -- its own bound.
  pub mesh_route :
      (first : Endpoint) (rest : List Endpoint)
      → IsOutbound
      → get_endpoints ctx.original_dst w ≡ first ∷ rest
      → ((seed b : ℕ) → 0 < b → m.intn seed b < b)
      → (i : ℕ) × (chosen : Endpoint) × (c : ConnContext) × (w1 : World) × (get_elem?
            (first ∷ rest)
            i
          ≡ some chosen)
        × (IsRoundRobin m → i ≡ turn m ctx.original_dst w % length (first ∷ rest))
        × (w1.breakers ≡ w.breakers)
        × (w1.by_key ≡ w.by_key)
        × (routing_handle m ctx next w ≡ next c w1)
        × (let target =
              join_host_port chosen.ip
                (itoa (if m.mtls_enabled then m.inbound_mtls_port else m.inbound_plain_port)) in
            told c ≡ record {
              target_addr = target;
              service = chosen.service_name;
              in_mesh = m.mtls_enabled;
              server_name = if m.mtls_enabled then chosen.service_name else "";
              breaker_key = target;
            })
  unfolding route_outbound route_to select_endpoint
  mesh_route first rest h known bound =
      let n = length (first ∷ rest) in
      let (breakers, cache) = choice_keeps n in
      (
        (select_index m ctx.original_dst n w).0,
        (select_endpoint m ctx.original_dst first rest w).0,
        route_to m (select_endpoint m ctx.original_dst first rest w).0 ctx,
        (select_index m ctx.original_dst n w).1,
        chosen_there first rest bound,
        λ robin. (select_index-turn m ctx.original_dst n w robin).0,
        breakers,
        cache,
        outbound h ∙ rw known refl,
        told-route _ _ _ _ _ ctx,
      )

breaker_bypass :
    (b : BreakerMiddleware) (c : ConnContext) (next : NextFunc) (w : World)
    → (told c).breaker_key ≡ ""
    → breaker_handle b c next w ≡ next c w
unfolding told breaker_handle
breaker_bypass b c next w h = rw h

route_bypass :
    (b : BreakerMiddleware) (target service : String) (in_mesh : Bool) (server_name : String)
    (ctx : ConnContext) (next : NextFunc) (w : World)
    → breaker_handle b (route target service in_mesh server_name "" ctx) next w
      ≡ next (route target service in_mesh server_name "" ctx) w
route_bypass b target service in_mesh server_name ctx next w =
    breaker_bypass b _ next w
      (ap (λ (t : Told). t.breaker_key) (told-route target service in_mesh server_name "" ctx))

-- For a connection that is inbound, or outbound to an unknown address, a breaker behind the
-- router changes nothing, whatever its state.
pub routing_bypasses_breaker :
    (m : RoutingMiddleware) (b : BreakerMiddleware) (ctx : ConnContext) (next : NextFunc)
    (w : World)
    → ((get_string ctx "listener" ≡ "inbound_plain")
        ⊎ ((get_string ctx "listener" ≡ "inbound_mtls") ⊎ (get_endpoints ctx.original_dst w ≡ [])))
    → routing_handle m ctx (λ c v. breaker_handle b c next v) w ≡ routing_handle m ctx next w
unfolding routing_handle route_outbound
routing_bypasses_breaker m b ctx next w (inl plain) =
    rw plain (route_bypass b m.app_target_addr "local-app" false "" ctx next w)
routing_bypasses_breaker m b ctx next w (inr (inl mtls)) =
    rw mtls (route_bypass b m.app_target_addr "local-app" false "" ctx next w)
routing_bypasses_breaker m b ctx next w (inr (inr nothing)) = rw nothing (
    ground (
      arith,
      route_bypass b m.app_target_addr "local-app" false "" ctx next w,
      route_bypass b ctx.original_dst "external" false "" ctx next w,
    ))
