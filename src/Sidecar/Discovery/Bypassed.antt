-- ===== src/Sidecar/Discovery/Bypassed.antt =====
-- Services whose pods listen at another port than the service has.
use service_mesh.Base.{
  String, Bool, true, false, Option, none, some, List, [], ◌∷◌, ◌≡◌, ◌≢◌, refl, ◌∙◌, inl, inr, ◌||◌,
  ◌&&◌, not, arith, All, if◌then◌else◌, str_eq, eq_refl, Bool-cases,
}
use service_mesh.Base.Table.{Table, find}
use service_mesh.Sidecar.Context.{Endpoint, ConnContext, get_string}
use service_mesh.Sidecar.World.{World, NextFunc}
use service_mesh.Sidecar.Cache.{CachedService, replace}
use service_mesh.Sidecar.Cache.Lookup.{answers_to, or_empty, last_answer, get_endpoints-replace}
use service_mesh.Sidecar.Routing.{RoutingMiddleware, routing_handle}
use service_mesh.Sidecar.Routing.Routes.{told, external_route}
use service_mesh.Sidecar.Discovery.{
  KubeService, EndpointSlice, ServiceMeta, endpoints_at, is_known, add_services, add_slices,
  dedupe_endpoints, cache_entries, relist,
}
use service_mesh.Sidecar.Discovery.Offers.{slices_offer}
use service_mesh.Sidecar.Discovery.Offered.{gathered_are_offered}

abbrev pub is_nil : List Endpoint → Bool
is_nil [] = true
is_nil (e ∷ es) = false

-- The entry of a port of a service, with endpoints.
abbrev entry_of : String → ServiceMeta → List Endpoint → CachedService
entry_of key meta endpoints = record {
  service_key = key;
  cluster_key = meta.cluster_key;
  service_label = meta.service_label;
  endpoints = endpoints;
}

-- Whether the slices offer nothing for all the ports of services that are known under an address.
unfoldable pub offers_nothing : String → Table ServiceMeta → String → List EndpointSlice → Bool
offers_nothing addr [] namespace slices = true
offers_nothing addr ((key, meta) ∷ services) namespace slices =
    (not (answers_to addr (entry_of key meta [])) || is_nil (slices_offer key namespace slices))
    && offers_nothing addr services namespace slices

weaken_known :
    (j : String) (v : ServiceMeta) (m entries : Table ServiceMeta)
    → All (λ (e : String × ServiceMeta). is_known e.0 m ≡ true) entries
    → All (λ (e : String × ServiceMeta). is_known e.0 ((j, v) ∷ m) ≡ true) entries
unfolding is_known find
weaken_known j v m [] h = tt
weaken_known j v m ((k, w) ∷ entries) (here, rest) = (
  elim (Bool-cases (str_eq j k)) [
    | inl same ↦ rw (is_known, find, same) refl
    | inr other ↦ rw (is_known, find, other) here
  ],
  weaken_known j v m entries rest,
)

every_service_known :
    (m : Table ServiceMeta) → All (λ (e : String × ServiceMeta). is_known e.0 m ≡ true) m
unfolding is_known find
every_service_known [] = tt
every_service_known ((j, v) ∷ m) =
    (rw (is_known, find, eq_refl j) refl, weaken_known j v m m (every_service_known m))

nil_of : (es : List Endpoint) → is_nil es ≡ true → es ≡ []
nil_of [] h = refl
nil_of (e ∷ es) h = absurd (ground arith)

-- An entry that answers has no endpoints, so what was found stays empty.
answer_step :
    (b : Bool) (found : Option (List Endpoint)) (es : List Endpoint)
    → or_empty found ≡ []
    → (b ≡ true → es ≡ [])
    → or_empty (if b then some es else found) ≡ []
unfolding or_empty
answer_step true found es h f = f refl
answer_step false found es h f = h

module _ (addr namespace : String) (slices : List EndpointSlice) (all : Table ServiceMeta) where
  entry_empty :
      (key : String) (meta : ServiceMeta)
      → is_known key all ≡ true
      → (not (answers_to addr (entry_of key meta [])) || is_nil (slices_offer key namespace slices))
        ≡ true
      → answers_to addr (entry_of key meta []) ≡ true
      → dedupe_endpoints (endpoints_at key (add_slices all namespace slices [])) ≡ []
  unfolding dedupe_endpoints
  entry_empty key meta known quiet answers =
      let none_offered : slices_offer key namespace slices ≡ [] =
        nil_of (slices_offer key namespace slices) (ground arith) in
      let gathered : endpoints_at key (add_slices all namespace slices []) ≡ [] =
        gathered_are_offered key namespace all known slices ∙ none_offered in
      rw gathered refl

  nothing_found :
      (services : Table ServiceMeta) (found : Option (List Endpoint))
      → All (λ (e : String × ServiceMeta). is_known e.0 all ≡ true) services
      → offers_nothing addr services namespace slices ≡ true
      → or_empty found ≡ []
      → or_empty
          (last_answer addr (cache_entries services (add_slices all namespace slices [])) found)
        ≡ []
  unfolding cache_entries last_answer offers_nothing answers_to
  nothing_found [] found known quiet h = h
  nothing_found ((key, meta) ∷ services) found (here, known) quiet h =
      nothing_found services _ known (ground arith) (
        answer_step (answers_to addr (entry_of key meta [])) found
          (dedupe_endpoints (endpoints_at key (add_slices all namespace slices []))) h
          (entry_empty key meta here (ground arith)))

-- After the discovery has listed a cluster in which no slice offers an endpoint for the ports of the
-- services at an address, because their pods listen at other ports or are not ready, an outbound
-- connection to that address leaves the mesh: it goes to the address itself, in plain text, past the
-- breaker, and is counted as external.
pub unoffered_port_bypasses :
    (m : RoutingMiddleware) (ctx : ConnContext) (next : NextFunc) (w : World) (namespace : String)
    (services : List KubeService) (slices : List EndpointSlice)
    → get_string ctx "listener" ≢ "inbound_plain"
    → get_string ctx "listener" ≢ "inbound_mtls"
    → offers_nothing ctx.original_dst (add_services services []) namespace slices ≡ true
    → let w1 = (relist namespace (some services) (some slices) w).1 in
      (c : ConnContext) × (routing_handle m ctx next w1 ≡ next c w1)
      × (told c ≡ record {
        target_addr = ctx.original_dst;
        service = "external";
        in_mesh = false;
        server_name = "";
        breaker_key = "";
      })
unfolding relist or_empty
unoffered_port_bypasses m ctx next w namespace services slices plain mtls quiet =
    let metas = add_services services [] in
    let entries = cache_entries metas (add_slices metas namespace slices []) in
    external_route m ctx next (replace entries w) (plain, mtls)
      (get_endpoints-replace ctx.original_dst entries w
        ∙ nothing_found ctx.original_dst namespace slices metas metas none
            (every_service_known metas) quiet refl)
