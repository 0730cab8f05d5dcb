-- ===== src/Sidecar/Service/Journeys.antt =====
-- Whole connections, from the listener to the forwarder and back.
use service_mesh.Base.{
  ◌<◌, none, some, [], ◌∷◌, ◌≡◌, ◌≢◌, refl, ltb, lt→ltb, if◌then◌else◌, ap, ◌∙◌, ◌⊎◌, inl, inr,
  Bool-cases,
}
use service_mesh.Base.Table.{find, put}
use service_mesh.Sidecar.Errors.{is_establish_error}
use service_mesh.Sidecar.Context.{GoContext, ConnContext, get_string, clone_with_context}
use service_mesh.Sidecar.Context.Metadata.{get_string-clone}
use service_mesh.Sidecar.World.{World, Reply, NextFunc, normalize_service, normalize_direction}
use service_mesh.Sidecar.Observe.Labels.{
  newest_request, status_of, metrics_label, metrics_error, timeout_hides, timeout_success,
}
use service_mesh.Sidecar.Retry.{retry_handle}
use service_mesh.Sidecar.Retry.Attempts.{retry_handle_passes}
use service_mesh.Sidecar.Routing.{routing_handle}
use service_mesh.Sidecar.Routing.Routes.{inbound_route, routing_bypasses_breaker}
use service_mesh.Sidecar.Cache.{get_endpoints}
use service_mesh.Sidecar.Breaker.{breaker_handle}
use service_mesh.Sidecar.Service.{
  Settings, ListenerProfile, inbound_plain, outbound, inbound_mtls, Accepted, direction_for_profile,
  accept, dispatch, retry_of, routing_of, breaker_of, serve,
}

accepted_labels :
    (profile : ListenerProfile) (a : Accepted)
    → (normalize_service (get_string (accept profile a) "service") ≡ "external")
      × (normalize_direction (get_string (accept profile a) "direction")
          ≡ direction_for_profile profile)
unfolding accept get_string normalize_service normalize_direction find put
accepted_labels inbound_plain a = (refl, refl)
accepted_labels outbound a = (refl, refl)
accepted_labels inbound_mtls a = (refl, refl)

-- With a timeout, which is the default, every connection is counted under the service
-- "external", whatever service the router chose for it and whatever the terminal does; its
-- direction is that of its listener.
pub timeout_label :
    (cfg : Settings) (profile : ListenerProfile) (a : Accepted) (terminal : NextFunc) (w : World)
    → 0 < cfg.timeout
    → newest_request (serve cfg profile a terminal w).2.samples
      ≡ some
          ("external", status_of (serve cfg profile a terminal w).0, direction_for_profile profile)
unfolding serve dispatch
timeout_label cfg profile a terminal w h = rw (
  lt→ltb 0 cfg.timeout h,
  metrics_label,
  metrics_error,
  timeout_hides,
  (accepted_labels profile a).0,
  (accepted_labels profile a).1,
)

abbrev pub Succeeds : NextFunc → Type 0
Succeeds next = (c : ConnContext) (v : World) → (next c v).0 ≡ none

abbrev IsInbound : ConnContext → Type 0
IsInbound ctx =
    (get_string ctx "listener" ≡ "inbound_plain") ⊎ (get_string ctx "listener" ≡ "inbound_mtls")

accepted-IsInbound :
    (profile : ListenerProfile) (a : Accepted) → profile ≢ outbound → IsInbound (accept profile a)
unfolding accept get_string find put
accepted-IsInbound inbound_plain a h = inl refl
accepted-IsInbound outbound a h = absurd (h refl)
accepted-IsInbound inbound_mtls a h = inr refl

IsInbound-clone :
    (c : ConnContext) (g : GoContext) → IsInbound c → IsInbound (clone_with_context c g)
IsInbound-clone c g h = rw (get_string-clone c g "listener") h

module _ (cfg : Settings) (terminal : NextFunc) (ok : Succeeds terminal) where
  routed_success :
      (ctx : ConnContext) (w : World)
      → IsInbound ctx
      → (routing_handle (routing_of cfg) ctx terminal w).0 ≡ none
  routed_success ctx w inbound =
      let (c, same, _) = inbound_route (routing_of cfg) ctx terminal w inbound in
      ap (λ (r : Reply). r.0) same ∙ ok c w

  guarded_success :
      (ctx : ConnContext) (w : World)
      → IsInbound ctx
      → (dispatch
          (routing_handle (routing_of cfg)
            ∷ (if ltb 0 cfg.failure_threshold then breaker_handle (breaker_of cfg) ∷ [] else []))
          ctx
          terminal
          w).0
        ≡ none
  unfolding dispatch
  guarded_success ctx w inbound = elim (Bool-cases (ltb 0 cfg.failure_threshold)) [
    | inl on ↦ rw on (
        ap (λ (r : Reply). r.0)
          (routing_bypasses_breaker (routing_of cfg) (breaker_of cfg) ctx terminal w
            (widen inbound))
        ∙ routed_success ctx w inbound)
    | inr off ↦ rw off (routed_success ctx w inbound)
  ]
    where
      widen :
          IsInbound ctx
          → (get_string ctx "listener" ≡ "inbound_plain")
            ⊎ ((get_string ctx "listener" ≡ "inbound_mtls")
                ⊎ (get_endpoints ctx.original_dst w ≡ []))
      widen (inl plain) = inl plain
      widen (inr mtls) = inr (inl mtls)

  retried_success :
      (ctx : ConnContext) (w : World)
      → IsInbound ctx
      → (dispatch
          (retry_handle (retry_of cfg)
            ∷ routing_handle (routing_of cfg)
            ∷ (if ltb 0 cfg.failure_threshold then breaker_handle (breaker_of cfg) ∷ [] else []))
          ctx
          terminal
          w).0
        ≡ none
  unfolding dispatch is_establish_error
  retried_success ctx w inbound =
      let inner : NextFunc = λ c v.
        dispatch
          (routing_handle (routing_of cfg)
            ∷ (if ltb 0 cfg.failure_threshold then breaker_handle (breaker_of cfg) ∷ [] else []))
          c terminal v in
      let good : (inner ctx w).0 ≡ none = guarded_success ctx w inbound in
      ap (λ (r : Reply). r.0)
        (retry_handle_passes (retry_of cfg) inner ctx w (ap is_establish_error good))
      ∙ good

  -- A connection of an inbound listener ends well whenever the forwarder does, whatever the
  -- breakers hold and however short the timeout is.
  pub inbound_success :
      (profile : ListenerProfile) (a : Accepted) (w : World)
      → profile ≢ outbound
      → (serve cfg profile a terminal w).0 ≡ none
  unfolding serve dispatch
  inbound_success profile a w h = elim (Bool-cases (ltb 0 cfg.timeout)) [
    | inl limited ↦
        rw (metrics_error, limited)
          (timeout_success cfg.timeout (accept profile a) _ w
            (retried_success _ w (IsInbound-clone _ _ (accepted-IsInbound profile a h))))
    | inr unlimited ↦
        rw (metrics_error, unlimited)
          (retried_success (accept profile a) w (accepted-IsInbound profile a h))
  ]
