-- ===== src/Sidecar/Service.antt =====
-- k8s/mesh/sidecar/internal/domain/middleware.go, adapters/proxy/listener.go and the parts of
-- app/sidecar/service.go that build the chain of handlers and run it for a connection.
pub mod Chain
pub mod Journeys
use service_mesh.Base.{
  ℕ, String, Bool, true, false, Option, none, some, List, [], ◌∷◌, ◌++◌, ltb, if◌then◌else◌, str_eq,
}
use service_mesh.Base.Table.{put}
use service_mesh.Sidecar.Errors.{Error}
use service_mesh.Sidecar.Context.{ConnContext, text, background}
use service_mesh.Sidecar.World.{World, Reply, NextFunc, Handler}
use service_mesh.Sidecar.Observe.{metrics_handle, timeout_handle}
use service_mesh.Sidecar.Retry.{RetryMiddleware, retry_handle}
use service_mesh.Sidecar.Routing.{RoutingMiddleware, routing_handle}
use service_mesh.Sidecar.Breaker.{BreakerMiddleware, breaker_handle}

-- chainHandler.dispatch, with the middlewares from `index` on.
unfoldable pub dispatch : List Handler → Handler
dispatch [] ctx next w = next ctx w
dispatch (middleware ∷ rest) ctx next w =
    middleware ctx (λ next_ctx v. dispatch rest next_ctx next v) w

-- The settings that `Run` builds the chain from, after `Validate`: none of them is negative
-- then. The random source is that of the router.
pub record Settings : Type 0 where
  pub timeout : ℕ
  pub attempts : ℕ
  pub backoff_type : String
  pub base_interval : ℕ
  pub app_target_addr : String
  pub inbound_plain_port : ℕ
  pub inbound_mtls_port : ℕ
  pub algorithm : String
  pub failure_threshold : ℕ
  pub recovery_time : ℕ
  pub intn : ℕ → ℕ → ℕ
  pub next_seed : ℕ → ℕ

abbrev pub retry_of : Settings → RetryMiddleware
retry_of cfg = record {
  attempts = cfg.attempts;
  backoff_type = cfg.backoff_type;
  base_interval = cfg.base_interval;
}

abbrev pub routing_of : Settings → RoutingMiddleware
routing_of cfg = record {
  app_target_addr = cfg.app_target_addr;
  inbound_plain_port = cfg.inbound_plain_port;
  inbound_mtls_port = cfg.inbound_mtls_port;
  mtls_enabled = ltb 0 cfg.inbound_mtls_port;
  load_balancer_policy = cfg.algorithm;
  intn = cfg.intn;
  next_seed = cfg.next_seed;
}

abbrev pub breaker_of : Settings → BreakerMiddleware
breaker_of cfg = record {
  failure_threshold = cfg.failure_threshold;
  recovery_time = cfg.recovery_time;
}

-- The list that `Run` gives to `Chain`.
unfoldable pub middlewares : Settings → List Handler
middlewares cfg =
    metrics_handle
    ∷ ((if ltb 0 cfg.timeout then timeout_handle cfg.timeout ∷ [] else [])
        ++ (retry_handle (retry_of cfg)
            ∷ routing_handle (routing_of cfg)
            ∷ (if ltb 0 cfg.failure_threshold then breaker_handle (breaker_of cfg) ∷ [] else [])))

pub data ListenerProfile : Type 0 where
  inbound_plain outbound inbound_mtls : ListenerProfile

abbrev pub profile_text : ListenerProfile → String
profile_text inbound_plain = "inbound_plain"
profile_text outbound = "outbound"
profile_text inbound_mtls = "inbound_mtls"

unfoldable pub direction_for_profile : ListenerProfile → String
direction_for_profile outbound = "outbound"
direction_for_profile inbound_plain = "inbound"
direction_for_profile inbound_mtls = "inbound"

-- A connection that the net listener accepted: its local address and, for a TCP connection, what
-- `GetOriginalDst` gives, where `none` is its error.
pub record Accepted : Type 0 where
  pub conn : ℕ
  pub local_addr : String
  pub original_dst : Option (Option String)

resolve_dst : String → Option (Option String) → String
resolve_dst local_addr none = local_addr
resolve_dst local_addr (some none) = local_addr
resolve_dst local_addr (some (some dst)) = if str_eq dst "" then local_addr else dst

-- TransparentListener.Accept.
unfoldable pub accept : ListenerProfile → Accepted → ConnContext
unfolding resolve_dst direction_for_profile
accept profile a = record {
  context = background;
  client_conn = a.conn;
  original_dst = resolve_dst a.local_addr a.original_dst;
  metadata = some (
      put "listener" (text (profile_text profile))
        (put "direction" (text (direction_for_profile profile)) []));
}

-- What `runListener` does with an accepted connection: the chain ends in `terminal`.
unfoldable pub serve : Settings → ListenerProfile → Accepted → NextFunc → World → Reply
unfolding middlewares
serve cfg profile a terminal w = dispatch (middlewares cfg) (accept profile a) terminal w
