-- ===== src/Examples.antt =====
-- Concrete states and connections for the tests.
mod Breaker
mod Config
mod CertManager
mod Orchestrator
mod Connections
mod Routing
mod Retry
mod Limiter
mod Plane
mod Hook
mod Environment
mod Deploy
mod Discovery
mod Wire
use service_mesh.Base.{ℕ, ◌+◌, String, Bool, true, false, Option, none, some, List, [], ◌∷◌}
use service_mesh.Sidecar.Errors.{Error, errorf, sidecar_error, proxy, dial}
use service_mesh.Sidecar.Context.{ConnContext, background, Endpoint, text}
use service_mesh.Sidecar.World.{World, BreakerEntry, NextFunc, closed, opened, half}
use service_mesh.Sidecar.Breaker.{BreakerMiddleware}
use service_mesh.Sidecar.Retry.{RetryMiddleware}
use service_mesh.Sidecar.Routing.{RoutingMiddleware}
use service_mesh.Sidecar.Service.{Settings, Accepted}

abbrev pub first_pod : Endpoint
first_pod = record { ip = "10.1.0.7"; port = 8080; service_name = "cart" }

abbrev pub second_pod : Endpoint
second_pod = record { ip = "10.1.0.8"; port = 8080; service_name = "cart" }

abbrev pub world : World
world = record {
  clock = 100;
  samples = [];
  breakers = [];
  round_robin = [];
  by_key = ("10.0.0.5:80", first_pod ∷ second_pod ∷ []) ∷ [];
  seed = 0;
}

-- The breaker for "cart" is open since 40, that for "pay" is closed with one failure.
abbrev pub tripped : World
tripped = record world {
  breakers =
      ("cart", record { state = opened; failures = 2; opened_at = 40; trial_in_flight = false })
      ∷ ("pay", record { state = closed; failures = 1; opened_at = 0; trial_in_flight = false })
      ∷ [];
}

abbrev pub breaker : BreakerMiddleware
breaker = record { failure_threshold = 2; recovery_time = 50 }

abbrev pub router : RoutingMiddleware
router = record {
  app_target_addr = "127.0.0.1:8080";
  inbound_plain_port = 15006;
  inbound_mtls_port = 15008;
  mtls_enabled = true;
  load_balancer_policy = "roundRobin";
  intn = λ seed n. 0;
  next_seed = λ seed. seed + 1;
}

abbrev pub retries : RetryMiddleware
retries = record { attempts = 3; backoff_type = "exponential"; base_interval = 100 }

abbrev pub settings : Settings
settings = record {
  timeout = 5000;
  attempts = 3;
  backoff_type = "exponential";
  base_interval = 100;
  app_target_addr = "127.0.0.1:8080";
  inbound_plain_port = 15006;
  inbound_mtls_port = 15008;
  algorithm = "roundRobin";
  failure_threshold = 2;
  recovery_time = 50;
  intn = λ seed n. 0;
  next_seed = λ seed. seed + 1;
}

abbrev pub accepted : Accepted
accepted = record { conn = 7; local_addr = "10.0.0.5:80"; original_dst = some (some "10.0.0.5:80") }

abbrev pub inbound : ConnContext
inbound = record {
  context = background;
  client_conn = 7;
  original_dst = "10.1.0.7:8080";
  metadata = some (("listener", text "inbound_plain") ∷ []);
}

abbrev pub outgoing : ConnContext
outgoing = record {
  context = background;
  client_conn = 7;
  original_dst = "10.0.0.5:80";
  metadata = some (("listener", text "outbound") ∷ []);
}

abbrev pub unknown : ConnContext
unknown = record outgoing { original_dst = "93.184.216.34:443" }

-- The route to "cart" is chosen.
abbrev pub routed : ConnContext
routed = record {
  context = background;
  client_conn = 7;
  original_dst = "10.0.0.5:80";
  metadata = some (("breaker_key", text "cart") ∷ ("service", text "cart") ∷ []);
}

-- The bytes cannot be passed on, though the connection was established.
abbrev pub copy_failed : Error
copy_failed = sidecar_error proxy (errorf "copy failed")

abbrev pub refused : Error
refused = sidecar_error dial (errorf "connection refused")

abbrev pub succeeds : NextFunc
succeeds = λ ctx w. (none, ctx, w)

abbrev pub fails_to_copy : NextFunc
fails_to_copy = λ ctx w. (some copy_failed, ctx, w)

-- Every call is refused, and counted in the state of the random source.
abbrev pub counted_refusal : NextFunc
counted_refusal = λ ctx w. (some refused, ctx, record w { seed = w.seed + 1 })
