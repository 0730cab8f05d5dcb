-- ===== src/Sidecar/World.antt =====
-- The state that the connections of one sidecar share: the clock, what the metrics have been
-- told (adapters/metrics/recorder.go), the service cache (adapters/discovery/cache.go), and the
-- maps of the breaker and of the router.
use service_mesh.Base.{ℕ, String, Bool, Option, List, ◌∷◌, str_eq, if◌then◌else◌, ◌||◌}
use service_mesh.Base.Table.{Table}
use service_mesh.Sidecar.Context.{Endpoint, ConnContext}
use service_mesh.Sidecar.Errors.{Error}

-- breakerStateClosed, breakerStateOpen, breakerStateHalf.
pub data BreakerState : Type 0 where
  closed opened half : BreakerState

abbrev pub gauge : BreakerState → ℕ
gauge closed = 0
gauge opened = 1
gauge half = 2

pub record BreakerEntry : Type 0 where
  pub state : BreakerState
  pub failures : ℕ  -- uint32
  pub opened_at : ℕ
  pub trial_in_flight : Bool

-- One call into a metric vector, with its labels.
pub data Sample : Type 0 where
  requests_total : (service status_code direction : String) → Sample
  request_duration : (service direction : String) (duration : ℕ) → Sample
  request_errors : (service error_type : String) → Sample
  retry_attempts : (service : String) → Sample
  circuit_breaker_state : (service : String) (state : ℕ) → Sample
  endpoints_ready : (service : String) (ready : ℕ) → Sample

-- `samples` has the newest first; `seed` is the state of the random source.
pub record World : Type 0 where
  pub clock : ℕ
  pub samples : List Sample
  pub breakers : Table BreakerEntry
  pub round_robin : Table ℕ
  pub by_key : Table (List Endpoint)
  pub seed : ℕ

-- What a handler gives back: its error, the context with what was set in it, and the state.
abbrev pub Reply : Type 0
Reply = Option Error × ConnContext × World

-- domain.NextFunc. It stands for all that happens until the call returns, the work of other
-- connections on the shared state included.
abbrev pub NextFunc : Type 0
NextFunc = ConnContext → World → Reply

-- domain.Handler.
abbrev pub Handler : Type 0
Handler = ConnContext → NextFunc → World → Reply

unfoldable pub normalize_service : String → String
normalize_service service = if str_eq service "" then "external" else service

unfoldable pub normalize_direction : String → String
normalize_direction direction =
    if str_eq direction "inbound" || str_eq direction "outbound" then direction else "outbound"

normalize_label : String → String
normalize_label error_type = if str_eq error_type "" then "unknown" else error_type

emit : Sample → World → World
emit s w = record w { samples = s ∷ w.samples }

unfoldable pub observe_request : String → String → String → ℕ → World → World
unfolding emit normalize_service normalize_direction
observe_request service status_code direction duration w =
    emit (request_duration (normalize_service service) (normalize_direction direction) duration) (
      emit (requests_total (normalize_service service) status_code (normalize_direction direction))
        w)

unfoldable pub observe_error : String → String → World → World
unfolding emit normalize_service normalize_label
observe_error service error_type w =
    emit (request_errors (normalize_service service) (normalize_label error_type)) w

unfoldable pub inc_retry : String → World → World
unfolding emit normalize_service
inc_retry service w = emit (retry_attempts (normalize_service service)) w

unfoldable pub set_circuit_breaker_state : String → BreakerState → World → World
unfolding emit normalize_service
set_circuit_breaker_state service state w =
    emit (circuit_breaker_state (normalize_service service) (gauge state)) w

unfoldable pub set_endpoints_ready : String → ℕ → World → World
unfolding emit normalize_service
set_endpoints_ready service ready w = emit (endpoints_ready (normalize_service service) ready) w
