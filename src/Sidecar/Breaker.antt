-- ===== src/Sidecar/Breaker.antt =====
-- k8s/mesh/sidecar/internal/app/sidecar/middleware_breaker.go: a circuit breaker for each
-- target. The mutex makes `allow`, `record_success` and `record_failure` atomic.
pub mod Machine
pub mod Soundness
pub mod Threshold
pub mod Trials
use service_mesh.Base.{
  ℕ, ◌+◌, ◌%◌, ◌^◌, String, true, false, Option, none, some, ltb, leb, if◌then◌else◌, str_eq, ◌<>◌,
}
use service_mesh.Base.Table.{find, put}
use service_mesh.Sidecar.Errors.{Error, errorf, breaker_open, wrap, is_establish_error}
use service_mesh.Sidecar.Context.{ConnContext, get_string}
use service_mesh.Sidecar.World.{
  BreakerState, closed, opened, half, BreakerEntry, World, Reply, NextFunc,
  set_circuit_breaker_state,
}

pub record BreakerMiddleware : Type 0 where
  pub failure_threshold : ℕ  -- uint32
  pub recovery_time : ℕ

abbrev pub fresh : BreakerEntry
fresh = record { state = closed; failures = 0; opened_at = 0; trial_in_flight = false }

-- A write through the pointer that the map holds under the key.
store : String → BreakerEntry → World → World
store key entry w = record w { breakers = put key entry w.breakers }

unfoldable pub get_or_create_entry : String → String → World → BreakerEntry × World
unfolding store set_circuit_breaker_state
get_or_create_entry key service w = elim (find key w.breakers) [
  | some entry ↦ (entry, w)
  | none ↦ (fresh, set_circuit_breaker_state service closed (store key fresh w))
]

refuse : String → Option Error
unfolding wrap
refuse reason = wrap breaker_open (some (errorf reason))

-- The case `breakerStateHalf`, which the case `breakerStateOpen` falls through to.
try_trial : String → BreakerEntry → World → Option Error × World
unfolding refuse store
try_trial key entry w =
    if entry.trial_in_flight
    then (refuse ("circuit breaker is half-open for " <> key), w)
    else (none, store key (record entry { trial_in_flight = true }) w)

allow_in :
    BreakerMiddleware → String → String → BreakerState → BreakerEntry → World → Option Error × World
unfolding try_trial refuse store set_circuit_breaker_state
allow_in m key service closed entry w = (none, w)
allow_in m key service opened entry w =
    if ltb w.clock (entry.opened_at + m.recovery_time)
    then (refuse ("circuit breaker is open for " <> key), w)
    else (let e = record entry { state = half; trial_in_flight = false } in
        try_trial key e (set_circuit_breaker_state service half (store key e w)))
allow_in m key service half entry w = try_trial key entry w

unfoldable pub allow : BreakerMiddleware → String → String → World → Option Error × World
unfolding allow_in
allow m key service w =
    let (entry, w1) = get_or_create_entry key service w in
    allow_in m key service entry.state entry w1

unfoldable pub record_success : BreakerMiddleware → String → String → World → World
unfolding store set_circuit_breaker_state
record_success m key service w =
    let (entry, w1) = get_or_create_entry key service w in
    set_circuit_breaker_state service closed
      (store key (record entry { state = closed; failures = 0; trial_in_flight = false }) w1)

fail_in : BreakerMiddleware → String → String → BreakerState → BreakerEntry → World → World
unfolding store set_circuit_breaker_state
fail_in m key service half entry w = set_circuit_breaker_state service opened (
    store key
      (record {
        state = opened;
        failures = m.failure_threshold;
        opened_at = w.clock;
        trial_in_flight = false;
      })
      w)
fail_in m key service opened entry w =
    set_circuit_breaker_state service opened (store key (record entry { opened_at = w.clock }) w)
fail_in m key service closed entry w =
    let e = record entry { failures = (entry.failures + 1) % 2 ^ 32 } in
    if leb m.failure_threshold e.failures
    then set_circuit_breaker_state service opened
        (store key (record e { state = opened; opened_at = w.clock; trial_in_flight = false }) w)
    else set_circuit_breaker_state service closed (store key e w)

unfoldable pub record_failure : BreakerMiddleware → String → String → World → World
unfolding fail_in
record_failure m key service w =
    let (entry, w1) = get_or_create_entry key service w in
    fail_in m key service entry.state entry w1

-- What `Handle` does with the answer of `next`.
settle : BreakerMiddleware → String → String → Reply → Reply
settle m key service (none, ctx, w) = (none, ctx, record_success m key service w)
settle m key service (some err, ctx, w) =
    (some err, ctx, if is_establish_error (some err) then record_failure m key service w else w)

proceed :
    BreakerMiddleware → String → String → ConnContext → NextFunc → Option Error × World → Reply
unfolding settle
proceed m key service ctx next (some err, w) = (some err, ctx, w)
proceed m key service ctx next (none, w) = settle m key service (next ctx w)

unfoldable pub breaker_handle : BreakerMiddleware → ConnContext → NextFunc → World → Reply
unfolding proceed
breaker_handle m ctx next w =
    if str_eq (get_string ctx "breaker_key") ""
    then next ctx w
    else proceed m (get_string ctx "breaker_key") (get_string ctx "service") ctx next
        (allow m (get_string ctx "breaker_key") (get_string ctx "service") w)
