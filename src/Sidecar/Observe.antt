-- ===== src/Sidecar/Observe.antt =====
-- k8s/mesh/sidecar/internal/app/sidecar/middleware_metrics.go and middleware_timeout.go.
pub mod Labels
use service_mesh.Base.{ℕ, ◌-◌, String, Option, none, some, if◌then◌else◌}
use service_mesh.Sidecar.Errors.{Error, errorf, timeout, wrap, normalize_error_type}
use service_mesh.Sidecar.Context.{
  GoContext, ConnContext, text, get_string, set, with_timeout, expired, clone_with_context,
}
use service_mesh.Sidecar.World.{World, Reply, NextFunc, observe_request, observe_error}

-- What the metrics middleware does with the answer; `started` is the clock before the call.
report : ℕ → Reply → Reply
report started (none, ctx, w) =
    let w1 =
      observe_request (get_string ctx "service") "200" (get_string ctx "direction")
        (w.clock - started) w in
    (none, set ctx "status_code" (text "200"), w1)
report started (some err, ctx, w) =
    let w1 =
      observe_request (get_string ctx "service") "500" (get_string ctx "direction")
        (w.clock - started) w in
    let error_type = normalize_error_type (some err) in
    (
      some err,
      set (set ctx "error_type" (text error_type)) "status_code" (text "500"),
      observe_error (get_string ctx "service") error_type w1,
    )

unfoldable pub metrics_handle : ConnContext → NextFunc → World → Reply
unfolding report
metrics_handle ctx next w = report w.clock (next ctx w)

-- The answer of the timeout middleware; `inner` is the context that the call had. The text of the
-- error leaves out the duration that the source appends.
time_out : ConnContext → GoContext → Reply → Reply
time_out ctx inner (none, _, w) = (none, ctx, w)
time_out ctx inner (some err, _, w) =
    if expired inner w.clock
    then (wrap timeout (some (errorf "connection establish timed out")), ctx, w)
    else (some err, ctx, w)

-- The call gets a copy of the context: what it sets there stays there.
unfoldable pub timeout_handle : ℕ → ConnContext → NextFunc → World → Reply
unfolding time_out
timeout_handle limit ctx next w =
    let inner = with_timeout ctx.context w.clock limit in
    time_out ctx inner (next (clone_with_context ctx inner) w)
