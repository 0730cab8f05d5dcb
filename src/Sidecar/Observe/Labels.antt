-- ===== src/Sidecar/Observe/Labels.antt =====
-- What the metrics say of a request.
use service_mesh.Base.{ℕ, String, Option, none, some, List, [], ◌∷◌, ◌≡◌, refl, arith}
use service_mesh.Sidecar.Errors.{Error}
use service_mesh.Sidecar.Context.{
  GoContext, ConnContext, get_string, with_timeout, clone_with_context,
}
use service_mesh.Sidecar.World.{
  World, Reply, NextFunc, Sample, requests_total, normalize_service, normalize_direction,
  observe_request, observe_error,
}
use service_mesh.Sidecar.Observe.{report, metrics_handle, time_out, timeout_handle}

-- The labels of the newest request that was counted.
unfoldable pub newest_request : List Sample → Option (String × String × String)
newest_request [] = none
newest_request (requests_total service status direction ∷ _) = some (service, status, direction)
newest_request (_ ∷ samples) = newest_request samples

unfoldable pub status_of : Option Error → String
status_of none = "200"
status_of (some err) = "500"

newest-report :
    (started : ℕ) (r : Reply)
    → newest_request (report started r).2.samples
      ≡ some (
        normalize_service (get_string r.1 "service"),
        status_of r.0,
        normalize_direction (get_string r.1 "direction"),
      )
unfolding newest_request report status_of observe_request observe_error
newest-report started (none, ctx, w) = refl
newest-report started (some err, ctx, w) = refl

context-time_out : (ctx : ConnContext) (g : GoContext) (r : Reply) → (time_out ctx g r).1 ≡ ctx
unfolding time_out
context-time_out ctx g (none, c, w) = refl
context-time_out ctx g (some err, c, w) = ground arith

-- A request is counted under the service and the direction that its own context holds after the
-- call, and as "200" or "500" by whether the call failed.
pub metrics_label :
    (ctx : ConnContext) (next : NextFunc) (w : World)
    → newest_request (metrics_handle ctx next w).2.samples
      ≡ some (
        normalize_service (get_string (next ctx w).1 "service"),
        status_of (next ctx w).0,
        normalize_direction (get_string (next ctx w).1 "direction"),
      )
unfolding metrics_handle
metrics_label ctx next w = newest-report w.clock (next ctx w)

-- The timeout middleware gives back the context as it got it: whatever is set behind it, the
-- service of the route included, is lost to the handlers before it.
pub timeout_hides :
    (limit : ℕ) (ctx : ConnContext) (next : NextFunc) (w : World)
    → (timeout_handle limit ctx next w).1 ≡ ctx
unfolding timeout_handle
timeout_hides limit ctx next w = context-time_out ctx _ _

error-report : (started : ℕ) (r : Reply) → (report started r).0 ≡ r.0
unfolding report
error-report started (none, ctx, w) = refl
error-report started (some err, ctx, w) = refl

-- The metrics middleware passes on the answer of the call.
pub metrics_error :
    (ctx : ConnContext) (next : NextFunc) (w : World)
    → (metrics_handle ctx next w).0 ≡ (next ctx w).0
unfolding metrics_handle
metrics_error ctx next w = error-report w.clock (next ctx w)

success-time_out :
    (ctx : ConnContext) (g : GoContext) (r : Reply) → r.0 ≡ none → (time_out ctx g r).0 ≡ none
unfolding time_out
success-time_out ctx g (none, c, w) h = refl
success-time_out ctx g (some err, c, w) h = cc

-- A success within the timeout middleware stays one, even after the deadline.
pub timeout_success :
    (limit : ℕ) (ctx : ConnContext) (next : NextFunc) (w : World)
    → (next (clone_with_context ctx (with_timeout ctx.context w.clock limit)) w).0 ≡ none
    → (timeout_handle limit ctx next w).0 ≡ none
unfolding timeout_handle
timeout_success limit ctx next w h = success-time_out ctx _ _ h
