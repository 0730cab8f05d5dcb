-- ===== src/Sidecar/Retry.antt =====
-- k8s/mesh/sidecar/internal/app/sidecar/middleware_retry.go: attempts at establishing a
-- connection, with a wait between them.
pub mod Attempts
pub mod Backoff
use service_mesh.Base.{
  ℕ, zero, suc, ◌+◌, ◌-◌, ◌*◌, ◌%◌, ◌^◌, String, Bool, true, false, Option, none, some, ltb, leb,
  if◌then◌else◌, str_eq, not,
}
use service_mesh.Sidecar.Errors.{Error, deadline_exceeded, timeout, wrap, is_establish_error}
use service_mesh.Sidecar.Context.{GoContext, ConnContext, get_string, expired}
use service_mesh.Sidecar.World.{World, Reply, NextFunc, inc_retry}

pub record RetryMiddleware : Type 0 where
  pub attempts : ℕ
  pub backoff_type : String
  pub base_interval : ℕ

-- time.Duration(math.Pow(2, float64(n))): a power of two is exact as a float64, and the
-- conversion of one that an int64 cannot hold gives the least int64 (on amd64).
pow_duration : ℕ → ℕ
pow_duration n = if ltb n 63 then 2 ^ n else 2 ^ 63

-- The duration as the bits of an int64: from 2 ^ 63 on it is negative.
unfoldable pub backoff_duration : RetryMiddleware → ℕ → ℕ
unfolding pow_duration
backoff_duration m retry_number =
    let n = if ltb retry_number 1 then 1 else retry_number in
    if not (str_eq m.backoff_type "exponential")
    then n * m.base_interval % 2 ^ 64
    else pow_duration (n - 1) * m.base_interval % 2 ^ 64

-- How long time.After waits: not at all, for a negative duration.
unfoldable pub wait_time : ℕ → ℕ
wait_time bits = if ltb bits (2 ^ 63) then bits else 0

-- The `select` on ctx.Context.Done() and time.After: whether the context is done first. Where
-- both are ready Go may choose either; here the context wins.
unfoldable pub done_first : GoContext → ℕ → ℕ → Bool
unfolding expired
done_first c now wait = expired c (now + wait)

-- The instant at which the context is done, if it is.
unfoldable pub done_at : GoContext → ℕ → ℕ
done_at c now = elim c.deadline [ none ↦ now | some d ↦ if ltb now d then d else now ]

-- After a failed attempt that may be repeated: count it, wait, and go on with `again`.
back_off : RetryMiddleware → ℕ → (ConnContext → World → Reply) → ConnContext → World → Reply
back_off m attempt again ctx w =
    let counted = inc_retry (get_string ctx "service") w in
    let wait = wait_time (backoff_duration m attempt) in
    if done_first ctx.context counted.clock wait
    then (
      wrap timeout (some deadline_exceeded),
      ctx,
      record counted { clock = done_at ctx.context counted.clock },
    )
    else again ctx (record counted { clock = counted.clock + wait })

-- What the loop's body does with the answer of an attempt that is not the last.
after_attempt : RetryMiddleware → ℕ → (ConnContext → World → Reply) → Reply → Reply
unfolding back_off
after_attempt m attempt again (none, ctx, w) = (none, ctx, w)
after_attempt m attempt again (some err, ctx, w) =
    if is_establish_error (some err) then back_off m attempt again ctx w else (some err, ctx, w)

-- The loop from `attempt` on, with `left` attempts after it; on the last attempt every branch
-- returns the attempt's own answer.
retry_from : RetryMiddleware → NextFunc → ℕ → ℕ → ConnContext → World → Reply
unfolding after_attempt
retry_from m next zero attempt ctx w = next ctx w
retry_from m next (suc left) attempt ctx w =
    after_attempt m attempt (retry_from m next left (attempt + 1)) (next ctx w)

unfoldable pub retry_handle : RetryMiddleware → ConnContext → NextFunc → World → Reply
unfolding retry_from
retry_handle m ctx next w =
    if leb m.attempts 1 then next ctx w else retry_from m next (m.attempts - 1) 1 ctx w
