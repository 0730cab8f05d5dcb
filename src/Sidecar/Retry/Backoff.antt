-- ===== src/Sidecar/Retry/Backoff.antt =====
-- How the waits between attempts grow.
use service_mesh.Base.{ℕ, ◌+◌, ◌*◌, ◌^◌, ◌<◌, ◌≡◌, ◌≢◌, arith, eq_iff}
use service_mesh.Sidecar.Retry.{RetryMiddleware, backoff_duration, wait_time}

module _ (m : RetryMiddleware) (n : ℕ) where
  -- The exponential wait before retry n + 1, counted from 0, is 2 ^ n base intervals, if n is below
  -- 63 and the product fits an int64.
  exponential_backoff :
      m.backoff_type ≡ "exponential"
      → n < 63
      → 2 ^ n * m.base_interval < 2 ^ 63
      → wait_time (backoff_duration m (n + 1)) ≡ 2 ^ n * m.base_interval
  unfolding backoff_duration wait_time
  exponential_backoff e small fits = ground (arith, eq_iff m.backoff_type "exponential")

  -- Any other back-off is linear: before retry n + 1 the wait is n + 1 base intervals, if that
  -- fits an int64.
  pub linear_backoff :
      m.backoff_type ≢ "exponential"
      → (n + 1) * m.base_interval < 2 ^ 63
      → wait_time (backoff_duration m (n + 1)) ≡ (n + 1) * m.base_interval
  unfolding backoff_duration wait_time
  linear_backoff e fits = ground (arith, eq_iff m.backoff_type "exponential")
