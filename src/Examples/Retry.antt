-- ===== src/Examples/Retry.antt =====
-- Attempts, and the errors that decide about them.
use service_mesh.Base.{ℕ, ◌≤◌, ◌≡◌, refl}
use service_mesh.Sidecar.Errors.{is_establish_error}
use service_mesh.Sidecar.World.{World, inc_retry}
use service_mesh.Sidecar.Retry.{retry_handle}
use service_mesh.Sidecar.Retry.Attempts.{Counts, retry_handle-calls, retry_handle_exhausts}
use service_mesh.Examples.{world, retries, routed, counted_refusal}

abbrev calls : World → ℕ
calls w = w.seed

counts : Counts counted_refusal calls
unfolding inc_retry
counts = record { each_call = λ ctx w. refl; on_retry = λ service w. refl; on_wait = λ now w. refl }

retry_handle-calls_example :
    (1 ≤ calls (retry_handle retries routed counted_refusal world).2)
    × (calls (retry_handle retries routed counted_refusal world).2 ≤ 3)
retry_handle-calls_example = retry_handle-calls retries counted_refusal calls counts routed world

retry_handle_exhausts_example : calls (retry_handle retries routed counted_refusal world).2 ≡ 3
unfolding is_establish_error
retry_handle_exhausts_example =
    retry_handle_exhausts retries counted_refusal calls counts (λ ctx w. (refl, refl)) routed world
      refl
