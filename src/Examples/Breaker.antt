-- ===== src/Examples/Breaker.antt =====
-- Runs of the breaker.
use service_mesh.Base.{◌≤◌, ◌<◌, ◌≡◌, ◌≢◌, ◌⊎◌, refl, arith, true, false, [], ◌∷◌, map, differ}
use service_mesh.Base.Table.{find, put}
use service_mesh.Sidecar.Context.{get_string}
use service_mesh.Sidecar.Errors.{is_establish_error}
use service_mesh.Sidecar.World.{closed, opened, half, BreakerEntry}
use service_mesh.Sidecar.Breaker.{breaker_handle, allow, get_or_create_entry, record_failure}
use service_mesh.Sidecar.Breaker.Machine.{entry_of}
use service_mesh.Sidecar.Breaker.Soundness.{
  ask_allow, tell_failure, perform, perform_all, breaker_sound,
}
use service_mesh.Sidecar.Breaker.Threshold.{trips_at_threshold}
use service_mesh.Sidecar.Breaker.Trials.{admitted, half_open_admits_one, lost_trial_blocks}
use service_mesh.Examples.{world, tripped, breaker, routed, copy_failed, fails_to_copy}

half_open_admits_one_example : admitted breaker "cart" "cart" (60 ∷ 95 ∷ 96 ∷ []) tripped ≤ 1
unfolding entry_of find
half_open_admits_one_example =
    half_open_admits_one breaker "cart" "cart" (60 ∷ 95 ∷ 96 ∷ []) tripped (λ e. ground arith)

lost_trial_blocks_example :
    admitted breaker "cart" "cart"
      (200 ∷ 100000 ∷ [])
      (breaker_handle breaker routed fails_to_copy tripped).2
    ≡ 0
unfolding entry_of find get_string is_establish_error allow get_or_create_entry
lost_trial_blocks_example =
    lost_trial_blocks breaker routed fails_to_copy tripped copy_failed (200 ∷ 100000 ∷ [])
      (differ "cart" "" refl) (λ e. ground arith) refl (λ v. refl) (λ v. refl) refl

trips_at_threshold_example :
    (entry_of "pay" (perform_all breaker (map (tell_failure "pay" "pay") (101 ∷ [])) tripped)).state
    ≡ opened
unfolding entry_of find
trips_at_threshold_example =
    trips_at_threshold breaker (omega arith, omega arith) "pay" "pay" (101 ∷ []) tripped refl
      (omega arith)

-- "cart" trips, and then a trial is let through.
abbrev trial : BreakerEntry
trial = record { state = half; failures = 2; opened_at = 6; trial_in_flight = true }

breaker_sound_example :
    (trial.failures ≤ 2)
    × ((trial.trial_in_flight ≡ false) ⊎ (trial.state ≡ half))
    × ((trial.state ≢ closed) ⊎ (trial.failures < 2))
unfolding perform_all perform allow find get_or_create_entry record_failure put
breaker_sound_example =
    breaker_sound breaker (omega arith, omega arith)
      (tell_failure "cart" "cart" 5
        ∷ tell_failure "cart" "cart" 6
        ∷ ask_allow "cart" "cart" 90
        ∷ [])
      world "cart" trial refl refl
