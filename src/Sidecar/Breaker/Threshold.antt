-- ===== src/Sidecar/Breaker/Threshold.antt =====
-- When the breaker trips, and what a call does to other targets.
use service_mesh.Base.{
  ℕ, ◌+◌, ◌≤◌, ◌<◌, String, ◌≡◌, ◌≢◌, arith, eq_iff, eq_refl, List, [], ◌∷◌, map, length, leb,
  if◌then◌else◌, Bool-cases, inl, inr,
}
use service_mesh.Base.Table.{find}
use service_mesh.Sidecar.World.{closed, opened, World}
use service_mesh.Sidecar.Breaker.{BreakerMiddleware}
use service_mesh.Sidecar.Breaker.Machine.{
  entry_of, fail, allow-ask, record_success-succeed, record_failure-fail,
}
use service_mesh.Sidecar.Breaker.Soundness.{
  IsEnabled, Call, ask_allow, tell_success, tell_failure, perform, perform_all,
}

module _ (m : BreakerMiddleware) (enabled : IsEnabled m) (key service : String) where
  failure-entry_of :
      (now : ℕ) (w : World)
      → entry_of key (perform m (tell_failure key service now) w) ≡ fail m now (entry_of key w)
  unfolding perform entry_of
  failure-entry_of now w =
      rw (record_failure-fail m key service (record w { clock = now }) key, eq_refl key)

  opened_stays :
      (times : List ℕ) (w : World)
      → (entry_of key w).state ≡ opened
      → (entry_of key (perform_all m (map (tell_failure key service) times) w)).state ≡ opened
  unfolding perform_all fail
  opened_stays [] w s = s
  opened_stays (now ∷ later) w s =
      opened_stays later (perform m (tell_failure key service now) w)
        (ground (arith, failure-entry_of now w))

  below_stays :
      (times : List ℕ) (w : World)
      → (entry_of key w).state ≡ closed
      → (entry_of key w).failures + length times < m.failure_threshold
      → ((entry_of key (perform_all m (map (tell_failure key service) times) w)).state ≡ closed)
        × ((entry_of key (perform_all m (map (tell_failure key service) times) w)).failures
            ≡ (entry_of key w).failures + length times)
  unfolding perform_all fail
  below_stays [] w s h = (s, omega arith)
  below_stays (now ∷ later) w s h = ground (
    arith,
    failure-entry_of now w,
    below_stays later (perform m (tell_failure key service now) w),
  )

  reaches :
      (times : List ℕ) (w : World)
      → (entry_of key w).state ≡ closed
      → (entry_of key w).failures < m.failure_threshold
      → m.failure_threshold ≤ (entry_of key w).failures + length times
      → (entry_of key (perform_all m (map (tell_failure key service) times) w)).state ≡ opened
  unfolding perform_all fail
  reaches [] w s b h = absurd (omega arith)
  reaches (now ∷ later) w s b h = ground (
    arith,
    failure-entry_of now w,
    opened_stays later (perform m (tell_failure key service now) w),
    reaches later (perform m (tell_failure key service now) w),
  )

  -- With an enabled threshold, a closed entry that is told of failures only is open once their
  -- number, with those it had counted before, reaches the threshold, and closed while it is below.
  pub trips_at_threshold :
      (times : List ℕ) (w : World)
      → (entry_of key w).state ≡ closed
      → (entry_of key w).failures < m.failure_threshold
      → (entry_of key (perform_all m (map (tell_failure key service) times) w)).state ≡ (
          if leb m.failure_threshold ((entry_of key w).failures + length times)
          then opened
          else closed)
  trips_at_threshold times w s b =
      elim (Bool-cases (leb m.failure_threshold ((entry_of key w).failures + length times))) [
        | inl full ↦ rw full (reaches times w s b (ground arith))
        | inr below ↦ rw below (below_stays times w s (ground arith)).0
      ]

-- The key that a call is about.
abbrev pub key_of : Call → String
key_of (ask_allow key service now) = key
key_of (tell_success key service now) = key
key_of (tell_failure key service now) = key

-- A call about one target changes nothing that another target's breaker holds.
perform_isolated :
    (m : BreakerMiddleware) (c : Call) (w : World) (j : String)
    → key_of c ≢ j
    → find j (perform m c w).breakers ≡ find j w.breakers
unfolding perform
perform_isolated m (ask_allow key service now) w j h =
    ground (arith, eq_iff key j, allow-ask m key service (record w { clock = now }) j)
perform_isolated m (tell_success key service now) w j h =
    ground (arith, eq_iff key j, record_success-succeed m key service (record w { clock = now }) j)
perform_isolated m (tell_failure key service now) w j h =
    ground (arith, eq_iff key j, record_failure-fail m key service (record w { clock = now }) j)
