-- ===== src/Sidecar/Breaker/Soundness.antt =====
-- What holds of every entry of the breaker's map, whatever calls are made on it.
use service_mesh.Base.{
  ℕ, ◌^◌, ◌≤◌, ◌<◌, String, true, false, ◌≢◌, ◌⊎◌, some, ◌≡◌, arith, Option-cases, inl, inr, List,
  [], ◌∷◌,
}
use service_mesh.Base.Table.{find}
use service_mesh.Sidecar.World.{closed, half, BreakerEntry, World}
use service_mesh.Sidecar.Breaker.{BreakerMiddleware, allow, record_success, record_failure}
use service_mesh.Sidecar.Breaker.Machine.{
  entry_of, ask, succeed, fail, allow-ask, record_success-succeed, record_failure-fail,
}

-- The threshold that `Run` requires before it installs the breaker, as a uint32.
abbrev pub IsEnabled : BreakerMiddleware → Type 0
IsEnabled m = (0 < m.failure_threshold) × (m.failure_threshold < 2 ^ 32)

-- A trial is in flight only while half-open, a closed entry is below the threshold, and the
-- count of failures never passes it, so the uint32 never wraps.
pub record IsSound (m : BreakerMiddleware) (e : BreakerEntry) : Type 0 where
  pub trial_half : e.trial_in_flight ≡ true → e.state ≡ half
  pub closed_below : e.state ≡ closed → e.failures < m.failure_threshold
  pub capped : e.failures ≤ m.failure_threshold

abbrev pub AllSound : BreakerMiddleware → World → Type 0
AllSound m w = (k : String) (e : BreakerEntry) → find k w.breakers ≡ some e → IsSound m e

-- One atomic call on the breaker, at the instant that the clock then shows.
pub data Call : Type 0 where
  ask_allow tell_success tell_failure : (key service : String) (now : ℕ) → Call

unfoldable pub perform : BreakerMiddleware → Call → World → World
perform m (ask_allow key service now) w = (allow m key service (record w { clock = now })).1
perform m (tell_success key service now) w = record_success m key service (record w { clock = now })
perform m (tell_failure key service now) w = record_failure m key service (record w { clock = now })

unfoldable pub perform_all : BreakerMiddleware → List Call → World → World
perform_all m [] w = w
perform_all m (c ∷ cs) w = perform_all m cs (perform m c w)

module _ (m : BreakerMiddleware) (enabled : IsEnabled m) where
  entry_of-IsSound : (key : String) (w : World) → AllSound m w → IsSound m (entry_of key w)
  unfolding entry_of
  entry_of-IsSound key w all = elim (Option-cases (find key w.breakers)) [
    | inl absent ↦ rw absent (ground arith)
    | inr (e, there) ↦ rw there (all key e there)
  ]

  ask-IsSound : (now : ℕ) (e : BreakerEntry) → IsSound m e → IsSound m (ask m now e).1
  unfolding ask
  ask-IsSound now e h = ground arith

  fail-IsSound : (now : ℕ) (e : BreakerEntry) → IsSound m e → IsSound m (fail m now e)
  unfolding fail
  fail-IsSound now e h = ground arith

  succeed-IsSound : (e : BreakerEntry) → IsSound m (succeed e)
  unfolding succeed
  succeed-IsSound e = ground arith

  perform-AllSound : (c : Call) (w : World) → AllSound m w → AllSound m (perform m c w)
  unfolding perform
  perform-AllSound (ask_allow key service now) w all k e h =
      let v : World = record w { clock = now } in
      ground (
        arith,
        allow-ask m key service v k,
        all k e,
        ask-IsSound now (entry_of key v) (entry_of-IsSound key v all),
      )
  perform-AllSound (tell_success key service now) w all k e h =
      let v : World = record w { clock = now } in
      ground
        (arith, record_success-succeed m key service v k, all k e, succeed-IsSound (entry_of key v))
  perform-AllSound (tell_failure key service now) w all k e h =
      let v : World = record w { clock = now } in
      ground (
        arith,
        record_failure-fail m key service v k,
        all k e,
        fail-IsSound now (entry_of key v) (entry_of-IsSound key v all),
      )

  perform_all-AllSound :
      (cs : List Call) (w : World) → AllSound m w → AllSound m (perform_all m cs w)
  unfolding perform_all
  perform_all-AllSound [] w all = all
  perform_all-AllSound (c ∷ cs) w all =
      perform_all-AllSound cs (perform m c w) (perform-AllSound c w all)

  -- With an enabled threshold, after any sequence of calls from any connections on a breaker that
  -- starts with no entries, each entry has counted no more failures than the threshold, has a
  -- trial in flight only while it is half-open, and is below the threshold while it is closed.
  pub breaker_sound :
      (cs : List Call) (w : World) (k : String) (e : BreakerEntry)
      → w.breakers ≡ []
      → find k (perform_all m cs w).breakers ≡ some e
      → (e.failures ≤ m.failure_threshold)
        × ((e.trial_in_flight ≡ false) ⊎ (e.state ≡ half))
        × ((e.state ≢ closed) ⊎ (e.failures < m.failure_threshold))
  unfolding find
  breaker_sound cs w k e fresh there =
      let all : AllSound m w = λ j x h. absurd (ground arith) in
      let sound : IsSound m e = perform_all-AllSound cs w all k e there in
      (sound.capped, ground (arith, sound.trial_half), ground (arith, sound.closed_below))
