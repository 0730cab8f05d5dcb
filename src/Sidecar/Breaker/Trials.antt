-- ===== src/Sidecar/Breaker/Trials.antt =====
-- The half-open state: how many requests it lets through, and what becomes of a trial that ends
-- with an error which is no failure to establish the connection.
use service_mesh.Base.{
  ℕ, suc, ◌+◌, ◌≤◌, All, String, true, false, some, ◌≡◌, ◌≢◌, refl, arith, eq_refl, eq_iff, sym, ap,
  ◌∙◌, if◌then◌else◌, List, [], ◌∷◌, ◌<◌,
}
use service_mesh.Sidecar.Errors.{Error, is_establish_error}
use service_mesh.Sidecar.Context.{ConnContext, get_string}
use service_mesh.Sidecar.World.{closed, opened, half, BreakerEntry, World, NextFunc}
use service_mesh.Sidecar.Breaker.{BreakerMiddleware, allow, breaker_handle}
use service_mesh.Sidecar.Breaker.Machine.{is_none, entry_of, ask, allow-ask, allow-answer}

-- How many of the requests for a key that ask at the given instants are let through, when no
-- outcome is recorded between them.
unfoldable pub admitted : BreakerMiddleware → String → String → List ℕ → World → ℕ
admitted m key service [] w = 0
admitted m key service (now ∷ later) w =
    let v : World = record w { clock = now } in
    let rest = admitted m key service later (allow m key service v).1 in
    if is_none (allow m key service v).0 then suc rest else rest

module _ (m : BreakerMiddleware) (key service : String) where
  allow-entry_of :
      (w : World) → entry_of key (allow m key service w).1 ≡ (ask m w.clock (entry_of key w)).1
  unfolding entry_of
  allow-entry_of w = rw (allow-ask m key service w key, eq_refl key)

  at_clock : (now : ℕ) (w : World) → entry_of key (record w { clock = now }) ≡ entry_of key w
  unfolding entry_of
  at_clock now w = refl

  -- While a trial is in flight, no request for the key is let through, at whatever instants they
  -- ask.
  pub busy_admits_none :
      (times : List ℕ) (w : World)
      → (entry_of key w).state ≡ half
      → (entry_of key w).trial_in_flight ≡ true
      → admitted m key service times w ≡ 0
  unfolding admitted ask
  busy_admits_none [] w s t = refl
  busy_admits_none (now ∷ later) w s t =
      let v : World = record w { clock = now } in
      ground (
        arith,
        allow-answer m key service v,
        allow-entry_of v,
        at_clock now w,
        busy_admits_none later (allow m key service v).1,
      )

  -- From an open entry, or a half-open one, at most one request is let through until an outcome
  -- is recorded, however many ask and whenever they do.
  pub half_open_admits_one :
      (times : List ℕ) (w : World)
      → (entry_of key w).state ≢ closed
      → admitted m key service times w ≤ 1
  unfolding admitted ask
  half_open_admits_one [] w s = omega arith
  half_open_admits_one (now ∷ later) w s =
      let v : World = record w { clock = now } in
      ground (
        arith,
        allow-answer m key service v,
        allow-entry_of v,
        at_clock now w,
        busy_admits_none later (allow m key service v).1,
        half_open_admits_one later (allow m key service v).1,
      )

  open_from :
      (o : ℕ) (times : List ℕ) (w : World)
      → (entry_of key w).state ≡ opened
      → (entry_of key w).opened_at ≡ o
      → All (λ now. now < o + m.recovery_time) times
      → admitted m key service times w ≡ 0
  unfolding admitted ask
  open_from o [] w s e h = refl
  open_from o (now ∷ later) w s e (h, hs) =
      let v : World = record w { clock = now } in
      ground (
        arith,
        allow-answer m key service v,
        allow-entry_of v,
        at_clock now w,
        open_from o later (allow m key service v).1,
      )

  -- Until the recovery time has passed since the breaker opened, no request is let through.
  open_admits_none :
      (times : List ℕ) (w : World)
      → (entry_of key w).state ≡ opened
      → All (λ now. now < (entry_of key w).opened_at + m.recovery_time) times
      → admitted m key service times w ≡ 0
  open_admits_none times w s h = open_from (entry_of key w).opened_at times w s refl h

passed :
    (m : BreakerMiddleware) (now : ℕ) (e : BreakerEntry)
    → e.state ≢ closed
    → (ask m now e).0 ≡ true
    → ((ask m now e).1.state ≡ half) × ((ask m now e).1.trial_in_flight ≡ true)
unfolding ask
passed m now e s h = ground arith

entry_of_breakers :
    (key : String) (u v : World) → u.breakers ≡ v.breakers → entry_of key u ≡ entry_of key v
unfolding entry_of
entry_of_breakers key u v h = rw h

module _ (m : BreakerMiddleware) (ctx : ConnContext) (next : NextFunc) (w : World) where
  abbrev key_of : String
  key_of = get_string ctx "breaker_key"

  lost :
      (err : Error)
      → key_of ≢ ""
      → is_establish_error (some err) ≡ false
      → (next ctx (allow m key_of (get_string ctx "service") w).1).0 ≡ some err
      → (next ctx (allow m key_of (get_string ctx "service") w).1).2.breakers
        ≡ (allow m key_of (get_string ctx "service") w).1.breakers
      → is_none (allow m key_of (get_string ctx "service") w).0 ≡ true
      → (breaker_handle m ctx next w).2.breakers
        ≡ (allow m key_of (get_string ctx "service") w).1.breakers
  unfolding breaker_handle
  lost err named e fails keeps passes = ground (arith, eq_iff key_of "")

  -- A request for a target whose breaker is not closed is let through, and the call behind it
  -- changes no breaker and fails with an error which is no failure to establish the connection:
  -- until an outcome of some other request is recorded, no request for that target is let through,
  -- at whatever instants they ask.
  pub lost_trial_blocks :
      (err : Error) (times : List ℕ)
      → key_of ≢ ""
      → (entry_of key_of w).state ≢ closed
      → is_establish_error (some err) ≡ false
      → ((v : World) → (next ctx v).0 ≡ some err)
      → ((v : World) → (next ctx v).2.breakers ≡ v.breakers)
      → is_none (allow m key_of (get_string ctx "service") w).0 ≡ true
      → admitted m key_of (get_string ctx "service") times (breaker_handle m ctx next w).2 ≡ 0
  unfolding breaker_handle
  lost_trial_blocks err times named s e fails keeps passes =
      let service : String = get_string ctx "service" in
      let v : World = (allow m key_of service w).1 in
      let same : entry_of key_of (breaker_handle m ctx next w).2
          ≡ (ask m w.clock (entry_of key_of w)).1 =
        entry_of_breakers key_of _ v (lost err named e (fails v) (keeps v) passes)
        ∙ allow-entry_of m key_of service w in
      let asked : (ask m w.clock (entry_of key_of w)).0 ≡ true =
        sym (allow-answer m key_of service w) ∙ passes in
      busy_admits_none m key_of service times _
        (ap (λ (x : BreakerEntry). x.state) same ∙ (passed m w.clock (entry_of key_of w) s asked).0)
        (ap (λ (x : BreakerEntry). x.trial_in_flight) same
          ∙ (passed m w.clock (entry_of key_of w) s asked).1)
