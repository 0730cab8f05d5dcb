-- ===== src/Sidecar/Breaker/Machine.antt =====
-- The circuit breaker of one target as a machine without maps, locks and metrics, beside
-- middleware_breaker.go.
use service_mesh.Base.{
  ℕ, ◌+◌, ◌%◌, ◌^◌, String, Bool, true, false, Option, none, some, ◌≡◌, refl, arith, eq_iff, str_eq,
  ltb, leb, if◌then◌else◌, Option-cases, Bool-cases, inl, inr,
}
use service_mesh.Base.Table.{find, find-put}
use service_mesh.Sidecar.World.{
  BreakerState, closed, opened, half, BreakerEntry, World, set_circuit_breaker_state,
}
use service_mesh.Sidecar.Breaker.{
  BreakerMiddleware, fresh, store, get_or_create_entry, allow_in, allow, fail_in, record_success,
  record_failure,
}

-- The machine that the key has: a new one, if the map has none.
abbrev or_fresh : Option BreakerEntry → BreakerEntry
or_fresh none = fresh
or_fresh (some e) = e

unfoldable pub entry_of : String → World → BreakerEntry
entry_of key w = or_fresh (find key w.breakers)

-- Whether a request may pass at an instant, and the machine after the answer.
ask_in : BreakerMiddleware → ℕ → BreakerState → BreakerEntry → Bool × BreakerEntry
ask_in m now closed e = (true, e)
ask_in m now opened e =
    if ltb now (e.opened_at + m.recovery_time)
    then (false, e)
    else (true, record e { state = half; trial_in_flight = true })
ask_in m now half e =
    if e.trial_in_flight then (false, e) else (true, record e { trial_in_flight = true })

unfoldable pub ask : BreakerMiddleware → ℕ → BreakerEntry → Bool × BreakerEntry
unfolding ask_in
ask m now e = ask_in m now e.state e

unfoldable pub succeed : BreakerEntry → BreakerEntry
succeed e = record e { state = closed; failures = 0; trial_in_flight = false }

trip : ℕ → ℕ → BreakerEntry
trip now failures = record {
  state = opened;
  failures = failures;
  opened_at = now;
  trial_in_flight = false;
}

fail_machine : BreakerMiddleware → ℕ → BreakerState → BreakerEntry → BreakerEntry
unfolding trip
fail_machine m now half e = trip now m.failure_threshold
fail_machine m now opened e = record e { opened_at = now }
fail_machine m now closed e =
    if leb m.failure_threshold ((e.failures + 1) % 2 ^ 32)
    then trip now ((e.failures + 1) % 2 ^ 32)
    else record e { failures = (e.failures + 1) % 2 ^ 32 }

unfoldable pub fail : BreakerMiddleware → ℕ → BreakerEntry → BreakerEntry
unfolding fail_machine
fail m now e = fail_machine m now e.state e

abbrev pub is_none {ℓ} : {A : Type ℓ} → Option A → Bool
is_none none = true
is_none (some a) = false

module _ (key service : String) (w : World) where
  existing :
      (e : BreakerEntry) → find key w.breakers ≡ some e → get_or_create_entry key service w ≡ (e, w)
  unfolding get_or_create_entry
  existing e h = rw (h, get_or_create_entry)

  created :
      find key w.breakers ≡ none
      → get_or_create_entry key service w
        ≡ (fresh, set_circuit_breaker_state service closed (store key fresh w))
  unfolding get_or_create_entry
  created h = rw (h, get_or_create_entry)

fail_in-machine :
    (m : BreakerMiddleware) (key service j : String) (s : BreakerState) (e : BreakerEntry)
    (w : World)
    → find j (fail_in m key service s e w).breakers
      ≡ (if str_eq key j then some (fail_machine m w.clock s e) else find j w.breakers)
unfolding fail_in fail_machine
fail_in-machine m key service j half e w = find-put key j _ w.breakers
fail_in-machine m key service j opened e w = find-put key j _ w.breakers
fail_in-machine m key service j closed e w =
    elim (Bool-cases (leb m.failure_threshold ((e.failures + 1) % 2 ^ 32))) [
      | inl over ↦ rw over (find-put key j _ w.breakers)
      | inr below ↦ rw below (find-put key j _ w.breakers)
    ]

allow_in-machine :
    (m : BreakerMiddleware) (key service j : String) (s : BreakerState) (e : BreakerEntry)
    (w : World)
    → find key w.breakers ≡ some e
    → find j (allow_in m key service s e w).1.breakers
      ≡ (if str_eq key j then some (ask_in m w.clock s e).1 else find j w.breakers)
unfolding allow_in ask_in
allow_in-machine m key service j closed e w h = ground (arith, eq_iff key j)
allow_in-machine m key service j half e w h = elim (Bool-cases e.trial_in_flight) [
  | inl busy ↦ rw busy (ground (arith, eq_iff key j))
  | inr idle ↦ rw idle (simp find-put (ground arith))
]
allow_in-machine m key service j opened e w h =
    elim (Bool-cases (ltb w.clock (e.opened_at + m.recovery_time))) [
      | inl early ↦ rw early (ground (arith, eq_iff key j))
      | inr late ↦ rw late (simp find-put (ground arith))
    ]

allow_in-answer :
    (m : BreakerMiddleware) (key service : String) (s : BreakerState) (e : BreakerEntry) (w : World)
    → is_none (allow_in m key service s e w).0 ≡ (ask_in m w.clock s e).0
unfolding allow_in ask_in
allow_in-answer m key service closed e w = refl
allow_in-answer m key service half e w = ground arith
allow_in-answer m key service opened e w = ground arith

module _ (m : BreakerMiddleware) (key service : String) (w : World) (j : String) where
  -- One call of `record_success` is one step of the key's machine and of no other.
  pub record_success-succeed :
      find j (record_success m key service w).breakers
      ≡ (if str_eq key j then some (succeed (entry_of key w)) else find j w.breakers)
  unfolding record_success succeed entry_of
  record_success-succeed = elim (Option-cases (find key w.breakers)) [
    | inl absent ↦ rw (created key service w absent, absent) (simp find-put (ground arith))
    | inr (e, there) ↦ rw (existing key service w e there, there) (simp find-put (ground arith))
  ]

  -- One call of `record_failure` is one step of the key's machine and of no other.
  pub record_failure-fail :
      find j (record_failure m key service w).breakers
      ≡ (if str_eq key j then some (fail m w.clock (entry_of key w)) else find j w.breakers)
  unfolding record_failure fail entry_of
  record_failure-fail = elim (Option-cases (find key w.breakers)) [
    | inl absent ↦
        rw (created key service w absent, absent) (simp (fail_in-machine, find-put) (ground arith))
    | inr (e, there) ↦ rw (existing key service w e there, there) (simp fail_in-machine)
  ]

  -- One call of `allow` is one step of the key's machine and of no other.
  pub allow-ask :
      find j (allow m key service w).1.breakers
      ≡ (if str_eq key j then some (ask m w.clock (entry_of key w)).1 else find j w.breakers)
  unfolding allow ask entry_of
  allow-ask = elim (Option-cases (find key w.breakers)) [
    | inl absent ↦ rw (created key service w absent, absent) (simp find-put (ground arith))
    | inr (e, there) ↦
        rw (existing key service w e there, there)
          (allow_in-machine m key service j e.state e w there)
  ]

module _ (m : BreakerMiddleware) (key service : String) (w : World) where
  -- The call is let through exactly when the key's machine lets it through.
  pub allow-answer : is_none (allow m key service w).0 ≡ (ask m w.clock (entry_of key w)).0
  unfolding allow ask entry_of
  allow-answer = elim (Option-cases (find key w.breakers)) [
    | inl absent ↦ rw (created key service w absent, absent) refl
    | inr (e, there) ↦
        rw (existing key service w e there, there) (allow_in-answer m key service e.state e w)
  ]
