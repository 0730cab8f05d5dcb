-- ===== src/RateLimit/Limiter/Budget.antt =====
-- How many requests the limiter lets through in a window, when each of its operations reads the clock
-- for itself.
use service_mesh.Base.{
  ℕ, ◌+◌, ◌-◌, ◌≤◌, ◌<◌, String, List, [], ◌∷◌, ◌++◌, ◌≡◌, ◌⊎◌, refl, arith, sym, ltb, leb, length,
  length-append, Bool-cases, inl, inr,
}
use mathlib.Core.List.{append_assoc, append-nil}
use service_mesh.Base.Table.{find}
use service_mesh.RateLimit.{
  InMemory, zero_time, new_in_memory, is_expired, hits_of, count_records, remove_old_records,
}
use service_mesh.RateLimit.Hits.{keep_if}
use service_mesh.RateLimit.Limiter.{
  in_memory, Config, Verdict, passes, too_many_requests, Instants, check_hits,
}
use service_mesh.RateLimit.Limiter.Recent.{recent, recent-append, recent-recent, length-keep_if}
use service_mesh.RateLimit.Limiter.Promise.{let_through}
use service_mesh.RateLimit.Limiter.Lasting.{
  Follows, later_Follows, sweep-Follows, remove-Follows, counted,
}
use service_mesh.RateLimit.Limiter.Admitting.{add-Follows}

-- The code's verdicts on requests with one key, one after another, each with its own instants.
unfoldable pub verdicts : Config → String → List Instants → InMemory → List Verdict
verdicts cfg key [] s = []
verdicts cfg key (t ∷ requests) s =
    let (v, s1) = check_hits in_memory cfg key t s in v ∷ verdicts cfg key requests s1

unfoldable pub starts : List Instants → List ℕ
starts [] = []
starts (t ∷ requests) = t.start ∷ starts requests

-- The clock does not go behind the start of a request, and the repository removes, counts and adds
-- within `delay` of it.
abbrev pub IsWithin : ℕ → Instants → Type 0
IsWithin delay t =
    ((t.start ≤ t.at_remove) × (t.at_remove ≤ t.start + delay))
    × ((t.start ≤ t.at_count) × (t.at_count ≤ t.start + delay))
    × ((t.start ≤ t.at_add) × (t.at_add ≤ t.start + delay))
    × (t.start ≤ t.at_expire)

-- The starts do not go back, from `last` to `later`.
abbrev pub InTime : ℕ → ℕ → ℕ → List Instants → Type 0
InTime delay later last [] = last ≤ later
InTime delay later last (t ∷ requests) =
    (last ≤ t.start) × IsWithin delay t × InTime delay later t.start requests

-- No window that ends at or after `last` holds more than `max_hits`.
InBudget : Config → ℕ → List ℕ → Type 0
InBudget cfg last log =
    (later : ℕ) → last ≤ later → length (recent cfg.window later log) ≤ cfg.max_hits

empty-InBudget : (cfg : Config) (last : ℕ) → InBudget cfg last []
unfolding InBudget recent keep_if
empty-InBudget cfg last later h = omega arith

length-recent : (window later : ℕ) (log : List ℕ) → length (recent window later log) ≤ length log
unfolding recent
length-recent window later log = length-keep_if _ log

room_for_one :
    (cfg : Config) (now later : ℕ) (log : List ℕ)
    → now ≤ later
    → length (recent cfg.window now log) < cfg.max_hits
    → length (recent cfg.window later (log ++ now ∷ [])) ≤ cfg.max_hits
unfolding recent
room_for_one cfg now later log h lt =
    let shrinks : length (recent cfg.window later log) ≤ length (recent cfg.window now log) =
      rw (sym (recent-recent cfg.window now later log h)) (length-recent cfg.window later _) in
    rw (recent-append (λ x. ltb (later - cfg.window) x) log (now ∷ []), length-append)
      (omega (arith, shrinks, length-recent cfg.window later (now ∷ [])))

module _ (cfg : Config) (key : String) (delay : ℕ) (short : delay ≤ cfg.window) where
  abbrev tight : Config
  tight = record cfg { window = cfg.window - delay }

  abbrev Tracking : ℕ → List ℕ → InMemory → Type 0
  Tracking = Follows key cfg.window delay

  -- The repository after the removal and the count.
  looked : Instants → InMemory → InMemory
  looked t s =
      (count_records key t.at_count
        (remove_old_records key zero_time (t.start - cfg.window) t.at_remove s)).1

  looked-Follows :
      (t : Instants) (log : List ℕ) (s : InMemory)
      → Tracking t.start log s
      → IsWithin delay t
      → Tracking t.start log (looked t s)
        × (length (recent tight.window t.start log)
            ≤ (count_records key t.at_count
                (remove_old_records key zero_time (t.start - cfg.window) t.at_remove s)).0)
  unfolding looked count_records
  looked-Follows t log s f ((a, b), (c, d), e, g) =
      let f1 = remove-Follows key cfg.window delay t.start t.at_remove log s f a b in
      (
        sweep-Follows key cfg.window delay t.start t.at_count log _ f1 c d,
        counted key cfg.window delay t.start t.at_count log _ f1 c d,
      )

  -- A request that passes finds room, and a request that does not changes nothing that matters.
  abbrev Handled : Instants → List ℕ → Verdict → InMemory → Type 0
  Handled t log v s1 =
      ((v ≡ too_many_requests) × Tracking t.start log s1)
      ⊎ ((v ≡ passes)
          × (length (recent tight.window t.start log) < cfg.max_hits)
          × Tracking t.start (log ++ t.start ∷ []) s1)

  step :
      (last : ℕ) (t : Instants) (log : List ℕ) (s : InMemory)
      → Tracking last log s
      → last ≤ t.start
      → zero_time ≤ t.start
      → IsWithin delay t
      → Handled t log (check_hits in_memory cfg key t s).0 (check_hits in_memory cfg key t s).1
  unfolding check_hits looked
  step last t log s f le real within =
      let f0 = later_Follows key cfg.window delay last t.start log s f le in
      let (f1, enough) = looked-Follows t log s f0 within in
      let n =
        (count_records key t.at_count
          (remove_old_records key zero_time (t.start - cfg.window) t.at_remove s)).0 in
      let (removal, count, (add_lo, add_hi), ends) = within in
      elim (Bool-cases (leb cfg.max_hits n)) [
        | inl full ↦ inl (rw full (refl, f1))
        | inr room ↦ inr (
            rw room (
              refl,
              ground (arith, enough),
              add-Follows key cfg.window delay t.start t.at_add t.at_expire log (looked t s) f1
                  add_lo add_hi ends short real,
            ))
      ]

  fresh_Follows : (last : ℕ) → Tracking last [] new_in_memory
  unfolding is_expired hits_of find
  fresh_Follows last = record {
    sorted = tt;
    old = tt;
    real = tt;
    log_old = tt;
    agrees = λ now at h lo hi. refl;
  }

  stays_InBudget :
      (last now : ℕ) (log : List ℕ) → InBudget tight last log → last ≤ now → InBudget tight now log
  unfolding InBudget
  stays_InBudget last now log b le later h = b later (omega arith)

  grows_InBudget :
      (now : ℕ) (log : List ℕ)
      → length (recent tight.window now log) < cfg.max_hits
      → InBudget tight now (log ++ now ∷ [])
  unfolding InBudget
  grows_InBudget now log room later h = room_for_one tight now later log h room

  passed-InBudget :
      (requests : List Instants) (last later : ℕ) (log : List ℕ) (s : InMemory)
      → Tracking last log s
      → InBudget tight last log
      → zero_time ≤ last
      → InTime delay later last requests
      → length (
          recent tight.window later
            (log ++ let_through (starts requests) (verdicts cfg key requests s)))
        ≤ cfg.max_hits
  unfolding InBudget let_through verdicts starts
  passed-InBudget [] last later log s f b real order = rw (append-nil log) (b later order)
  passed-InBudget (t ∷ requests) last later log s f b real (le, within, order) =
      let s1 = (check_hits in_memory cfg key t s).1 in
      elim (step last t log s f le (omega (arith, real, le)) within) [
        | inl (refused, f1) ↦ rw refused (
            passed-InBudget requests t.start later log s1 f1 (stays_InBudget last t.start log b le)
              (omega (arith, real, le)) order)
        | inr (admitted, room, f1) ↦
            rw
              (
                admitted,
                sym (
                    append_assoc log (t.start ∷ [])
                      (let_through (starts requests) (verdicts cfg key requests s1))),
              )
              (passed-InBudget requests t.start later (log ++ t.start ∷ []) s1 f1
                (grows_InBudget t.start log room) (omega (arith, real, le)) order)
      ]

  -- From a new repository, on requests with one key that are handled one after another, whose starts
  -- do not go back, and in each of which the clock does not go behind the start and the repository
  -- removes, counts and adds within `delay` of it, which is at most the window: at every later
  -- instant, at most `max_hits` of the requests that passed have started in the window, made shorter
  -- by `delay`, that ends there.
  pub window_budget :
      (first later : ℕ) (requests : List Instants)
      → zero_time ≤ first
      → InTime delay later first requests
      → length (
          recent
            (cfg.window - delay)
            later
            (let_through (starts requests) (verdicts cfg key requests new_in_memory)))
        ≤ cfg.max_hits
  window_budget first later requests real order =
      passed-InBudget requests first later [] new_in_memory (fresh_Follows first)
        (empty-InBudget tight first) real order
