-- ===== src/RateLimit/Limiter/Promise.antt =====
-- What the limiter over the repository in memory promises, as a limiter that remembers every
-- request it let through, and a run of the code over a sequence of requests with one key.
use service_mesh.Base.{
  ℕ, ◌-◌, ◌≤◌, String, List, [], ◌∷◌, ◌++◌, ◌≡◌, refl, arith, leb, if◌then◌else◌, length,
  Bool-cases, inl, inr,
}
use mathlib.Core.Path.{ap₂}
use service_mesh.Base.Table.{find}
use service_mesh.RateLimit.{
  InMemory, new_in_memory, zero_time, is_expired, hits_of, sweep, add_record, count_records,
  remove_old_records, expire_key,
}
use service_mesh.RateLimit.Limiter.{
  in_memory, Config, Verdict, passes, too_many_requests, internal_server_error, at_once, check_hits,
}
use service_mesh.RateLimit.Limiter.Recent.{recent}
use service_mesh.RateLimit.Limiter.Sliding.{Tracks, Cleared, clear, refuse, admit}

-- The abstract limiter keeps the instants of the requests it let through, and nothing else.
unfoldable pub decide : Config → ℕ → List ℕ → Verdict
decide cfg now log =
    if leb cfg.max_hits (length (recent cfg.window now log)) then too_many_requests else passes

unfoldable pub remember : Verdict → ℕ → List ℕ → List ℕ
remember passes now log = log ++ now ∷ []
remember v now log = log

unfoldable pub promised : Config → List ℕ → List ℕ → List Verdict
unfolding decide remember
promised cfg [] log = []
promised cfg (now ∷ times) log =
    let v = decide cfg now log in v ∷ promised cfg times (remember v now log)

-- The instants of the requests that pass.
unfoldable pub let_through : List ℕ → List Verdict → List ℕ
let_through (now ∷ times) (passes ∷ vs) = now ∷ let_through times vs
let_through (now ∷ times) (too_many_requests ∷ vs) = let_through times vs
let_through (now ∷ times) (internal_server_error ∷ vs) = let_through times vs
let_through times vs = []

-- The code's verdicts on requests with one key that are handled one after another, each while the clock
-- shows one instant.
unfoldable pub verdicts_at_once : Config → String → List ℕ → InMemory → List Verdict
verdicts_at_once cfg key [] s = []
verdicts_at_once cfg key (now ∷ times) s =
    let (v, s1) = check_hits in_memory cfg key (at_once now) s in
    v ∷ verdicts_at_once cfg key times s1

-- The instants do not go back, and none is before `last`.
abbrev pub InOrder : ℕ → List ℕ → Type 0
InOrder last [] = Unit
InOrder last (now ∷ times) = (last ≤ now) × InOrder now times

module _ (cfg : Config) (key : String) where
  counted :
      (now : ℕ) (log : List ℕ) (s : InMemory)
      → Cleared cfg key now log s
      → count_records key now s ≡ (length (recent cfg.window now log), s)
  unfolding count_records sweep
  counted now log s c = rw (c.live, c.held) refl

  cleared : ℕ → InMemory → InMemory
  cleared now s = remove_old_records key zero_time (now - cfg.window) now s

  judged :
      (now : ℕ) (log : List ℕ) (s : InMemory)
      → Cleared cfg key now log (cleared now s)
      → check_hits in_memory cfg key (at_once now) s ≡ (
          if leb cfg.max_hits (length (recent cfg.window now log))
          then (too_many_requests, cleared now s)
          else (passes, expire_key key cfg.window now (add_record key now now (cleared now s))))
  unfolding check_hits cleared
  judged now log s c = rw (counted now log (cleared now s) c, cleared) refl

  step :
      (last now : ℕ) (log : List ℕ) (s : InMemory)
      → Tracks cfg key last log s
      → last ≤ now
      → zero_time ≤ now
      → ((check_hits in_memory cfg key (at_once now) s).0 ≡ decide cfg now log)
        × Tracks cfg key now
            (remember (decide cfg now log) now log)
            ((check_hits in_memory cfg key (at_once now) s).1)
  unfolding decide remember cleared
  step last now log s t le start =
      let c : Cleared cfg key now log (cleared now s) = clear cfg key last now log s t le in
      elim (Bool-cases (leb cfg.max_hits (length (recent cfg.window now log)))) [
        | inl full ↦
            rw (judged now log s c, full) (refl, refuse cfg key last now log _ t.log_old le c)
        | inr room ↦
            rw (judged now log s c, room) (refl, admit cfg key last now log _ t.log_old le start c)
      ]

  verdicts_at_once-promised :
      (times : List ℕ) (last : ℕ) (log : List ℕ) (s : InMemory)
      → Tracks cfg key last log s
      → zero_time ≤ last
      → InOrder last times
      → verdicts_at_once cfg key times s ≡ promised cfg times log
  unfolding verdicts_at_once promised
  verdicts_at_once-promised [] last log s t start order = refl
  verdicts_at_once-promised (now ∷ times) last log s t start order =
      let next = step last now log s t order.0 (omega (arith, order.0)) in
      ap₂ ◌∷◌ next.0
        (verdicts_at_once-promised times now _ _ next.1 (omega (arith, order.0)) order.1)

  fresh_Tracks : (last : ℕ) → Tracks cfg key last [] new_in_memory
  unfolding is_expired hits_of recent find
  fresh_Tracks last = record {
    sorted = tt;
    old = tt;
    real = tt;
    log_old = tt;
    agrees = λ now h. refl;
  }

  -- From a new repository, on requests with one key that are handled one after another, each while
  -- the clock shows one instant, and whose instants do not go back, the limiter gives each request the
  -- verdict of the abstract limiter, which counts the requests it let through in the window that ends
  -- at the request. The binary searches and the expiry do not show.
  pub sliding_window_implements :
      (first : ℕ) (times : List ℕ)
      → zero_time ≤ first
      → InOrder first times
      → verdicts_at_once cfg key times new_in_memory ≡ promised cfg times []
  sliding_window_implements first times start order =
      verdicts_at_once-promised times first [] new_in_memory (fresh_Tracks first) start order
