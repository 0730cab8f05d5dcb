-- ===== src/Examples/Limiter.antt =====
-- The rate limiter at work.
use service_mesh.Base.{ℕ, ◌+◌, ◌-◌, ◌^◌, ◌≤◌, ◌≡◌, arith, List, [], ◌∷◌, length}
use service_mesh.RateLimit.{new_in_memory}
use service_mesh.RateLimit.Limiter.{Config, Instants}
use service_mesh.RateLimit.Limiter.Recent.{recent}
use service_mesh.RateLimit.Limiter.Promise.{
  verdicts_at_once, promised, let_through, sliding_window_implements,
}
use service_mesh.RateLimit.Limiter.Budget.{verdicts, starts, IsWithin, window_budget}

abbrev two_a_second : Config
two_a_second = record { name = "api"; max_hits = 2; window = 10 ^ 9 }

-- The instant 0 of Unix time.
abbrev epoch : ℕ
epoch = 2 ^ 63

abbrev times : List ℕ
times = (epoch + 5) ∷ (epoch + 6) ∷ (epoch + 7) ∷ (epoch + 10 ^ 9 + 6) ∷ []

sliding_window_implements_example :
    verdicts_at_once two_a_second "key" times new_in_memory ≡ promised two_a_second times []
sliding_window_implements_example =
    sliding_window_implements two_a_second "key" epoch times (omega arith)
      (omega arith, (omega arith, (omega arith, (omega arith, tt))))

-- A request whose five readings of the clock are a nanosecond apart.
abbrev handled_from : ℕ → Instants
handled_from n = record {
  start = n;
  at_remove = n + 1;
  at_count = n + 2;
  at_add = n + 3;
  at_expire = n + 4;
}

handled_from-IsWithin : (n : ℕ) → IsWithin 3 (handled_from n)
handled_from-IsWithin n = (
  (omega arith, omega arith),
  (omega arith, omega arith),
  (omega arith, omega arith),
  omega arith,
)

abbrev requests : List Instants
requests = handled_from (epoch + 5) ∷ handled_from (epoch + 9) ∷ handled_from (epoch + 20) ∷ []

window_budget_example :
    length (
      recent
        (10 ^ 9 - 3)
        (epoch + 25)
        (let_through (starts requests) (verdicts two_a_second "key" requests new_in_memory)))
    ≤ 2
window_budget_example =
    window_budget two_a_second "key" 3 (omega arith) epoch (epoch + 25) requests (omega arith) (
      omega arith,
      handled_from-IsWithin _,
      (omega arith, handled_from-IsWithin _, (omega arith, handled_from-IsWithin _, omega arith)),
    )
