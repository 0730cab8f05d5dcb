-- ===== src/RateLimit/Limiter/Sliding.antt =====
-- The repository in memory beside a log of the requests that the limiter let through.
use service_mesh.Base.{
  ℕ, ◌+◌, ◌-◌, ◌≤◌, String, true, false, List, [], ◌∷◌, ◌++◌, ◌≡◌, refl, arith, ap, sym, ◌∙◌,
  eq_refl, ltb, if◌then◌else◌, All, Bool-cases, inl, inr,
}
use service_mesh.Base.Table.{put, find-put, find-delete}
use service_mesh.RateLimit.{
  InMemory, zero_time, is_expired, forget, hits_of, sweep, remove_hits, add_record,
  remove_old_records, expire_key,
}
use service_mesh.RateLimit.Hits.{IsSorted, insert_hit-insert_sorted, remove_hits-keep_if}
use service_mesh.RateLimit.Limiter.{Config}
use service_mesh.RateLimit.Limiter.Recent.{
  recent, recent-append, recent-recent, none_recent, insert_newest, none_before, recent-IsSorted,
  recent-All, All-append, All-mono, IsSorted-newest,
}

module _ (cfg : Config) (key : String) where
  -- The repository agrees with the log of the requests that passed, up to the instant `last`.
  pub record Tracks (last : ℕ) (log : List ℕ) (s : InMemory) : Type 0 where
    pub sorted : IsSorted (hits_of key s)
    pub old : All (λ x. x ≤ last) (hits_of key s)
    pub real : All (λ x. zero_time ≤ x) (hits_of key s)
    pub log_old : All (λ x. x ≤ last) log
    pub agrees :
        (now : ℕ)
        → last ≤ now
        → (if is_expired key now s then [] else recent cfg.window now (hits_of key s))
          ≡ recent cfg.window now log

  -- What the repository holds after the removal of old records at `now`.
  pub record Cleared (now : ℕ) (log : List ℕ) (s : InMemory) : Type 0 where
    pub held : hits_of key s ≡ recent cfg.window now log
    pub live : is_expired key now s ≡ false
    pub sorted : IsSorted (hits_of key s)
    pub old : All (λ x. x ≤ now) (hits_of key s)
    pub real : All (λ x. zero_time ≤ x) (hits_of key s)
    pub lapses :
        (later : ℕ) → now ≤ later → is_expired key later s ≡ true → recent cfg.window later log ≡ []

  hits_of-put :
      (slice : List ℕ) (s : InMemory)
      → hits_of key (record s { hits = put key slice s.hits }) ≡ slice
  unfolding hits_of
  hits_of-put slice s = rw (find-put key key, eq_refl key, hits_of)

  forgotten_hits : (s : InMemory) → hits_of key (forget key s) ≡ []
  unfolding hits_of forget
  forgotten_hits s = rw (find-delete key key, eq_refl key, hits_of, forget)

  forgotten_live : (now : ℕ) (s : InMemory) → is_expired key now (forget key s) ≡ false
  unfolding is_expired forget
  forgotten_live now s = rw (find-delete key key, eq_refl key, is_expired, forget)

  clear_gone :
      (last now : ℕ) (log : List ℕ) (s : InMemory)
      → Tracks last log s
      → last ≤ now
      → is_expired key now s ≡ true
      → Cleared now log (forget key s)
  clear_gone last now log s t le gone = record {
    held = forgotten_hits s ∙ ground (arith, t.agrees now le);
    live = forgotten_live now s;
    sorted = rw (forgotten_hits s) tt;
    old = rw (forgotten_hits s) tt;
    real = rw (forgotten_hits s) tt;
    lapses = λ later h dead. cc (forgotten_live later s, dead);
  }

  kept :
      (last now : ℕ) (log : List ℕ) (s : InMemory)
      → Tracks last log s
      → last ≤ now
      → is_expired key now s ≡ false
      → remove_hits zero_time (now - cfg.window) (hits_of key s)
        ≡ recent cfg.window now (hits_of key s)
  unfolding recent
  kept last now log s t le live =
      remove_hits-keep_if zero_time (now - cfg.window) (hits_of key s) t.sorted
      ∙ rw (none_before zero_time (hits_of key s) t.real) refl

  clear_live :
      (last now : ℕ) (log : List ℕ) (s : InMemory)
      → Tracks last log s
      → last ≤ now
      → is_expired key now s ≡ false
      → Cleared now log (record s {
        hits = put key (remove_hits zero_time (now - cfg.window) (hits_of key s)) s.hits;
      })
  unfolding is_expired
  clear_live last now log s t le live =
      let rest : remove_hits zero_time (now - cfg.window) (hits_of key s)
          ≡ recent cfg.window now (hits_of key s) =
        kept last now log s t le live in
      rw (rest) record {
        held = hits_of-put _ s ∙ ground (arith, t.agrees now le);
        live = live;
        sorted = rw (hits_of-put) (recent-IsSorted cfg.window now _ t.sorted);
        old =
            rw (hits_of-put)
              (recent-All cfg.window now _ _ (All-mono _ _ _ (λ x h. omega arith) t.old));
        real = rw (hits_of-put) (recent-All cfg.window now _ _ t.real);
        lapses = λ later h dead. sym (ground (arith, t.agrees later (omega arith)));
      }

  pub clear :
      (last now : ℕ) (log : List ℕ) (s : InMemory)
      → Tracks last log s
      → last ≤ now
      → Cleared now log (remove_old_records key zero_time (now - cfg.window) now s)
  unfolding remove_old_records
  clear last now log s t le = elim (Bool-cases (is_expired key now s)) [
    | inl gone ↦ rw gone (clear_gone last now log s t le gone)
    | inr live ↦ rw live (clear_live last now log s t le live)
  ]

  pub refuse :
      (last now : ℕ) (log : List ℕ) (s : InMemory)
      → All (λ x. x ≤ last) log
      → last ≤ now
      → Cleared now log s
      → Tracks now log s
  refuse last now log s bound le c = record {
    sorted = c.sorted;
    old = c.old;
    real = c.real;
    log_old = All-mono _ _ _ (λ x h. omega arith) bound;
    agrees = λ later h. elim (Bool-cases (is_expired key later s)) [
      | inl gone ↦ rw gone (sym (c.lapses later h gone))
      | inr live ↦ rw (live, c.held) (recent-recent cfg.window now later log h)
    ];
  }

  admitted_hits :
      (now : ℕ) (log : List ℕ) (s : InMemory)
      → Cleared now log s
      → hits_of key (expire_key key cfg.window now (add_record key now now s))
        ≡ hits_of key s ++ now ∷ []
  unfolding add_record sweep expire_key
  admitted_hits now log s c = rw (c.live) (
      hits_of-put _ s
      ∙ insert_hit-insert_sorted now _ c.sorted
      ∙ insert_newest now _ c.sorted c.old)

  admitted_expiry :
      (now later : ℕ) (s : InMemory)
      → is_expired key later (expire_key key cfg.window now s) ≡ ltb (now + cfg.window) later
  unfolding is_expired expire_key
  admitted_expiry now later s = rw (find-put key key, eq_refl key, is_expired, expire_key)

  pub admit :
      (last now : ℕ) (log : List ℕ) (s : InMemory)
      → All (λ x. x ≤ last) log
      → last ≤ now
      → zero_time ≤ now
      → Cleared now log s
      → Tracks now (log ++ now ∷ []) (expire_key key cfg.window now (add_record key now now s))
  unfolding recent
  admit last now log s bound le start c =
      let bound_now : All (λ x. x ≤ now) (log ++ now ∷ []) =
        All-append _ log _ (All-mono _ _ _ (λ x h. omega arith) bound) (omega arith, tt) in
      record {
        sorted = rw (admitted_hits now log s c) (IsSorted-newest now _ c.sorted c.old);
        old = rw (admitted_hits now log s c) (All-append _ _ _ c.old (omega arith, tt));
        real = rw (admitted_hits now log s c) (All-append _ _ _ c.real (start, tt));
        log_old = bound_now;
        agrees = λ later h. elim (Bool-cases (ltb (now + cfg.window) later)) [
          | inl gone ↦
              rw (admitted_expiry now later _, gone)
                (sym (none_recent cfg.window later _ now bound_now (ground arith)))
          | inr live ↦
              rw (admitted_expiry now later _, live, admitted_hits now log s c, c.held)
                (recent-append _ (recent cfg.window now log) _
                  ∙ ap (λ l. l ++ recent cfg.window later (now ∷ []))
                      (recent-recent cfg.window now later log h)
                  ∙ sym (recent-append _ log _))
        ];
      }
