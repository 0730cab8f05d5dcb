-- ===== src/RateLimit/Limiter/Lasting.antt =====
-- The repository in memory beside a log of the requests that the limiter let through, when each
-- operation of a request reads the clock for itself.
use service_mesh.Base.{
  ℕ, ◌+◌, ◌-◌, ◌≤◌, String, true, false, List, [], ◌∷◌, ◌≡◌, refl, arith, ap, sym, ◌∙◌, eq_refl,
  length, if◌then◌else◌, All, Bool-cases, inl, inr,
}
use service_mesh.Base.Table.{put, find-put, find-delete}
use service_mesh.RateLimit.{
  InMemory, zero_time, is_expired, forget, hits_of, sweep, remove_hits, count_records,
  remove_old_records,
}
use service_mesh.RateLimit.Hits.{IsSorted, keep_if, remove_hits-keep_if}
use service_mesh.RateLimit.Limiter.Recent.{
  recent, recent-recent, none_before, recent-IsSorted, recent-All, All-mono, length-keep_if,
}

-- A shorter window shows a part of what a longer one does.
recent-shorter :
    (window less start now : ℕ) (xs : List ℕ)
    → less ≤ window
    → start ≤ now
    → recent less now (recent window start xs) ≡ recent less now xs
unfolding recent keep_if
recent-shorter window less start now [] h le = refl
recent-shorter window less start now (x ∷ xs) h le =
    ground (arith, recent-shorter window less start now xs h le)

-- The requests last at most `delay`, and `less` is the window less that.
module _ (key : String) (window delay : ℕ) where
  abbrev less : ℕ
  less = window - delay

  -- Up to the start `last` of the latest request: what is recent in the log is in the repository,
  -- whenever within the delay the repository looks.
  pub record Follows (last : ℕ) (log : List ℕ) (s : InMemory) : Type 0 where
    pub sorted : IsSorted (hits_of key s)
    pub old : All (λ x. x ≤ last) (hits_of key s)
    pub real : All (λ x. zero_time ≤ x) (hits_of key s)
    pub log_old : All (λ x. x ≤ last) log
    pub agrees :
        (now at : ℕ)
        → last ≤ now
        → now ≤ at
        → at ≤ now + delay
        → recent less now (if is_expired key at s then [] else hits_of key s) ≡ recent less now log

  pub hits_of-put :
      (slice : List ℕ) (s : InMemory)
      → hits_of key (record s { hits = put key slice s.hits }) ≡ slice
  unfolding hits_of
  hits_of-put slice s = rw (find-put key key, eq_refl key, hits_of)

  forgotten_hits : (s : InMemory) → hits_of key (forget key s) ≡ []
  unfolding hits_of forget
  forgotten_hits s = rw (find-delete key key, eq_refl key, hits_of, forget)

  pub forgotten_live : (now : ℕ) (s : InMemory) → is_expired key now (forget key s) ≡ false
  unfolding is_expired forget
  forgotten_live now s = rw (find-delete key key, eq_refl key, is_expired, forget)

  same_expiry :
      (slice : List ℕ) (at : ℕ) (s : InMemory)
      → is_expired key at (record s { hits = put key slice s.hits }) ≡ is_expired key at s
  unfolding is_expired
  same_expiry slice at s = refl

  removed :
      (start : ℕ) (s : InMemory)
      → IsSorted (hits_of key s)
      → All (λ x. zero_time ≤ x) (hits_of key s)
      → remove_hits zero_time (start - window) (hits_of key s) ≡ recent window start (hits_of key s)
  unfolding recent
  removed start s sorted real =
      remove_hits-keep_if zero_time (start - window) (hits_of key s) sorted
      ∙ rw (none_before zero_time (hits_of key s) real) refl

  -- A request that starts later finds the same agreement.
  pub later_Follows :
      (last start : ℕ) (log : List ℕ) (s : InMemory)
      → Follows last log s
      → last ≤ start
      → Follows start log s
  later_Follows last start log s f le = record {
    sorted = f.sorted;
    old = All-mono _ _ _ (λ x h. omega (arith, le)) f.old;
    real = f.real;
    log_old = All-mono _ _ _ (λ x h. omega (arith, le)) f.log_old;
    agrees = λ now at h. f.agrees now at (omega (arith, le, h));
  }

  -- A key that has expired is forgotten, with nothing in it that the log still shows.
  forget-Follows :
      (start at : ℕ) (log : List ℕ) (s : InMemory)
      → Follows start log s
      → start ≤ at
      → at ≤ start + delay
      → is_expired key at s ≡ true
      → Follows start log (forget key s)
  unfolding recent keep_if
  forget-Follows start at log s f lo hi gone =
      let nothing : recent less start log ≡ [] =
        sym (f.agrees start at (omega arith) lo hi) ∙ rw gone refl in
      record {
        sorted = rw (forgotten_hits s) tt;
        old = rw (forgotten_hits s) tt;
        real = rw (forgotten_hits s) tt;
        log_old = f.log_old;
        agrees = λ now x h lo1 hi1.
            rw (forgotten_live x s, forgotten_hits s)
              (sym (sym (recent-recent less start now log h) ∙ ap (recent less now) nothing));
      }

  pub sweep-Follows :
      (start at : ℕ) (log : List ℕ) (s : InMemory)
      → Follows start log s
      → start ≤ at
      → at ≤ start + delay
      → Follows start log (sweep key at s)
  unfolding sweep
  sweep-Follows start at log s f lo hi = elim (Bool-cases (is_expired key at s)) [
    | inl gone ↦ rw gone (forget-Follows start at log s f lo hi gone)
    | inr live ↦ rw live f
  ]

  seen_gone :
      (start now at : ℕ) (log : List ℕ) (s : InMemory)
      → Follows start log s
      → start ≤ now
      → now ≤ at
      → at ≤ now + delay
      → is_expired key at s ≡ true
      → recent less now [] ≡ recent less now log
  seen_gone start now at log s f h lo hi gone =
      ap (λ b. recent less now (if b then [] else hits_of key s)) (sym gone)
      ∙ f.agrees now at h lo hi

  pub seen_live :
      (start now at : ℕ) (log : List ℕ) (s : InMemory)
      → Follows start log s
      → start ≤ now
      → now ≤ at
      → at ≤ now + delay
      → is_expired key at s ≡ false
      → recent less now (hits_of key s) ≡ recent less now log
  seen_live start now at log s f h lo hi live =
      ap (λ b. recent less now (if b then [] else hits_of key s)) (sym live)
      ∙ f.agrees now at h lo hi

  trim-Follows :
      (start : ℕ) (log : List ℕ) (s : InMemory)
      → Follows start log s
      → Follows start log (record s { hits = put key (recent window start (hits_of key s)) s.hits })
  trim-Follows start log s f =
      let kept = recent window start (hits_of key s) in
      record {
        sorted = rw (hits_of-put kept s) (recent-IsSorted window start _ f.sorted);
        old = rw (hits_of-put kept s) (recent-All window start _ _ f.old);
        real = rw (hits_of-put kept s) (recent-All window start _ _ f.real);
        log_old = f.log_old;
        agrees = λ now at h lo hi. elim (Bool-cases (is_expired key at s)) [
          | inl gone ↦
              rw (same_expiry kept at s, gone) (seen_gone start now at log s f h lo hi gone)
          | inr live ↦
              rw (same_expiry kept at s, live, hits_of-put kept s)
                (recent-shorter window less start now (hits_of key s) (omega arith) h
                  ∙ seen_live start now at log s f h lo hi live)
        ];
      }

  pub remove-Follows :
      (start at : ℕ) (log : List ℕ) (s : InMemory)
      → Follows start log s
      → start ≤ at
      → at ≤ start + delay
      → Follows start log (remove_old_records key zero_time (start - window) at s)
  unfolding remove_old_records
  remove-Follows start at log s f lo hi = elim (Bool-cases (is_expired key at s)) [
    | inl gone ↦ rw gone (forget-Follows start at log s f lo hi gone)
    | inr live ↦
        let kept : remove_hits zero_time (start - window) (hits_of key s)
            ≡ recent window start (hits_of key s) =
          removed start s f.sorted f.real in
        rw (live, kept) (trim-Follows start log s f)
  ]

  -- The count is at least the number of hits that the shorter window shows.
  pub counted :
      (start at : ℕ) (log : List ℕ) (s : InMemory)
      → Follows start log s
      → start ≤ at
      → at ≤ start + delay
      → length (recent less start log) ≤ (count_records key at s).0
  unfolding count_records sweep recent keep_if
  counted start at log s f lo hi = elim (Bool-cases (is_expired key at s)) [
    | inl gone ↦
        let seen = seen_gone start start at log s f (omega arith) lo hi gone in
        rw (gone, sym seen) (omega arith)
    | inr live ↦
        let seen = seen_live start start at log s f (omega arith) lo hi live in
        rw (live, sym seen) (length-keep_if _ (hits_of key s))
  ]
