-- ===== src/RateLimit/Limiter/Admitting.antt =====
-- A request that the limiter lets through, beside the log.
use service_mesh.Base.{
  ℕ, ◌+◌, ◌-◌, ◌≤◌, String, false, List, [], ◌∷◌, ◌++◌, ◌≡◌, arith, ap, sym, ◌∙◌, eq_refl, ltb, All,
  Bool-cases, inl, inr,
}
use service_mesh.Base.Table.{find-put}
use service_mesh.RateLimit.{InMemory, zero_time, is_expired, hits_of, sweep, add_record, expire_key}
use service_mesh.RateLimit.Hits.{IsSorted, keep_if, insert_hit-insert_sorted}
use service_mesh.RateLimit.Limiter.Recent.{
  recent, recent-append, recent-recent, none_recent, insert_newest, All-append, IsSorted-newest,
}
use service_mesh.RateLimit.Limiter.Lasting.{
  Follows, hits_of-put, forgotten_live, seen_live, sweep-Follows,
}

module _ (key : String) (window delay : ℕ) where
  abbrev less : ℕ
  less = window - delay

  abbrev Tracking : ℕ → List ℕ → InMemory → Type 0
  Tracking = Follows key window delay

  swept_live : (at : ℕ) (s : InMemory) → is_expired key at (sweep key at s) ≡ false
  unfolding sweep
  swept_live at s = elim (Bool-cases (is_expired key at s)) [
    | inl gone ↦ rw (sweep, gone) (forgotten_live key window delay at s)
    | inr live ↦ rw (sweep, live) live
  ]

  added_hits :
      (start at end : ℕ) (s : InMemory)
      → IsSorted (hits_of key (sweep key at s))
      → All (λ x. x ≤ start) (hits_of key (sweep key at s))
      → hits_of key (expire_key key window end (add_record key start at s))
        ≡ hits_of key (sweep key at s) ++ start ∷ []
  unfolding add_record expire_key
  added_hits start at end s sorted old =
      hits_of-put key window delay _ (sweep key at s)
      ∙ insert_hit-insert_sorted start _ sorted
      ∙ insert_newest start _ sorted old

  added_expiry :
      (end at : ℕ) (s : InMemory)
      → is_expired key at (expire_key key window end s) ≡ ltb (end + window) at
  unfolding is_expired expire_key
  added_expiry end at s = rw (find-put key key, eq_refl key, is_expired, expire_key)

  pub add-Follows :
      (start at end : ℕ) (log : List ℕ) (s : InMemory)
      → Tracking start log s
      → start ≤ at
      → at ≤ start + delay
      → start ≤ end
      → delay ≤ window
      → zero_time ≤ start
      → Tracking start (log ++ start ∷ []) (expire_key key window end (add_record key start at s))
  unfolding recent keep_if
  add-Follows start at end log s f lo hi ends short real =
      let s1 = sweep key at s in
      let f1 : Tracking start log s1 = sweep-Follows key window delay start at log s f lo hi in
      let hits = added_hits start at end s f1.sorted f1.old in
      let seen =
        seen_live key window delay start start at log s1 f1 (omega arith) lo hi (swept_live at s) in
      let log_old : All (λ x. x ≤ start) (log ++ start ∷ []) =
        All-append _ log _ f1.log_old (omega arith, tt) in
      record {
        sorted = rw hits (IsSorted-newest start _ f1.sorted f1.old);
        old = rw hits (All-append _ _ _ f1.old (omega arith, tt));
        real = rw hits (All-append _ _ _ f1.real (real, tt));
        log_old = log_old;
        agrees = λ now x h lo1 hi1. elim (Bool-cases (ltb (end + window) x)) [
          | inl gone ↦
              rw (added_expiry end x _, gone)
                (sym (none_recent less now _ start log_old (ground arith)))
          | inr live ↦
              rw (added_expiry end x _, live, hits)
                (recent-append _ (hits_of key s1) _
                  ∙ ap (λ l. l ++ recent less now (start ∷ []))
                      (sym (recent-recent less start now (hits_of key s1) h)
                        ∙ (ap (recent less now) seen ∙ recent-recent less start now log h))
                  ∙ sym (recent-append _ log _))
        ];
      }
