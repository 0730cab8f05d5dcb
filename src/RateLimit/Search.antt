-- ===== src/RateLimit/Search.antt =====
-- The search by halves of sort.Search.
use service_mesh.Base.{
  ℕ, zero, suc, ◌+◌, ◌/◌, ◌≤◌, ◌<◌, Bool, true, false, ◌≡◌, arith, ltb, leb, leb→le, ltb→lt,
  Bool-cases, inl, inr,
}
use service_mesh.RateLimit.{search_loop, search_index}

abbrev pub Monotone : (ℕ → Bool) → Type 0
Monotone f = (i j : ℕ) → i ≤ j → f i ≡ true → f j ≡ true

-- `r` splits the range from i to j: the test fails below it and holds from it on.
pub record IsFirst (f : ℕ → Bool) (i j r : ℕ) : Type 0 where
  pub lower : i ≤ r
  pub upper : r ≤ j
  pub before : (k : ℕ) → i ≤ k → k < r → f k ≡ false
  pub after : (k : ℕ) → r ≤ k → k < j → f k ≡ true

module _ (f : ℕ → Bool) (mono : Monotone f) where
  below : (k h : ℕ) → k ≤ h → f h ≡ false → f k ≡ false
  below k h le no_h = elim (Bool-cases (f k)) [
    | inl yes_k ↦ cc (mono k h le yes_k)
    | inr no_k ↦ no_k
  ]

  go_left : (i h j r : ℕ) → h ≤ j → f h ≡ true → IsFirst f i h r → IsFirst f i j r
  go_left i h j r le t first = record {
    lower = first.lower;
    upper = omega (arith, first.upper);
    before = first.before;
    after = λ k p q. elim (Bool-cases (ltb k h)) [
      | inl lt ↦ first.after k p (ltb→lt k h lt)
      | inr ge ↦ mono h k (ground arith) t
    ];
  }

  go_right : (i h j r : ℕ) → i ≤ h → f h ≡ false → IsFirst f (h + 1) j r → IsFirst f i j r
  go_right i h j r le no_h first = record {
    lower = omega (arith, first.lower);
    upper = first.upper;
    before = λ k p q. elim (Bool-cases (leb k h)) [
      | inl small ↦ below k h (leb→le k h small) no_h
      | inr large ↦ first.before k (ground arith) q
    ];
    after = first.after;
  }

  search_loop-IsFirst :
      (fuel i j : ℕ) → i ≤ j → j ≤ i + fuel → IsFirst f i j (search_loop f fuel i j)
  unfolding search_loop
  search_loop-IsFirst zero i j h b = record {
    lower = omega arith;
    upper = h;
    before = λ k p q. absurd (omega arith);
    after = λ k p q. absurd (omega arith);
  }
  search_loop-IsFirst (suc fuel) i j h b = elim (Bool-cases (ltb i j)) [
    | inl lt ↦
        let i<j : i < j = ltb→lt i j lt in
        elim (Bool-cases (f ((i + j) / 2))) [
          | inl yes_h ↦
              rw (lt, yes_h)
                (go_left i ((i + j) / 2) j _ (omega arith) yes_h
                  (search_loop-IsFirst fuel i ((i + j) / 2) (omega arith) (omega arith)))
          | inr no_h ↦
              rw (lt, no_h)
                (go_right i ((i + j) / 2) j _ (omega arith) no_h
                  (search_loop-IsFirst fuel ((i + j) / 2 + 1) j (omega arith) (omega arith)))
        ]
    | inr ge ↦ rw ge (record {
      lower = omega arith;
      upper = h;
      before = λ k p q. absurd (omega arith);
      after = λ k p q. absurd (ground arith);
    })
  ]

  -- For a test that holds on from where it first holds, sort.Search gives the first index of the
  -- n at which it holds, or n if it holds at none; n rounds are enough.
  pub search_index-IsFirst : (n : ℕ) → IsFirst f 0 n (search_index n f)
  unfolding search_index
  search_index-IsFirst n = search_loop-IsFirst n 0 n (omega arith) (omega arith)
