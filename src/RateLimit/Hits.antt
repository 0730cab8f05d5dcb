-- ===== src/RateLimit/Hits.antt =====
-- The list of hits of a key: what the insertion and the removal by binary search do to it.
use service_mesh.Base.{
  ℕ, zero, suc, ◌≤◌, Bool, true, false, none, some, List, [], ◌∷◌, ◌++◌, ◌≡◌, refl, arith, ap, ltb,
  leb, if◌then◌else◌, length, take, drop, get_elem?, All, not,
}
use mathlib.Core.Path.{ap₂}
use service_mesh.RateLimit.{insert_hit, remove_hits}
use service_mesh.RateLimit.Search.{Monotone, IsFirst, search_index-IsFirst}

-- Oldest first.
abbrev pub IsSorted : List ℕ → Type 0
IsSorted [] = Unit
IsSorted (x ∷ xs) = All (λ y. x ≤ y) xs × IsSorted xs

-- The reference: a hit goes before the first that is no older.
unfoldable pub insert_sorted : ℕ → List ℕ → List ℕ
insert_sorted x [] = x ∷ []
insert_sorted x (y ∷ ys) = let rest = insert_sorted x ys in if leb x y then x ∷ y ∷ ys else y ∷ rest

unfoldable pub keep_if : (ℕ → Bool) → List ℕ → List ℕ
keep_if p [] = []
keep_if p (x ∷ xs) = let rest = keep_if p xs in if p x then x ∷ rest else rest

-- A test on the entries of a list, which holds beyond its end.
abbrev pub at_index : (ℕ → Bool) → List ℕ → ℕ → Bool
at_index p slice i = elim (get_elem? slice i) [ none ↦ true | some y ↦ p y ]

-- The test goes on holding for all that is larger.
abbrev pub Upward : (ℕ → Bool) → Type 0
Upward p = (x y : ℕ) → x ≤ y → p x ≡ true → p y ≡ true

at_index-All :
    (p : ℕ → Bool) (x : ℕ) (ys : List ℕ) (j : ℕ)
    → Upward p
    → All (λ y. x ≤ y) ys
    → p x ≡ true
    → at_index p ys j ≡ true
at_index-All p x [] j up h t = refl
at_index-All p x (y ∷ ys) zero up (h, hs) t = up x y h t
at_index-All p x (y ∷ ys) (suc j) up (h, hs) t = at_index-All p x ys j up hs t

at_index-Monotone :
    (p : ℕ → Bool) (slice : List ℕ) → Upward p → IsSorted slice → Monotone (at_index p slice)
at_index-Monotone p [] up s i j le t = refl
at_index-Monotone p (x ∷ xs) up s zero zero le t = t
at_index-Monotone p (x ∷ xs) up s zero (suc j) le t = at_index-All p x xs j up s.0 t
at_index-Monotone p (x ∷ xs) up s (suc i) zero le t = absurd (omega arith)
at_index-Monotone p (x ∷ xs) up s (suc i) (suc j) le t =
    at_index-Monotone p xs up s.1 i j (omega arith) t

module _ (p : ℕ → Bool) (x : ℕ) (xs : List ℕ) (n : ℕ) where
  tail_of_suc :
      (r : ℕ) → IsFirst (at_index p (x ∷ xs)) 0 (suc n) (suc r) → IsFirst (at_index p xs) 0 n r
  tail_of_suc r first = record {
    lower = omega arith;
    upper = omega (arith, first.upper);
    before = λ k a b. first.before (suc k) (omega arith) (omega arith);
    after = λ k a b. first.after (suc k) (omega arith) (omega arith);
  }

  tail_of_zero : IsFirst (at_index p (x ∷ xs)) 0 (suc n) 0 → IsFirst (at_index p xs) 0 n 0
  tail_of_zero first = record {
    lower = omega arith;
    upper = omega arith;
    before = λ k a b. absurd (omega arith);
    after = λ k a b. first.after (suc k) (omega arith) (omega arith);
  }

  at_zero : IsFirst (at_index p (x ∷ xs)) 0 (suc n) 0 → p x ≡ true
  at_zero first = first.after 0 (omega arith) (omega arith)

  at_suc : (r : ℕ) → IsFirst (at_index p (x ∷ xs)) 0 (suc n) (suc r) → p x ≡ false
  at_suc r first = first.before 0 (omega arith) (omega arith)

drop-keep_if :
    (p : ℕ → Bool) (slice : List ℕ) (r : ℕ)
    → IsFirst (at_index p slice) 0 (length slice) r
    → drop r slice ≡ keep_if p slice
unfolding keep_if
drop-keep_if p [] zero first = refl
drop-keep_if p [] (suc r) first = refl
drop-keep_if p (x ∷ xs) zero first =
    rw (at_zero p x xs (length xs) first)
      (ap (λ l. x ∷ l) (drop-keep_if p xs zero (tail_of_zero p x xs (length xs) first)))
drop-keep_if p (x ∷ xs) (suc r) first =
    rw (at_suc p x xs (length xs) r first)
      (drop-keep_if p xs r (tail_of_suc p x xs (length xs) r first))

take-keep_if :
    (p : ℕ → Bool) (slice : List ℕ) (r : ℕ)
    → IsFirst (at_index p slice) 0 (length slice) r
    → take r slice ≡ keep_if (λ x. not (p x)) slice
unfolding keep_if
take-keep_if p [] zero first = refl
take-keep_if p [] (suc r) first = refl
take-keep_if p (x ∷ xs) zero first =
    rw (at_zero p x xs (length xs) first)
      (take-keep_if p xs zero (tail_of_zero p x xs (length xs) first))
take-keep_if p (x ∷ xs) (suc r) first =
    rw (at_suc p x xs (length xs) r first)
      (ap (λ l. x ∷ l) (take-keep_if p xs r (tail_of_suc p x xs (length xs) r first)))

place-insert_sorted :
    (x : ℕ) (slice : List ℕ) (r : ℕ)
    → IsFirst (at_index (leb x) slice) 0 (length slice) r
    → take r slice ++ x ∷ drop r slice ≡ insert_sorted x slice
unfolding insert_sorted
place-insert_sorted x [] zero first = refl
place-insert_sorted x [] (suc r) first = refl
place-insert_sorted x (y ∷ ys) zero first = rw (at_zero (leb x) y ys (length ys) first)
place-insert_sorted x (y ∷ ys) (suc r) first =
    rw (at_suc (leb x) y ys (length ys) r first)
      (ap (λ l. y ∷ l) (place-insert_sorted x ys r (tail_of_suc (leb x) y ys (length ys) r first)))

reaches_up : (x : ℕ) → Upward (leb x)
reaches_up x a b h t = ground arith

exceeds_up : (x : ℕ) → Upward (ltb x)
exceeds_up x a b h t = ground arith

-- On sorted hits the insertion by binary search is the insertion before the first hit that is no
-- older.
pub insert_hit-insert_sorted :
    (x : ℕ) (slice : List ℕ) → IsSorted slice → insert_hit x slice ≡ insert_sorted x slice
unfolding insert_hit
insert_hit-insert_sorted x slice s =
    place-insert_sorted x slice _
      (search_index-IsFirst _ (at_index-Monotone (leb x) slice (reaches_up x) s) (length slice))

-- On sorted hits the removal by two binary searches keeps the hits that are older than the range,
-- and those that are newer than it.
pub remove_hits-keep_if :
    (lo hi : ℕ) (slice : List ℕ)
    → IsSorted slice
    → remove_hits lo hi slice ≡ keep_if (λ x. not (leb lo x)) slice ++ keep_if (λ x. ltb hi x) slice
unfolding remove_hits
remove_hits-keep_if lo hi slice s =
    ap₂ ◌++◌
      (take-keep_if (leb lo) slice _ (
        search_index-IsFirst _ (at_index-Monotone (leb lo) slice (reaches_up lo) s) (length slice)))
      (drop-keep_if (ltb hi) slice _ (
        search_index-IsFirst _ (at_index-Monotone (ltb hi) slice (exceeds_up hi) s) (length slice)))
