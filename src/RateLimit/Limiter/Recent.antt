-- ===== src/RateLimit/Limiter/Recent.antt =====
-- Lists of hits and the part of them that a trailing window shows.
use service_mesh.Base.{
  ℕ, ◌+◌, ◌-◌, ◌≤◌, ◌<◌, Bool, List, [], ◌∷◌, ◌++◌, ◌≡◌, refl, arith, ltb, leb, length, All,
  Bool-cases, inl, inr, not,
}
use service_mesh.RateLimit.Hits.{IsSorted, insert_sorted, keep_if}

-- The hits of the window that ends at `now`.
unfoldable pub recent : ℕ → ℕ → List ℕ → List ℕ
recent window now = keep_if (λ x. ltb (now - window) x)

pub recent-append :
    (p : ℕ → Bool) (xs ys : List ℕ) → keep_if p (xs ++ ys) ≡ keep_if p xs ++ keep_if p ys
unfolding keep_if
recent-append p [] ys = refl
recent-append p (x ∷ xs) ys = ground (arith, recent-append p xs ys)

-- What is recent now is all that matters later.
pub recent-recent :
    (window now later : ℕ) (xs : List ℕ)
    → now ≤ later
    → recent window later (recent window now xs) ≡ recent window later xs
unfolding recent keep_if
recent-recent window now later [] h = refl
recent-recent window now later (x ∷ xs) h = ground (arith, recent-recent window now later xs h)

pub none_recent :
    (window now : ℕ) (xs : List ℕ) (last : ℕ)
    → All (λ x. x ≤ last) xs
    → last + window < now
    → recent window now xs ≡ []
unfolding recent keep_if
none_recent window now [] last h lt = refl
none_recent window now (x ∷ xs) last (h, hs) lt =
    ground (arith, none_recent window now xs last hs lt)

keep_if-All : (p : ℕ → Bool) (P : ℕ → Type 0) (xs : List ℕ) → All P xs → All P (keep_if p xs)
unfolding keep_if
keep_if-All p P [] h = tt
keep_if-All p P (x ∷ xs) (h, hs) = elim (Bool-cases (p x)) [
  | inl t ↦ rw t (h, keep_if-All p P xs hs)
  | inr f ↦ rw f (keep_if-All p P xs hs)
]

keep_if-IsSorted : (p : ℕ → Bool) (xs : List ℕ) → IsSorted xs → IsSorted (keep_if p xs)
unfolding keep_if
keep_if-IsSorted p [] s = tt
keep_if-IsSorted p (x ∷ xs) (h, hs) = elim (Bool-cases (p x)) [
  | inl t ↦ rw t (keep_if-All p _ xs h, keep_if-IsSorted p xs hs)
  | inr f ↦ rw f (keep_if-IsSorted p xs hs)
]

-- The newest hit goes to the end.
pub insert_newest :
    (x : ℕ) (ys : List ℕ) → IsSorted ys → All (λ y. y ≤ x) ys → insert_sorted x ys ≡ ys ++ x ∷ []
unfolding insert_sorted
insert_newest x [] s h = refl
insert_newest x (y ∷ []) s (h, hs) = ground arith
insert_newest x (y ∷ z ∷ zs) (a, b) (h, hs) = ground (arith, insert_newest x (z ∷ zs) b hs, a.0)

pub none_before :
    (lo : ℕ) (xs : List ℕ) → All (λ x. lo ≤ x) xs → keep_if (λ x. not (leb lo x)) xs ≡ []
unfolding keep_if
none_before lo [] h = refl
none_before lo (x ∷ xs) (h, hs) = ground (arith, none_before lo xs hs)

pub length-keep_if : (p : ℕ → Bool) (xs : List ℕ) → length (keep_if p xs) ≤ length xs
unfolding keep_if
length-keep_if p [] = omega arith
length-keep_if p (x ∷ xs) = ground (arith, length-keep_if p xs)

pub recent-IsSorted : (window now : ℕ) (xs : List ℕ) → IsSorted xs → IsSorted (recent window now xs)
unfolding recent
recent-IsSorted window now xs s = keep_if-IsSorted (λ x. ltb (now - window) x) xs s

pub recent-All :
    (window now : ℕ) (P : ℕ → Type 0) (xs : List ℕ) → All P xs → All P (recent window now xs)
unfolding recent
recent-All window now P xs h = keep_if-All (λ x. ltb (now - window) x) P xs h

pub All-append : (P : ℕ → Type 0) (xs ys : List ℕ) → All P xs → All P ys → All P (xs ++ ys)
All-append P [] ys h k = k
All-append P (x ∷ xs) ys (h, hs) k = (h, All-append P xs ys hs k)

pub All-mono : (P Q : ℕ → Type 0) (xs : List ℕ) → ((x : ℕ) → P x → Q x) → All P xs → All Q xs
All-mono P Q [] f h = tt
All-mono P Q (x ∷ xs) f (h, hs) = (f x h, All-mono P Q xs f hs)

pub IsSorted-newest :
    (x : ℕ) (ys : List ℕ) → IsSorted ys → All (λ y. y ≤ x) ys → IsSorted (ys ++ x ∷ [])
IsSorted-newest x [] s h = (tt, tt)
IsSorted-newest x (y ∷ ys) (a, s) (h, hs) =
    (All-append (λ z. y ≤ z) ys (x ∷ []) a (h, tt), IsSorted-newest x ys s hs)
