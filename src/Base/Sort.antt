-- ===== src/Base/Sort.antt =====
-- Go's `sort`, as insertion into a sorted list: what a sort gives is the only such list when the
-- elements are all different, as they are wherever the mesh sorts.
use Prim.Native.Nat.{ℕ}
use Prim.Native.Char.{code}
use Prim.Native.String.{String}
use mathlib.Core.Bool.{Bool, true, false, ◌&&◌, ◌||◌, not}
use mathlib.Core.List.{List, [], ◌∷◌}
use mathlib.Core.Path.{◌≡◌, refl}
use native.Mathlib.Omega.{arith}
use service_mesh.Base.Num.{◌==◌, ltb, if◌then◌else◌}

module _ {ℓ} {A : Type ℓ} (before : A → A → Bool) where
  unfoldable pub insert_sorted : A → List A → List A
  insert_sorted x [] = x ∷ []
  insert_sorted x (y ∷ ys) =
      let rest = insert_sorted x ys in if before x y then x ∷ y ∷ ys else y ∷ rest

  unfoldable pub sort : List A → List A
  unfolding insert_sorted
  sort [] = []
  sort (x ∷ xs) = insert_sorted x (sort xs)

-- The order of Go's strings: by the first character that differs.
unfoldable pub text_before : String → String → Bool
text_before s String.[] = false
text_before String.[] (String.◌∷◌ d t) = true
text_before (String.◌∷◌ c s) (String.◌∷◌ d t) =
    let rest = text_before s t in
    if ltb (code c) (code d) then true else if code c == code d then rest else false

-- Whether a number occurs in a list.
unfoldable pub has : ℕ → List ℕ → Bool
has n [] = false
has n (k ∷ ks) = k == n || has n ks

unfoldable pub distinct : List ℕ → Bool
unfolding has
distinct [] = true
distinct (k ∷ ks) = not (has k ks) && distinct ks

-- Whether each number is below the next one.
unfoldable pub increasing : List ℕ → Bool
increasing [] = true
increasing (k ∷ []) = true
increasing (k ∷ j ∷ ks) = ltb k j && increasing (j ∷ ks)

has-insert : (n x : ℕ) (ys : List ℕ) → has n (insert_sorted ltb x ys) ≡ (x == n || has n ys)
unfolding has insert_sorted
has-insert n x [] = ground arith
has-insert n x (y ∷ ys) = ground (arith, has-insert n x ys)

pub has-sort : (n : ℕ) (xs : List ℕ) → has n (sort ltb xs) ≡ has n xs
unfolding has sort
has-sort n [] = refl
has-sort n (x ∷ xs) = rw (has-insert n x (sort ltb xs), has-sort n xs) refl

increasing-insert :
    (x : ℕ) (ys : List ℕ)
    → increasing ys ≡ true
    → has x ys ≡ false
    → increasing (insert_sorted ltb x ys) ≡ true
unfolding increasing insert_sorted has
increasing-insert x [] up new = refl
increasing-insert x (y ∷ []) up new = ground arith
increasing-insert x (y ∷ z ∷ ys) up new = ground (arith, increasing-insert x (z ∷ ys))

pub increasing-sort : (xs : List ℕ) → distinct xs ≡ true → increasing (sort ltb xs) ≡ true
unfolding sort distinct increasing
increasing-sort [] h = refl
increasing-sort (x ∷ xs) h =
    increasing-insert x (sort ltb xs) (increasing-sort xs (ground arith))
      (ground (arith, has-sort x xs))
