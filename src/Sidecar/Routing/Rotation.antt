-- ===== src/Sidecar/Routing/Rotation.antt =====
-- The index of the endpoint that is chosen.
use native.Mathlib.Nat.{mod-add-mod, mod-lt, mod-eq_of_lt, mod-eq-sub-mod}
use service_mesh.Base.{
  ℕ, zero, suc, ◌+◌, ◌%◌, ◌-◌, leb, leb→le, Bool-cases, sym, ◌∙◌, ◌<◌, String, ◌≡◌, ◌≢◌, arith,
  eq_iff, eq_refl, if◌then◌else◌, inl, inr,
}
use service_mesh.Base.Table.{find, find-put}
use service_mesh.Sidecar.World.{World}
use service_mesh.Sidecar.Routing.{RoutingMiddleware, or_zero, select_index}

abbrev pub IsRoundRobin : RoutingMiddleware → Type 0
IsRoundRobin m = (m.load_balancer_policy ≢ "none") × (m.load_balancer_policy ≢ "random")

-- The index of a key's k-th choice, counted from 0, among n endpoints that stay the same, with
-- no choice for the key between them.
unfoldable pub kth_index : RoutingMiddleware → String → ℕ → ℕ → World → ℕ
kth_index m key n zero w = (select_index m key n w).0
kth_index m key n (suc k) w = kth_index m key n k (select_index m key n w).1

once_round :
    (r i n : ℕ) → r < n → i < n → (r + i) % n ≡ (if leb n (r + i) then r + i - n else r + i)
once_round r i n hr hi = elim (Bool-cases (leb n (r + i))) [
  | inl over ↦
      rw over (
        mod-eq-sub-mod (leb→le n (r + i) over)
        ∙ mod-eq_of_lt (omega (arith, leb→le n (r + i) over)))
  | inr below ↦ rw below (mod-eq_of_lt (ground arith))
]

mod_cancel : (t j k n : ℕ) → j < n → k < n → (t + j) % n ≡ (t + k) % n → j ≡ k
mod_cancel t j k n hj hk same =
    let r : ℕ = t % n in
    let hr : r < n = mod-lt t (omega arith) in
    ground
      (arith, mod-add-mod t n j, mod-add-mod t n k, once_round r j n hr hj, once_round r k n hr hk)

module _ (m : RoutingMiddleware) (key : String) where
  unfoldable pub turn : World → ℕ
  unfolding or_zero
  turn w = or_zero (find key w.round_robin)

  -- Every policy chooses an index of the list, if the random source keeps its own bound.
  pub select_index-lt :
      (n : ℕ) (w : World)
      → 0 < n
      → ((seed b : ℕ) → 0 < b → m.intn seed b < b)
      → (select_index m key n w).0 < n
  unfolding select_index
  select_index-lt n w pos bound = ground (arith, bound w.seed n)

  pub select_index-turn :
      (n : ℕ) (w : World)
      → IsRoundRobin m
      → ((select_index m key n w).0 ≡ turn w % n)
        × (turn (select_index m key n w).1 ≡ (turn w + 1) % n)
  unfolding select_index turn
  select_index-turn n w h = ground (
    arith,
    eq_iff m.load_balancer_policy "none",
    eq_iff m.load_balancer_policy "random",
    find-put key key ((turn w + 1) % n) w.round_robin,
    eq_refl key,
  )

  -- With round robin the k-th choice is k places after the first, around the list.
  kth_index-turn :
      (n k : ℕ) (w : World) → IsRoundRobin m → 0 < n → kth_index m key n k w ≡ (turn w + k) % n
  unfolding kth_index
  kth_index-turn n zero w h pos = ground (arith, select_index-turn n w h)
  kth_index-turn n (suc k) w h pos =
      let rest = kth_index-turn n k (select_index m key n w).1 h pos in
      rw (rest, (select_index-turn n w h).1, mod-add-mod) (ground arith)

  kth_index-injective :
      (n j k : ℕ) (w : World)
      → IsRoundRobin m
      → j < n
      → k < n
      → kth_index m key n j w ≡ kth_index m key n k w
      → j ≡ k
  kth_index-injective n j k w h hj hk same =
      mod_cancel (turn w) j k n hj hk
        (sym (kth_index-turn n j w h (omega arith)) ∙ same ∙ kth_index-turn n k w h (omega arith))

  -- With round robin, two different choices among n in a row have different indices, so each of
  -- the n endpoints has its turn.
  kth_index_distinct :
      (n j k : ℕ) (w : World)
      → IsRoundRobin m
      → j < k
      → k < n
      → kth_index m key n j w ≢ kth_index m key n k w
  kth_index_distinct n j k w robin before below same =
      let e : j ≡ k = kth_index-injective n j k w robin (omega arith) below same in omega arith

  -- The choices of one key leave the turns of every other key as they are.
  pub select_index_isolated :
      (n : ℕ) (j : String) (w : World)
      → key ≢ j
      → find j (select_index m key n w).1.round_robin ≡ find j w.round_robin
  unfolding select_index
  select_index_isolated n j w h = ground (
    arith,
    eq_iff key j,
    find-put key j ((or_zero (find key w.round_robin) + 1) % n) w.round_robin,
  )
