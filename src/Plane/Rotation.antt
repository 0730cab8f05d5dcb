-- ===== src/Plane/Rotation.antt =====
-- What `discover` answers for a registered name.
use native.Mathlib.Nat.{mod-add-mod, mod-eq_of_lt, mod_self, add-zero}
use service_mesh.Base.{
  ℕ, zero, suc, ◌+◌, ◌%◌, ◌<◌, String, Bool, true, false, Option, none, some, List, ◌≡◌, ◌≢◌, refl,
  arith, eq_iff, eq_refl, if◌then◌else◌, ◌==◌, length, get_elem?, Bool-cases, inl, inr, ◌∙◌, ap,
  sym,
}
use service_mesh.Base.Table.{find}
use service_mesh.Plane.{Service, Mesh, Answer, serves, idx_of, advance, release, discover}
use service_mesh.Plane.Turns.{InTurn, take_turn-serves, idx-advance, plane-InTurn}

-- The answer to the k-th request in a row for a name, counted from 0.
unfoldable pub kth_answer : String → ℕ → Mesh → Option Answer
kth_answer name zero m = elim (discover name m) [ none ↦ none | some (a, m1) ↦ some a ]
kth_answer name (suc k) m = elim (discover name m) [
  | none ↦ none
  | some (a, m1) ↦ kth_answer name k m1
]

abbrev pub serving : Option Service → Option Answer
serving none = none
serving (some s) = some (serves s)

-- The state after a request for a registered name that has n services.
abbrev after : String → ℕ → Mesh → Mesh
after name n m = record (advance name n (record m { locked = true })) { locked = false }

idx_relocked :
    (name : String) (m : Mesh) (b : Bool) → idx_of name (record m { locked = b }) ≡ idx_of name m
unfolding idx_of
idx_relocked name m b = refl

after_keeps : (name : String) (n : ℕ) (m : Mesh) → (after name n m).registry ≡ m.registry
unfolding advance
after_keeps name n m = refl

next_turn : (i n : ℕ) → i < n → (if i + 1 == n then 0 else i + 1) ≡ (i + 1) % n
next_turn i n h = elim (Bool-cases (i + 1 == n)) [
  | inl full ↦ let e : i + 1 ≡ n = ground arith in rw (full, e, mod_self)
  | inr more ↦ rw more (sym (mod-eq_of_lt (ground arith)))
]

module _ (name : String) (services : List Service) (named : name ≢ "") where
  discover_served :
      (m : Mesh)
      → m.locked ≡ false
      → find name m.registry ≡ some services
      → InTurn m
      → (s : Service) × (get_elem? services (idx_of name m) ≡ some s)
        × (discover name m ≡ some (serves s, after name (length services) m))
  unfolding discover release idx_of
  discover_served m free there turn =
      let held : Mesh = record m { locked = true } in
      let (s, found, taken) =
        take_turn-serves name services held (turn.in_range name services there) in
      (s, found, ground (arith, eq_iff name "", taken))

  turn-after :
      (m : Mesh)
      → idx_of name m < length services
      → idx_of name (after name (length services) m) ≡ (idx_of name m + 1) % length services
  turn-after m h =
      let held : Mesh = record m { locked = true } in
      let n : ℕ = length services in
      idx_relocked name (advance name n held) false
      ∙ idx-advance name name n held
      ∙ rw (eq_refl name, idx_relocked) (next_turn (idx_of name m) n h)

  after-InTurn :
      (m : Mesh)
      → m.locked ≡ false
      → find name m.registry ≡ some services
      → InTurn m
      → InTurn (after name (length services) m)
  after-InTurn m free there turn =
      let (s, found, served) = discover_served m free there turn in
      plane-InTurn.1 name m _ (serves s) served turn

  -- While the mutex is free, the indices are in range and nothing else asks the control plane, the
  -- k-th request for a registered name is served by the service k places after the first, around
  -- the list.
  pub kth_answer-turn :
      (k : ℕ) (m : Mesh)
      → m.locked ≡ false
      → find name m.registry ≡ some services
      → InTurn m
      → kth_answer name k m ≡ serving (get_elem? services ((idx_of name m + k) % length services))
  unfolding kth_answer
  kth_answer-turn zero m free there turn =
      let (s, found, served) = discover_served m free there turn in
      rw (add-zero, mod-eq_of_lt (turn.in_range name services there), served, kth_answer, found)
  kth_answer-turn (suc k) m free there turn =
      let (s, found, served) = discover_served m free there turn in
      let m1 : Mesh = after name (length services) m in
      let there1 : find name m1.registry ≡ some services =
        ap (find name) (after_keeps name (length services) m) ∙ there in
      rw (served, kth_answer)
        (kth_answer-turn k m1 refl there1 (after-InTurn m free there turn)
          ∙ ap (λ i. serving (get_elem? services i))
              (rw (turn-after m (turn.in_range name services there), mod-add-mod) (ground arith)))
