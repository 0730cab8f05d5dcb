-- ===== src/Examples/Plane.antt =====
-- The control plane with two services of one name.
use service_mesh.Base.{◌≡◌, ◌≢◌, inl, refl, none, some, false, [], ◌∷◌, differ}
use service_mesh.Base.Table.{find, put}
use service_mesh.Plane.{
  Service, Mesh, new, done, serves, not_found, panicked, register, discover, get_address, enroll,
  services_of, idx_of,
}
use service_mesh.Plane.Reach.{Reachable, started, registered, Reachable-InTurn, never_panics}
use service_mesh.Plane.Rotation.{kth_answer, kth_answer-turn}
use service_mesh.Plane.Lock.{unknown_name_blocks}

abbrev first : Service
first = record { name = "cart"; address = "cart-1:8080" }

abbrev second : Service
second = record { name = "cart"; address = "cart-2:8080" }

abbrev with_one : Mesh
with_one = record { locked = false; registry = ("cart", first ∷ []) ∷ []; idx = [] }

abbrev with_two : Mesh
with_two = record { locked = false; registry = ("cart", first ∷ second ∷ []) ∷ []; idx = [] }

abbrev after_one : Mesh
after_one = record with_two { idx = ("cart", 1) ∷ [] }

with_two-Reachable : Reachable with_two
unfolding register enroll services_of find put
with_two-Reachable =
    registered (some second) with_one with_two done
      (registered (some first) new with_one done started refl) refl

unknown_name_blocks_example :
    (m1 : Mesh) × (discover "pay" with_two ≡ some (not_found, m1))
    × (register (some first) m1 ≡ none)
    × (discover "cart" m1 ≡ none)
    × (get_address "cart.mesh" m1 ≡ none)
unfolding find
unknown_name_blocks_example =
    unknown_name_blocks "pay" "cart" "cart.mesh" first with_two (differ "pay" "" refl)
      (differ "cart" "" refl) refl refl

kth_answer-turn_example : kth_answer "cart" 3 with_two ≡ some (serves second)
unfolding find idx_of
kth_answer-turn_example =
    kth_answer-turn "cart" (first ∷ second ∷ []) (differ "cart" "" refl) 3 with_two refl refl
      (Reachable-InTurn with_two with_two-Reachable)

never_panics_example : serves first ≢ panicked
unfolding discover find put idx_of
never_panics_example =
    never_panics with_two after_one "cart" "cart.mesh" (serves first) with_two-Reachable (inl refl)
