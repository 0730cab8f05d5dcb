-- ===== src/Hook/Patch/Noted.antt =====
-- A pod's annotations after the patch.
use mathlib.Core.Path.{subst}
use service_mesh.Base.{
  String, Bool, true, false, Option, none, some, List, [], ◌∷◌, ◌≡◌, refl, sym, inl, inr, ◌||◌,
  arith, map, str_eq, eq_refl, Bool-cases,
}
use service_mesh.Base.Sort.{sort, insert_sorted, text_before}
use service_mesh.Base.Table.{Table, find, put}
use service_mesh.Base.Int.{int_text}
use service_mesh.Hook.{Config, Pod}
use service_mesh.Hook.Patch.{
  text_at, key_operations, is_member, sorted_keys, build_annotations_patch_ops,
}
use service_mesh.Hook.Patch.Apply.{PatchServer, run}
use service_mesh.Hook.Patch.Annotations.{write_keys, Agrees, find-write_keys, run-key_operations}
use service_mesh.Hook.Patch.Build.{annotations_of, desired_annotations}

unfoldable pub noted : Option (Table String) → Table String → Table String
noted none desired = desired
noted (some m) desired = write_keys m desired (sorted_keys desired) m

is_member-insert :
    (k s : String) (ss : List String)
    → is_member k (insert_sorted text_before s ss) ≡ (str_eq s k || is_member k ss)
unfolding is_member insert_sorted
is_member-insert k s [] = ground arith
is_member-insert k s (t ∷ ss) = ground (arith, is_member-insert k s ss)

is_member-sort :
    (k : String) (ss : List String) → is_member k (sort text_before ss) ≡ is_member k ss
unfolding is_member sort
is_member-sort k [] = refl
is_member-sort k (s ∷ ss) =
    rw (is_member-insert k s (sort text_before ss), is_member-sort k ss) refl

key_found :
    (k : String) (m : Table String)
    → is_member k (map (λ entry. entry.0) m) ≡ true
    → find k m ≡ some (text_at k m)
unfolding is_member find text_at
key_found k [] h = absurd (ground arith)
key_found k ((j, v) ∷ m) h = elim (Bool-cases (str_eq j k)) [
  | inl same ↦ rw (same, text_at, find) refl
  | inr other ↦ rw (other, text_at, find) (key_found k m (ground arith))
]

sorted_key_found :
    (k : String) (m : Table String)
    → is_member k (sorted_keys m) ≡ true
    → find k m ≡ some (text_at k m)
unfolding sorted_keys
sorted_key_found k m h = key_found k m (rw (sym (is_member-sort k (map (λ entry. entry.0) m))) h)

nothing_written : (m desired : Table String) → Agrees m desired m
unfolding Agrees
nothing_written m desired j = inl refl

pub noted-found :
    (existing : Option (Table String)) (desired : Table String) (k : String)
    → is_member k (sorted_keys desired) ≡ true
    → find k (noted existing desired) ≡ some (text_at k desired)
unfolding noted
noted-found none desired k h = sorted_key_found k desired h
noted-found (some m) desired k h =
    rw (find-write_keys m desired (sorted_keys desired) m k (nothing_written m desired), h) refl

pub noted-other :
    (m desired : Table String) (j : String)
    → is_member j (sorted_keys desired) ≡ false
    → find j (noted (some m) desired) ≡ find j m
unfolding noted
noted-other m desired j h =
    rw (find-write_keys m desired (sorted_keys desired) m j (nothing_written m desired), h) refl

-- Nothing is left to write where every key has its text.
key_operations-none :
    (existing desired : Table String) (keys : List String)
    → ((k : String) → is_member k keys ≡ true → find k existing ≡ some (text_at k desired))
    → key_operations existing desired keys ≡ []
unfolding key_operations is_member
key_operations-none existing desired [] h = refl
key_operations-none existing desired (key ∷ keys) h =
    rw (key_operations, h key (ground (arith, eq_refl key)), eq_refl (text_at key desired))
      (key_operations-none existing desired keys (λ k member. h k (ground arith)))

pub noted_nothing_left :
    (existing : Option (Table String)) (desired : Table String)
    → build_annotations_patch_ops (some (noted existing desired)) desired ≡ []
unfolding build_annotations_patch_ops
noted_nothing_left existing [] = refl
noted_nothing_left existing (entry ∷ desired) =
    key_operations-none (noted existing (entry ∷ desired)) (entry ∷ desired)
      (sorted_keys (entry ∷ desired)) (noted-found existing (entry ∷ desired))

run-entries :
    (server : PatchServer) (existing : Option (Table String)) (entry : String × String)
    (desired : Table String) (p : Pod)
    → p.annotations ≡ existing
    → run server (build_annotations_patch_ops existing (entry ∷ desired)) p
      ≡ some (record p { annotations = some (noted existing (entry ∷ desired)) })
unfolding build_annotations_patch_ops noted run
run-entries server none entry desired p e = rw (server.sets_annotations (entry ∷ desired) p) refl
run-entries server (some m) entry desired p e =
    run-key_operations server m (entry ∷ desired) (sorted_keys (entry ∷ desired)) m p
      (nothing_written m (entry ∷ desired)) e

filled :
    (monitoring : Bool) (version port : String)
    → (entry : String × String) × (rest : Table String) × (annotations_of monitoring version port
        ≡ entry ∷ rest)
unfolding annotations_of put
filled true version port = (("sidecar.mesh.io/injected", "true"), _, refl)
filled false version port = (("sidecar.mesh.io/injected", "true"), _, refl)

-- The operations on the annotations can all be applied.
pub run-annotations :
    (server : PatchServer) (cfg : Config) (existing : Option (Table String)) (p : Pod)
    → p.annotations ≡ existing
    → run server (build_annotations_patch_ops existing (desired_annotations cfg)) p
      ≡ some (record p { annotations = some (noted existing (desired_annotations cfg)) })
unfolding desired_annotations
run-annotations server cfg existing p e =
    let (entry, rest, same) =
      filled cfg.monitoring_enabled cfg.mesh_version (int_text cfg.metrics_port) in
    subst
      (λ d.
        run server (build_annotations_patch_ops existing d) p
        ≡ some (record p { annotations = some (noted existing d) }))
      (sym same) (run-entries server existing entry rest p e)

pub marks :
    (monitoring : Bool) (version port : String)
    → let d = annotations_of monitoring version port in
      (is_member "sidecar.mesh.io/injected" (sorted_keys d) ≡ true)
      × (is_member "sidecar.mesh.io/inject" (sorted_keys d) ≡ false)
      × (text_at "sidecar.mesh.io/injected" d ≡ "true")
      × (find "sidecar.mesh.io/inject" d ≡ none)
unfolding annotations_of put find text_at is_member sorted_keys sort insert_sorted text_before
marks true version port = (refl, refl, refl, refl)
marks false version port = (refl, refl, refl, refl)
