-- ===== src/Hook/Patch/Annotations.antt =====
-- What the operations on the annotations leave.
use mathlib.Core.Path.{subst}
use service_mesh.Base.{
  String, none, some, List, [], ◌∷◌, ◌≡◌, refl, sym, ◌⊎◌, inl, inr, ◌<>◌, arith, ap, if◌then◌else◌,
  str_eq, eq_iff, Bool-cases, Option-cases,
}
use service_mesh.Base.Table.{Table, find, put, find-put}
use service_mesh.Hook.{Pod}
use service_mesh.Hook.Pointer.{escape_json_pointer, read_token-escape_json_pointer, escape-has_code}
use service_mesh.Hook.Patch.{text, add, replace, text_at, key_operations, is_member}
use service_mesh.Hook.Patch.Apply.{PatchServer, run}

-- One step of the loop on the table that the patch has changed so far.
write_key : Table String → Table String → String → Table String → Table String
write_key existing desired key m = elim (find key existing) [
  | none ↦ put key (text_at key desired) m
  | some current ↦
      if str_eq current (text_at key desired) then m else put key (text_at key desired) m
]

unfoldable pub write_keys : Table String → Table String → List String → Table String → Table String
unfolding write_key
write_keys existing desired [] m = m
write_keys existing desired (key ∷ keys) m =
    write_keys existing desired keys (write_key existing desired key m)

-- What the patch has not written yet stands as it was.
unfoldable pub Agrees : Table String → Table String → Table String → Type 0
Agrees existing desired m =
    (j : String) → (find j m ≡ find j existing) ⊎ (find j m ≡ some (text_at j desired))

find-put_desired :
    (desired m : Table String) (key j : String)
    → find j (put key (text_at key desired) m)
      ≡ (if str_eq key j then some (text_at j desired) else find j m)
find-put_desired desired m key j = elim (Bool-cases (str_eq key j)) [
  | inl same ↦
      let one : key ≡ j = ground (arith, eq_iff key j) in
      rw (find-put key j (text_at key desired) m, same) (ap (λ k. some (text_at k desired)) one)
  | inr other ↦ rw (find-put key j (text_at key desired) m, other) refl
]

known_text :
    (existing desired m : Table String) (key : String)
    → Agrees existing desired m
    → find key existing ≡ some (text_at key desired)
    → find key m ≡ some (text_at key desired)
unfolding Agrees
known_text existing desired m key agrees e = elim (agrees key) [
  | inl same ↦ ground arith
  | inr set ↦ set
]

-- After its step a key has the text that is desired.
find-write_key :
    (existing desired m : Table String) (key j : String)
    → Agrees existing desired m
    → find j (write_key existing desired key m)
      ≡ (if str_eq key j then some (text_at j desired) else find j m)
unfolding write_key
find-write_key existing desired m key j agrees = elim (Option-cases (find key existing)) [
  | inl absent ↦ rw (absent, write_key) (find-put_desired desired m key j)
  | inr (current, there) ↦ elim (Bool-cases (str_eq current (text_at key desired))) [
    | inr differs ↦ rw (there, write_key, differs) (find-put_desired desired m key j)
    | inl equal ↦
        rw (there, write_key, equal)
          (elim (Bool-cases (str_eq key j)) [
            | inr other ↦ rw other refl
            | inl same ↦
                let one : key ≡ j = ground (arith, eq_iff key j) in
                let text_same : current ≡ text_at key desired =
                  ground (arith, eq_iff current (text_at key desired)) in
                let found : find key m ≡ some (text_at key desired) =
                  known_text existing desired m key agrees (ground arith) in
                rw same (subst (λ k. find k m ≡ some (text_at k desired)) one found)
          ])
  ]
]

step_keeps :
    (existing desired m : Table String) (key : String)
    → Agrees existing desired m
    → Agrees existing desired (write_key existing desired key m)
unfolding Agrees
step_keeps existing desired m key agrees j = elim (Bool-cases (str_eq key j)) [
  | inl same ↦ inr (ground (arith, find-write_key existing desired m key j agrees))
  | inr other ↦ elim (agrees j) [
    | inl old ↦ inl (ground (arith, find-write_key existing desired m key j agrees))
    | inr set ↦ inr (ground (arith, find-write_key existing desired m key j agrees))
  ]
]

-- After the loop every key has the text that is desired, and what is no key stands as it was.
pub find-write_keys :
    (existing desired : Table String) (keys : List String) (m : Table String) (j : String)
    → Agrees existing desired m
    → find j (write_keys existing desired keys m)
      ≡ (if is_member j keys then some (text_at j desired) else find j m)
unfolding write_keys is_member
find-write_keys existing desired [] m j agrees = refl
find-write_keys existing desired (key ∷ keys) m j agrees = ground (
  arith,
  find-write_keys existing desired keys (write_key existing desired key m) j
      (step_keeps existing desired m key agrees),
  find-write_key existing desired m key j agrees,
)

put_escaped :
    (server : PatchServer) (key v : String) (m : Table String) (p : Pod)
    → p.annotations ≡ some m
    → server.apply (add ("/metadata/annotations/" <> escape_json_pointer key) (text v)) p
      ≡ some (record p { annotations = some (put key v m) })
put_escaped server key v m p e =
    rw
      (
        server.adds_annotation (escape_json_pointer key) v m p e (escape-has_code key),
        read_token-escape_json_pointer key,
      )
      refl

replace_escaped :
    (server : PatchServer) (key v w : String) (m : Table String) (p : Pod)
    → p.annotations ≡ some m
    → find key m ≡ some w
    → server.apply (replace ("/metadata/annotations/" <> escape_json_pointer key) (text v)) p
      ≡ some (record p { annotations = some (put key v m) })
replace_escaped server key v w m p e there =
    rw
      (
        server.replaces_annotation (escape_json_pointer key) v w m p e (escape-has_code key)
            (rw (read_token-escape_json_pointer key) there),
        read_token-escape_json_pointer key,
      )
      refl

still_present :
    (existing desired m : Table String) (key current : String)
    → Agrees existing desired m
    → find key existing ≡ some current
    → (w : String) × (find key m ≡ some w)
unfolding Agrees
still_present existing desired m key current agrees there = elim (agrees key) [
  | inl same ↦ (current, ground arith)
  | inr set ↦ (text_at key desired, set)
]

-- The rest of the loop, once the table is known that the step leaves.
loop_from :
    (server : PatchServer) (existing desired : Table String) (key : String) (keys : List String)
    (m m1 : Table String) (p : Pod)
    → write_key existing desired key m ≡ m1
    → run server
        (key_operations existing desired keys)
        (record p { annotations = some (write_key existing desired key m) })
      ≡ some (record p {
        annotations = some (write_keys existing desired keys (write_key existing desired key m));
      })
    → run server (key_operations existing desired keys) (record p { annotations = some m1 })
      ≡ some (record p {
        annotations = some (write_keys existing desired keys (write_key existing desired key m));
      })
loop_from server existing desired key keys m m1 p same h =
    subst
      (λ t.
        run server (key_operations existing desired keys) (record p { annotations = some t })
        ≡ some (record p {
          annotations = some (write_keys existing desired keys (write_key existing desired key m));
        }))
      same h

-- The operations can all be applied, and leave what the loop writes.
pub run-key_operations :
    (server : PatchServer) (existing desired : Table String) (keys : List String) (m : Table String)
    (p : Pod)
    → Agrees existing desired m
    → p.annotations ≡ some m
    → run server (key_operations existing desired keys) p
      ≡ some (record p { annotations = some (write_keys existing desired keys m) })
unfolding key_operations run write_keys write_key
run-key_operations server existing desired [] m p agrees e =
    ap (λ a. some (record p { annotations = a })) e
run-key_operations server existing desired (key ∷ keys) m p agrees e =
    let v : String = text_at key desired in
    let next =
      run-key_operations server existing desired keys (write_key existing desired key m)
        (record p { annotations = some (write_key existing desired key m) })
        (step_keeps existing desired m key agrees) refl in
    elim (Option-cases (find key existing)) [
      | inl absent ↦
          let rest =
            loop_from server existing desired key keys m (put key v m) p
              (rw (absent, write_key) refl) next in
          rw (absent, run, put_escaped server key v m p e) rest
      | inr (current, there) ↦ elim (Bool-cases (str_eq current v)) [
        | inl equal ↦
            let rest =
              loop_from server existing desired key keys m m p (rw (there, write_key, equal) refl)
                next in
            rw (key_operations, there, equal)
              (subst
                (λ a.
                  run server (key_operations existing desired keys) (record p { annotations = a })
                  ≡ some (record p {
                    annotations =
                        some (write_keys existing desired keys (write_key existing desired key m));
                  }))
                (sym e) rest)
        | inr differs ↦
            let rest =
              loop_from server existing desired key keys m (put key v m) p
                (rw (there, write_key, differs) refl) next in
            let (w, present) = still_present existing desired m key current agrees there in
            rw (key_operations, there, differs, run, replace_escaped server key v w m p e present)
              rest
      ]
    ]
