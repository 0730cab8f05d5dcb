-- ===== src/Hook/Patch/Apply.antt =====
-- The application of a patch, which the API server does, to the fields that the hook's patch names.
use service_mesh.Base.{
  String, true, false, Option, none, some, List, [], ◌∷◌, ◌++◌, ◌≡◌, refl, ◌||◌, ◌<>◌, arith, ap,
  if◌then◌else◌, str_eq, has_code, Bool-cases, Option-cases, inl, inr,
}
use service_mesh.Base.Table.{Table, find, put}
use service_mesh.Hook.{Pod, Volume, Container}
use service_mesh.Hook.Pointer.{read_token}
use service_mesh.Hook.Patch.{
  text, texts, one_volume, many_volumes, one_container, many_containers, PatchOperation, add,
  replace, has_volume_by_name, has_container_by_name,
}
use service_mesh.Hook.Patch.Build.{
  mesh_ca_volume, volume_operations, init_operations, sidecar_operations,
}

-- `none` is the refusal of an operation. The laws are what RFC 6902 says of `add` and `replace` at
-- the members of an object and at the ends of an array, and RFC 6901 of the path's last token. An
-- empty list is an absent array here, since the fields are omitted when they are empty, so nothing
-- is said of an operation on an element of one: RFC 6902 refuses it.
pub record PatchServer : Type 0 where
  pub apply : PatchOperation → Pod → Option Pod
  pub sets_account :
      (v : String) (p : Pod)
      → apply (add "/spec/serviceAccountName" (text v)) p
        ≡ some (record p { service_account_name = v })
  pub sets_annotations :
      (m : Table String) (p : Pod)
      → apply (add "/metadata/annotations" (texts m)) p ≡ some (record p { annotations = some m })
  pub adds_annotation :
      (token v : String) (m : Table String) (p : Pod)
      → p.annotations ≡ some m
      → has_code b'/' token ≡ false
      → apply (add ("/metadata/annotations/" <> token) (text v)) p
        ≡ some (record p { annotations = some (put (read_token token) v m) })
  pub replaces_annotation :
      (token v w : String) (m : Table String) (p : Pod)
      → p.annotations ≡ some m
      → has_code b'/' token ≡ false
      → find (read_token token) m ≡ some w
      → apply (replace ("/metadata/annotations/" <> token) (text v)) p
        ≡ some (record p { annotations = some (put (read_token token) v m) })
  pub sets_volumes :
      (vs : List Volume) (p : Pod)
      → apply (add "/spec/volumes" (many_volumes vs)) p ≡ some (record p { volumes = vs })
  pub appends_volume :
      (v u : Volume) (us : List Volume) (p : Pod)
      → p.volumes ≡ u ∷ us
      → apply (add "/spec/volumes/-" (one_volume v)) p
        ≡ some (record p { volumes = (u ∷ us) ++ v ∷ [] })
  pub sets_init_containers :
      (cs : List Container) (p : Pod)
      → apply (add "/spec/initContainers" (many_containers cs)) p
        ≡ some (record p { init_containers = cs })
  pub prepends_init_container :
      (c u : Container) (us : List Container) (p : Pod)
      → p.init_containers ≡ u ∷ us
      → apply (add "/spec/initContainers/0" (one_container c)) p
        ≡ some (record p { init_containers = c ∷ u ∷ us })
  pub sets_containers :
      (cs : List Container) (p : Pod)
      → apply (add "/spec/containers" (many_containers cs)) p ≡ some (record p { containers = cs })
  pub appends_container :
      (c u : Container) (us : List Container) (p : Pod)
      → p.containers ≡ u ∷ us
      → apply (add "/spec/containers/-" (one_container c)) p
        ≡ some (record p { containers = (u ∷ us) ++ c ∷ [] })

-- The operations of a patch, one after the other; none is applied if one is refused.
unfoldable pub run : PatchServer → List PatchOperation → Pod → Option Pod
run server [] p = some p
run server (o ∷ os) p = elim (server.apply o p) [ none ↦ none | some q ↦ run server os q ]

pub run-append :
    (server : PatchServer) (xs ys : List PatchOperation) (p q : Pod)
    → run server xs p ≡ some q
    → run server (xs ++ ys) p ≡ run server ys q
unfolding run
run-append server [] ys p q h = let same : p ≡ q = ground arith in rw same refl
run-append server (x ∷ xs) ys p q h = elim (Option-cases (server.apply x p)) [
  | inl gone ↦ absurd (ground arith)
  | inr (r, on) ↦
      let left : run server xs r ≡ some q = ground arith in
      rw (on, run) (run-append server xs ys r q left)
]

-- The lists with what the patch adds to them.
unfoldable pub with_volume : List Volume → List Volume
with_volume vs = if has_volume_by_name vs "mesh-ca" then vs else vs ++ mesh_ca_volume ∷ []

unfoldable pub with_init : Container → List Container → List Container
with_init init cs = if has_container_by_name cs "iptables-init" then cs else init ∷ cs

unfoldable pub with_sidecar : Container → List Container → List Container
with_sidecar sidecar cs = if has_container_by_name cs "sidecar" then cs else cs ++ sidecar ∷ []

pub run-volume_operations :
    (server : PatchServer) (vs : List Volume) (p : Pod)
    → p.volumes ≡ vs
    → run server (volume_operations vs) p ≡ some (record p { volumes = with_volume vs })
unfolding run volume_operations with_volume has_volume_by_name
run-volume_operations server [] p e = rw (server.sets_volumes (mesh_ca_volume ∷ []) p) refl
run-volume_operations server (v ∷ vs) p e =
    elim (Bool-cases (has_volume_by_name (v ∷ vs) "mesh-ca")) [
      | inl there ↦ rw there (ap (λ us. some (record p { volumes = us })) e)
      | inr missing ↦ rw (missing, run, server.appends_volume mesh_ca_volume v vs p e) refl
    ]

pub run-init_operations :
    (server : PatchServer) (init : Container) (cs : List Container) (p : Pod)
    → p.init_containers ≡ cs
    → run server (init_operations init cs) p
      ≡ some (record p { init_containers = with_init init cs })
unfolding run init_operations with_init has_container_by_name
run-init_operations server init [] p e = rw (server.sets_init_containers (init ∷ []) p) refl
run-init_operations server init (c ∷ cs) p e =
    elim (Bool-cases (has_container_by_name (c ∷ cs) "iptables-init")) [
      | inl there ↦ rw there (ap (λ us. some (record p { init_containers = us })) e)
      | inr missing ↦ rw (missing, run, server.prepends_init_container init c cs p e) refl
    ]

pub run-sidecar_operations :
    (server : PatchServer) (sidecar : Container) (cs : List Container) (p : Pod)
    → p.containers ≡ cs
    → run server (sidecar_operations sidecar cs) p
      ≡ some (record p { containers = with_sidecar sidecar cs })
unfolding run sidecar_operations with_sidecar has_container_by_name
run-sidecar_operations server sidecar [] p e = rw (server.sets_containers (sidecar ∷ []) p) refl
run-sidecar_operations server sidecar (c ∷ cs) p e =
    elim (Bool-cases (has_container_by_name (c ∷ cs) "sidecar")) [
      | inl there ↦ rw there (ap (λ us. some (record p { containers = us })) e)
      | inr missing ↦ rw (missing, run, server.appends_container sidecar c cs p e) refl
    ]

has_volume-append :
    (vs us : List Volume) (name : String)
    → has_volume_by_name (vs ++ us) name
      ≡ (has_volume_by_name vs name || has_volume_by_name us name)
unfolding has_volume_by_name
has_volume-append [] us name = refl
has_volume-append (v ∷ vs) us name = ground (arith, has_volume-append vs us name)

has_container-append :
    (cs us : List Container) (name : String)
    → has_container_by_name (cs ++ us) name
      ≡ (has_container_by_name cs name || has_container_by_name us name)
unfolding has_container_by_name
has_container-append [] us name = refl
has_container-append (c ∷ cs) us name = ground (arith, has_container-append cs us name)

pub has-with_volume : (vs : List Volume) → has_volume_by_name (with_volume vs) "mesh-ca" ≡ true
unfolding with_volume has_volume_by_name
has-with_volume vs = elim (Bool-cases (has_volume_by_name vs "mesh-ca")) [
  | inl there ↦ rw there there
  | inr missing ↦ rw (missing, has_volume-append vs (mesh_ca_volume ∷ []) "mesh-ca", missing) refl
]

pub has-with_init :
    (init : Container) (cs : List Container)
    → str_eq init.name "iptables-init" ≡ true
    → has_container_by_name (with_init init cs) "iptables-init" ≡ true
unfolding with_init has_container_by_name
has-with_init init cs h = elim (Bool-cases (has_container_by_name cs "iptables-init")) [
  | inl there ↦ rw there there
  | inr missing ↦ rw (missing, has_container_by_name, h) refl
]

pub has-with_sidecar :
    (sidecar : Container) (cs : List Container)
    → str_eq sidecar.name "sidecar" ≡ true
    → has_container_by_name (with_sidecar sidecar cs) "sidecar" ≡ true
unfolding with_sidecar has_container_by_name
has-with_sidecar sidecar cs h = elim (Bool-cases (has_container_by_name cs "sidecar")) [
  | inl there ↦ rw there there
  | inr missing ↦
      rw
        (
          missing,
          has_container-append cs (sidecar ∷ []) "sidecar",
          missing,
          has_container_by_name,
          h,
        )
        refl
]
