-- ===== src/Hook/Patch.antt =====
-- BuildPatch of k8s/mesh/hook/internal/app/injector/service.go and what it is put together from.
-- The list of operations stands for the JSON that it is marshalled to.
pub mod Containers
pub mod Build
pub mod Apply
pub mod Annotations
pub mod Noted
pub mod Again
pub mod Once
use Prim.Native.Char.{code}
use Prim.Native.String
use service_mesh.Base.{
  ℕ, ◌+◌, String, Bool, true, false, Option, none, some, List, [], ◌∷◌, ◌++◌, ◌⊎◌, inl, inr, ◌&&◌,
  ◌||◌, not, map, ◌==◌, leb, if◌then◌else◌, str_eq, ◌<>◌, has_prefix, has_code,
}
use service_mesh.Base.Int.{ℤ, is_positive}
use service_mesh.Base.Sort.{sort, text_before}
use service_mesh.Base.Space.{trim_space}
use service_mesh.Base.Table.{Table, find, put}
use service_mesh.Base.Int.{int_text}
use service_mesh.Hook.{Config, Container, Volume, OwnerReference, Pod}
use service_mesh.Hook.Pointer.{escape_json_pointer}

-- Of the request the hook reads the namespace.
pub record AdmissionRequest : Type 0 where
  pub namespace : String

pub data PatchValue : Type 0 where
  text : String → PatchValue
  texts : Table String → PatchValue
  one_volume : Volume → PatchValue
  many_volumes : List Volume → PatchValue
  one_container : Container → PatchValue
  many_containers : List Container → PatchValue

pub record PatchOperation : Type 0 where
  pub op : String
  pub path : String
  pub value : PatchValue

pub data Decision : Type 0 where
  skipped : String → Decision
  mutated : List PatchOperation → Decision

-- The errors of BuildPatch.
pub data Refusal : Type 0 where
  request_is_nil pod_is_nil : Refusal

abbrev pub add : String → PatchValue → PatchOperation
add path value = record { op = "add"; path = path; value = value }

abbrev pub replace : String → PatchValue → PatchOperation
replace path value = record { op = "replace"; path = path; value = value }

unfoldable pub is_member : String → List String → Bool
is_member s [] = false
is_member s (t ∷ ts) = str_eq t s || is_member s ts

unfoldable pub is_ignored_namespace : Config → String → Bool
unfolding is_member
is_ignored_namespace cfg namespace = is_member namespace cfg.ignore_namespaces

-- The code point that stands for all that strings.EqualFold takes for the same ASCII letter: the
-- capital, and beyond ASCII the long s and the Kelvin sign.
unfoldable pub fold : ℕ → ℕ
fold c =
    if leb b'A' c && leb c b'Z'
    then c + 32
    else if c == 0x17F
    then b's'
    else if c == 0x212A
    then b'k'
    else c

-- strings.EqualFold, where one of the texts is ASCII.
unfoldable pub equal_fold : String → String → Bool
unfolding fold
equal_fold String.[] String.[] = true
equal_fold String.[] (String.◌∷◌ d t) = false
equal_fold (String.◌∷◌ c s) String.[] = false
equal_fold (String.◌∷◌ c s) (String.◌∷◌ d t) = fold (code c) == fold (code d) && equal_fold s t

-- m[k] of a map of texts.
unfoldable pub text_at : String → Table String → String
text_at k m = elim (find k m) [ none ↦ "" | some v ↦ v ]

-- What the annotation says, if there is one.
unfoldable pub opts_out : Option String → Bool
unfolding equal_fold
opts_out none = false
opts_out (some v) = equal_fold (trim_space v) "false"

unfoldable pub is_opt_out_pod : Pod → Bool
unfolding opts_out
is_opt_out_pod pod = elim pod.annotations [
  | none ↦ false
  | some annotations ↦ opts_out (find "sidecar.mesh.io/inject" annotations)
]

-- The loop over the owners: the first controller with a name.
owner_account : List OwnerReference → String
owner_account [] = "default"
owner_account (owner ∷ owners) =
    let rest = owner_account owners in
    elim owner.controller [
      | none ↦ rest
      | some false ↦ rest
      | some true ↦ if str_eq (trim_space owner.name) "" then rest else trim_space owner.name
    ]

unfoldable pub derive_service_account_name : Pod → String
unfolding text_at owner_account
derive_service_account_name pod =
    let app = trim_space (text_at "app" pod.labels) in
    let name = trim_space (text_at "app.kubernetes.io/name" pod.labels) in
    if not (str_eq app "")
    then app
    else if not (str_eq name "")
    then name
    else owner_account pod.owner_references

-- The loop over the sorted keys.
unfoldable pub key_operations : Table String → Table String → List String → List PatchOperation
unfolding text_at
key_operations existing desired [] = []
key_operations existing desired (key ∷ keys) =
    let rest = key_operations existing desired keys in
    let path = "/metadata/annotations/" <> escape_json_pointer key in
    elim (find key existing) [
      | none ↦ add path (text (text_at key desired)) ∷ rest
      | some current ↦
          if str_eq current (text_at key desired)
          then rest
          else replace path (text (text_at key desired)) ∷ rest
    ]

-- sort.Strings of the keys.
unfoldable pub sorted_keys : Table String → List String
sorted_keys m = sort text_before (map (λ entry. entry.0) m)

unfoldable pub build_annotations_patch_ops :
    Option (Table String) → Table String → List PatchOperation
unfolding key_operations sorted_keys
build_annotations_patch_ops existing [] = []
build_annotations_patch_ops none (entry ∷ desired) =
    add "/metadata/annotations" (texts (entry ∷ desired)) ∷ []
build_annotations_patch_ops (some existing) (entry ∷ desired) =
    key_operations existing (entry ∷ desired) (sorted_keys (entry ∷ desired))

unfoldable pub has_container_by_name : List Container → String → Bool
has_container_by_name [] name = false
has_container_by_name (c ∷ cs) name = str_eq c.name name || has_container_by_name cs name

unfoldable pub has_volume_by_name : List Volume → String → Bool
has_volume_by_name [] name = false
has_volume_by_name (v ∷ vs) name = str_eq v.name name || has_volume_by_name vs name
