-- ===== src/Sidecar/Context/Metadata.antt =====
-- Reading the metadata back after writing and copying it.
use service_mesh.Base.{
  String, Bool, false, some, [], ◌≡◌, arith, str_eq, if◌then◌else◌, Option-cases, inl, inr,
}
use service_mesh.Base.Table.{find, find-put}
use service_mesh.Sidecar.Context.{
  Value, text, flag, GoContext, ConnContext, set, look_up, get_string, get_bool, clone_with_context,
}

look_up-set :
    (c : ConnContext) (k j : String) (v : Value)
    → look_up (set c k v).metadata j ≡ (if str_eq k j then some v else look_up c.metadata j)
unfolding set look_up find
look_up-set c k j v = elim (Option-cases c.metadata) [
  | inl nothing ↦ rw nothing (find-put k j v [])
  | inr (m, there) ↦ rw there (find-put k j v m)
]

-- A text that is set is read back under its key, and every other key reads as before, whether
-- the metadata was nil or not.
pub get_string-set :
    (c : ConnContext) (k j : String) (s : String)
    → get_string (set c k (text s)) j ≡ (if str_eq k j then s else get_string c j)
unfolding get_string
get_string-set c k j s = ground (arith, look_up-set c k j (text s))

-- Under the key of a flag no text is read, and every other key reads as before.
pub get_string-set_flag :
    (c : ConnContext) (k j : String) (b : Bool)
    → get_string (set c k (flag b)) j ≡ (if str_eq k j then "" else get_string c j)
unfolding get_string
get_string-set_flag c k j b = ground (arith, look_up-set c k j (flag b))

pub get_bool-set :
    (c : ConnContext) (k j : String) (s : String)
    → get_bool (set c k (text s)) j ≡ (if str_eq k j then false else get_bool c j)
unfolding get_bool
get_bool-set c k j s = ground (arith, look_up-set c k j (text s))

pub get_bool-set_flag :
    (c : ConnContext) (k j : String) (b : Bool)
    → get_bool (set c k (flag b)) j ≡ (if str_eq k j then b else get_bool c j)
unfolding get_bool
get_bool-set_flag c k j b = ground (arith, look_up-set c k j (flag b))

-- The copy reads as the original.
pub get_string-clone :
    (c : ConnContext) (g : GoContext) (j : String)
    → get_string (clone_with_context c g) j ≡ get_string c j
unfolding get_string clone_with_context find
get_string-clone c g j = ground arith

pub ruleset metadata_laws = (get_string-set, get_string-set_flag, get_bool-set, get_bool-set_flag)
