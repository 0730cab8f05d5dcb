-- ===== src/Sidecar/Context.antt =====
-- k8s/mesh/sidecar/internal/domain/context.go and metadata.go: what travels with a connection.
pub mod Metadata
use service_mesh.Base.{ℕ, ◌+◌, String, Bool, false, Option, none, some, [], leb, min}
use service_mesh.Base.Table.{Table, find, put}

-- The values that the code stores under `any`.
pub data Value : Type 0 where
  text : String → Value
  flag : Bool → Value

-- A `context.Context`, by the instant at which it expires. Every one descends from
-- `context.Background()`, so nothing else ends it while a handler runs.
pub record GoContext : Type 0 where
  pub deadline : Option ℕ

abbrev pub background : GoContext
background = record { deadline = none }

-- context.WithTimeout at the instant `now`: the earlier of both deadlines holds.
unfoldable pub with_timeout : GoContext → ℕ → ℕ → GoContext
with_timeout c now timeout = elim c.deadline [
  | none ↦ record { deadline = some (now + timeout) }
  | some d ↦ record { deadline = some (min d (now + timeout)) }
]

-- c.Err() != nil.
unfoldable pub expired : GoContext → ℕ → Bool
expired c now = elim c.deadline [ none ↦ false | some d ↦ leb d now ]

-- The connection itself is known by a number; `none` is the nil map.
pub record ConnContext : Type 0 where
  pub context : GoContext
  pub client_conn : ℕ
  pub original_dst : String
  pub metadata : Option (Table Value)

pub record Endpoint : Type 0 where
  pub ip : String
  pub port : ℕ
  pub service_name : String

-- The copied map holds what the map holds, and later writes to it stay in it.
unfoldable pub clone_with_context : ConnContext → GoContext → ConnContext
clone_with_context c ctx = record c {
  context = ctx;
  metadata = some (elim c.metadata [ none ↦ [] | some m ↦ m ]);
}

unfoldable pub set : ConnContext → String → Value → ConnContext
set c key value = record c {
  metadata = some (put key value (elim c.metadata [ none ↦ [] | some m ↦ m ]));
}

as_text : Option Value → String
as_text none = ""
as_text (some (text s)) = s
as_text (some (flag b)) = ""

as_flag : Option Value → Bool
as_flag none = false
as_flag (some (text s)) = false
as_flag (some (flag b)) = b

look_up : Option (Table Value) → String → Option Value
look_up none key = none
look_up (some m) key = find key m

unfoldable pub get_string : ConnContext → String → String
unfolding as_text look_up
get_string c key = as_text (look_up c.metadata key)

unfoldable pub get_bool : ConnContext → String → Bool
unfolding as_flag look_up
get_bool c key = as_flag (look_up c.metadata key)
