-- ===== src/Orchestrator/Deploy/Env.antt =====
-- The environments that docker/cdocker/internal/app/http/cdocker/cdocker.go writes for a sidecar, and
-- Probe.WithDefaults of docker/cdocker/internal/domain/manifest.go. Go leaves the order of a loop over
-- a map open, so the entries of a map are a list in any order.
use Prim.Native.Char.{code}
use service_mesh.Base.Int.{int_text}
use service_mesh.Base.{
  ℕ, String, Option, none, some, List, [], ◌∷◌, ◌++◌, ◌&&◌, ◌||◌, ◌==◌, leb, map, if◌then◌else◌,
  str_eq, ◌<>◌,
}
use service_mesh.Base.Int.{ℤ, pos, int_eq}
use service_mesh.Base.Table.{Table, put}

-- HTTPGetAction.
pub record HttpGetAction : Type 0 where
  pub path : String
  pub port : ℤ
  pub scheme : String

pub record Probe : Type 0 where
  pub http_get : Option HttpGetAction
  pub initial_delay_seconds : ℤ
  pub period_seconds : ℤ
  pub timeout_seconds : ℤ
  pub failure_threshold : ℤ
  pub success_threshold : ℤ

or_default : ℤ → ℤ → ℤ
or_default n d = if int_eq n (pos 0) then d else n

-- The source writes the defaults of the action into the record that the request points to, which
-- has no other reader.
unfoldable pub with_defaults : Probe → Probe
unfolding or_default
with_defaults p = record p {
  period_seconds = or_default p.period_seconds (pos 60);
  timeout_seconds = or_default p.timeout_seconds (pos 5);
  failure_threshold = or_default p.failure_threshold (pos 3);
  success_threshold = or_default p.success_threshold (pos 1);
  http_get = elim p.http_get [
    | none ↦ none
    | some action ↦ some (record action {
      port = or_default action.port (pos 8080);
      scheme = if str_eq action.scheme "" then "http" else action.scheme;
    })
  ];
}

-- The three variables of one kind of probe; without an action a nil pointer is read.
probe_vars : String → String → Probe → Option (List String)
unfolding with_defaults int_text
probe_vars kind container p =
    let probe = with_defaults p in
    elim probe.http_get [
      | none ↦ none
      | some action ↦ some (
          ("PROBES_" <> kind <> "_ENABLED=true")
          ∷ ("PROBES_"
              <> kind
              <> "_URL=http://"
              <> container
              <> ":"
              <> int_text action.port
              <> action.path)
          ∷ ("PROBES_" <> kind <> "_PERIOD=" <> int_text probe.period_seconds <> "s")
          ∷ [])
    ]

probe_vars_if : String → String → Option Probe → Option (List String)
unfolding probe_vars
probe_vars_if kind container none = some []
probe_vars_if kind container (some p) = probe_vars kind container p

append_both : List String → Option (List String) → Option (List String) → Option (List String)
append_both first (some vars) (some more) = some (first ++ (vars ++ more))
append_both first (some vars) none = none
append_both first none more = none

-- `none` is the panic.
unfoldable pub build_probe_env_vars : Option Probe → Option Probe → String → Option (List String)
unfolding probe_vars_if append_both
build_probe_env_vars liveness readiness container =
    append_both
      ("PROBES_CDOCKER_URL=http://cdocker:8080" ∷ ("PROBES_CONTAINER_NAME=" <> container) ∷ [])
      (probe_vars_if "LIVENESS" container liveness) (probe_vars_if "READINESS" container readiness)

-- A value of the sidecar's map: what fmt.Sprint writes for a scalar and for each element of a list,
-- or a nested map.
mutual
  pub data Yaml : Type 0 where
    scalar : String → Yaml
    items : List String → Yaml
    mapping : Entries → Yaml

  pub data Entries : Type 0 where
    end : Entries
    entry : String → Yaml → Entries → Entries

-- The loop of toEnvKey from the second byte on.
env_key_from : (ℕ → String) → String → String
env_key_from to_upper String.[] = ""
env_key_from to_upper (String.◌∷◌ c s) =
    let rest = env_key_from to_upper s in
    let mark = if leb b'A' (code c) && leb (code c) b'Z' then "_" else "" in
    if code c == b'-' || code c == b'.'
    then mark <> "_" <> rest
    else mark <> to_upper (code c) <> rest

-- toEnvKey; `to_upper` is what strings.ToUpper makes of a character.
unfoldable pub to_env_key : (ℕ → String) → String → String
unfolding env_key_from
to_env_key to_upper String.[] = ""
to_env_key to_upper (String.◌∷◌ c s) =
    if code c == b'-' || code c == b'.'
    then "_" <> env_key_from to_upper s
    else to_upper (code c) <> env_key_from to_upper s

comma_join : List String → String
comma_join [] = ""
comma_join (s ∷ []) = s
comma_join (s ∷ t ∷ ts) = s <> "," <> comma_join (t ∷ ts)

full_key : String → String → String
full_key prefix key = if str_eq prefix "" then key else prefix <> "_" <> key

mutual
  unfolding comma_join full_key to_env_key

  -- One round of the loop of flattenMap, and the loop.
  flatten_value : (ℕ → String) → Yaml → String → Table String → Table String
  flatten_value up (scalar v) key result = put (to_env_key up key) v result
  flatten_value up (items vs) key result = put (to_env_key up key) (comma_join vs) result
  flatten_value up (mapping m) key result = flatten_map up m key result

  flatten_map : (ℕ → String) → Entries → String → Table String → Table String
  flatten_map up end prefix result = result
  flatten_map up (entry key v m) prefix result =
      flatten_map up m prefix (flatten_value up v (full_key prefix key) result)

unfoldable pub build_env_vars_from_map : (ℕ → String) → Entries → List String
unfolding flatten_map
build_env_vars_from_map up m = map (λ e. e.0 <> "=" <> e.1) (flatten_map up m "" [])
