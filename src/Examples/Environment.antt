-- ===== src/Examples/Environment.antt =====
-- The settings of the hook, and what the sidecars make of them.
use service_mesh.Base.{
  String, Bool, true, false, Option, none, some, ◌≡◌, refl, inl, if◌then◌else◌, str_eq,
}
use service_mesh.Base.Int.{ℤ, pos, int_eq}
use service_mesh.Base.Text.{itoa}
use service_mesh.Base.Space.{trim_space}
use service_mesh.Base.Int.{int_text}
use service_mesh.Hook.{Config}
use service_mesh.Hook.Boot.{getenv}
use service_mesh.Hook.Boot.Refused.{other_metrics_port_refused}
use service_mesh.Hook.Boot.Settings.{IsReadBack, Agree, settings_read_back}
use service_mesh.Hook.Patch.Containers.{sidecar_env, bool_text}
use service_mesh.Hook.Load.{
  Parsers, read_config, load_from_env, validate, conditions, first_complaint, env_value,
}
use service_mesh.Hook.Load.Sound.{IsSound, load_from_env-IsSound}
use service_mesh.Sidecar.Config.{Readers, Fault}
use service_mesh.Examples.Hook.{hook_config, seconds}

-- A reader that knows the numbers of the settings.
number : String → Option ℤ
number s =
    if str_eq s "9090"
    then some (pos 9090)
    else if str_eq s "9091"
    then some (pos 9091)
    else if str_eq s "15006"
    then some (pos 15006)
    else if str_eq s "15002"
    then some (pos 15002)
    else if str_eq s "15001"
    then some (pos 15001)
    else if str_eq s "3"
    then some (pos 3)
    else none

abbrev readers : Readers
readers = record {
  trim_space = trim_space;
  atoi = number;
  parse_uint = λ s. none;
  parse_bool = λ s. if str_eq s "true" then some true else some false;
  parse_duration = λ s. if str_eq s "5s" then some (pos 5000000000) else some (pos 30000000000);
  has_host_port = λ s. true;
}

abbrev nothing_set : String → String
nothing_set name = ""

-- The metrics are served at 9091, and the hook's own list of excluded ports says so.
abbrev other_port : Config
other_port = record hook_config { metrics_port = pos 9091; exclude_inbound = "9091" }

other_metrics_port_refused_example :
    (fault : Fault) × (service_mesh.Sidecar.Config.Load.load_from_env readers
        (getenv nothing_set nothing_set (sidecar_env seconds other_port "demo" "127.0.0.1:8080"))
      ≡ inl fault)
unfolding number int_text itoa
other_metrics_port_refused_example =
    other_metrics_port_refused readers (λ s. refl) nothing_set nothing_set seconds other_port "demo"
      "127.0.0.1:8080" refl refl refl refl refl

abbrev durations : ℤ → String
durations n = if int_eq n (pos 5000000000) then "5s" else "30s"

bool_back : (b : Bool) → readers.parse_bool (bool_text b) ≡ some b
bool_back true = refl
bool_back false = refl

demo_IsReadBack : IsReadBack readers durations hook_config "demo" "127.0.0.1:8080"
unfolding number int_text itoa trim_space
demo_IsReadBack = record {
  trims = λ s. refl;
  reads_bool = bool_back;
  reads_plain = refl;
  reads_outbound = refl;
  reads_mtls = refl;
  reads_metrics = refl;
  reads_attempts = refl;
  reads_timeout = refl;
  reads_recovery = refl;
  timeout_plain = (refl, refl);
  recovery_plain = (refl, refl);
  algorithm_plain = (refl, refl);
  copy_mode_plain = (refl, refl);
  account_plain = (refl, refl);
  target_plain = (refl, refl);
}

settings_read_back_example : Agree hook_config "demo" "127.0.0.1:8080" (
    service_mesh.Sidecar.Config.Load.read_config readers
      (getenv nothing_set nothing_set (sidecar_env durations hook_config "demo" "127.0.0.1:8080")))
settings_read_back_example =
    settings_read_back readers durations nothing_set nothing_set hook_config "demo" "127.0.0.1:8080"
      demo_IsReadBack

abbrev parsers : Parsers
parsers = record {
  atoi = number;
  parse_int = number;
  parse_bool = λ s. none;
  parse_duration = λ s. none;
}

-- A list with a blank item.
abbrev set_namespaces : String → String
set_namespaces name = if str_eq name "IGNORE_NAMESPACES" then " kube-system, ,ops " else ""

load_from_env-IsSound_example : IsSound (read_config parsers set_namespaces)
unfolding load_from_env validate first_complaint conditions read_config env_value trim_space number
    int_text itoa
load_from_env-IsSound_example =
    load_from_env-IsSound parsers set_namespaces (read_config parsers set_namespaces) refl
