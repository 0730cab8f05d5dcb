-- ===== src/Hook/Boot/Refused.antt =====
-- A metrics port that the hook does not tell the sidecar to exclude.
use service_mesh.Base.{
  String, false, some, [], ◌∷◌, ◌≡◌, refl, ◌∙◌, inl, inr, arith, split_on, Option-cases,
}
use service_mesh.Base.Int.{ℤ, pos, int_eq}
use service_mesh.Base.Space.{trim_space}
use service_mesh.Base.Int.{int_text}
use service_mesh.Hook.{Config}
use service_mesh.Hook.Patch.Containers.{sidecar_env}
use service_mesh.Hook.Boot.{getenv, int_text-IsPlain, read_env-first, read_env-unset}
use service_mesh.Sidecar.Config.{Readers, Fault, contains_parsed, contains_port, checks, validate}
use service_mesh.Sidecar.Config.Load.{env_int, env_string, read_config, load_from_env}
use service_mesh.Sidecar.Config.Usable.{validate-All}

told :
    (image fields : String → String) (duration_text : ℤ → String) (cfg : Config)
    (account target : String)
    → getenv image fields (sidecar_env duration_text cfg account target) "METRICS_PORT"
      ≡ int_text cfg.metrics_port
unfolding getenv sidecar_env
told image fields duration_text cfg account target = refl

untold :
    (image fields : String → String) (duration_text : ℤ → String) (cfg : Config)
    (account target : String)
    → let vars = getenv image fields (sidecar_env duration_text cfg account target) in
      (vars "EXCLUDE_INBOUND_PORTS" ≡ image "EXCLUDE_INBOUND_PORTS")
      × (vars "SIDECAR_EXCLUDE_INBOUND_PORTS" ≡ image "SIDECAR_EXCLUDE_INBOUND_PORTS")
unfolding getenv sidecar_env
untold image fields duration_text cfg account target = (refl, refl)

module _ (go : Readers) (trims : (s : String) → go.trim_space s ≡ trim_space s) where
  only_default :
      (port : ℤ)
      → go.atoi "9090" ≡ some (pos 9090)
      → int_eq (pos 9090) port ≡ false
      → contains_port go "9090" port ≡ false
  unfolding contains_port contains_parsed split_on trim_space
  only_default port reads differs = rw (trims "9090", reads, differs) refl

  metrics_port_read :
      (image fields : String → String) (duration_text : ℤ → String) (cfg : Config)
      (account target : String)
      → go.atoi (int_text cfg.metrics_port) ≡ some cfg.metrics_port
      → (read_config go
          (getenv image fields (sidecar_env duration_text cfg account target))).metrics_port
        ≡ cfg.metrics_port
  unfolding read_config env_int
  metrics_port_read image fields duration_text cfg account target reads =
      read_env-first go go.atoi (getenv image fields (sidecar_env duration_text cfg account target))
        (pos 9090) trims "METRICS_PORT" ("SIDECAR_METRICS_PORT" ∷ []) (int_text cfg.metrics_port)
        cfg.metrics_port (told image fields duration_text cfg account target)
        (int_text-IsPlain cfg.metrics_port) reads

  exclude_read :
      (image fields : String → String) (duration_text : ℤ → String) (cfg : Config)
      (account target : String)
      → image "EXCLUDE_INBOUND_PORTS" ≡ ""
      → image "SIDECAR_EXCLUDE_INBOUND_PORTS" ≡ ""
      → (read_config go (
          getenv image fields (sidecar_env duration_text cfg account target))).exclude_inbound_ports
        ≡ "9090"
  unfolding read_config env_string
  exclude_read image fields duration_text cfg account target unset unset2 =
      let (one, other) = untold image fields duration_text cfg account target in
      read_env-unset go (λ v. some v)
        (getenv image fields (sidecar_env duration_text cfg account target)) "9090" trims
        "EXCLUDE_INBOUND_PORTS" "SIDECAR_EXCLUDE_INBOUND_PORTS" (one ∙ unset) (other ∙ unset2)

  -- The error that the validation returns, where the metrics port would be captured.
  captured_fault :
      (vars : String → String)
      → contains_port go
          (read_config go vars).exclude_inbound_ports
          (read_config go vars).metrics_port
        ≡ false
      → (fault : Fault) × (load_from_env go vars ≡ inl fault)
  unfolding load_from_env checks
  captured_fault vars missing = elim (Option-cases (validate go (read_config go vars))) [
    | inl valid ↦
        let fits = (validate-All go (read_config go vars) valid).1.1.1.1.1.1.1.1.1.1.1.1.1.1.0 in
        absurd (ground arith)
    | inr (fault, refused) ↦ (fault, rw (refused, load_from_env) refl)
  ]

  -- A sidecar that the hook injects with another metrics port than 9090 does not start, if its
  -- image does not itself name the ports to exclude: the hook tells it the port and not the ports
  -- that iptables leaves alone, the default of which is 9090, and the sidecar's validation returns
  -- an error; whatever the hook's other settings are, also its own list of excluded ports.
  pub other_metrics_port_refused :
      (image fields : String → String) (duration_text : ℤ → String) (cfg : Config)
      (account target : String)
      → go.atoi "9090" ≡ some (pos 9090)
      → go.atoi (int_text cfg.metrics_port) ≡ some cfg.metrics_port
      → image "EXCLUDE_INBOUND_PORTS" ≡ ""
      → image "SIDECAR_EXCLUDE_INBOUND_PORTS" ≡ ""
      → int_eq (pos 9090) cfg.metrics_port ≡ false
      → (fault : Fault) × (load_from_env go
            (getenv image fields (sidecar_env duration_text cfg account target))
          ≡ inl fault)
  other_metrics_port_refused image fields duration_text cfg account target nine reads unset unset2
        differs =
      captured_fault (getenv image fields (sidecar_env duration_text cfg account target)) (
        rw
          (
            exclude_read image fields duration_text cfg account target unset unset2,
            metrics_port_read image fields duration_text cfg account target reads,
          )
          (only_default cfg.metrics_port nine differs))
