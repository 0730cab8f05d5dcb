-- ===== src/Hook/Boot/Settings.antt =====
-- The settings that a sidecar reads out of what the hook tells it.
use service_mesh.Base.{String, Bool, some, ◌≡◌, refl}
use service_mesh.Base.Int.{ℤ}
use service_mesh.Base.Space.{trim_space}
use service_mesh.Base.Int.{int_text}
use service_mesh.Hook.{Config}
use service_mesh.Hook.Patch.Containers.{sidecar_env, bool_text}
use service_mesh.Hook.Boot.{getenv, IsPlain, int_text-IsPlain, bool_text-IsPlain, read_env-first}
use service_mesh.Sidecar.Config.{Readers}
use service_mesh.Sidecar.Config.Load.{env_string, env_int, env_bool, env_duration, read_config}

-- What Go's library does with the texts of the hook's settings: it trims as the hook does, and
-- reads back what was written out. The texts among the settings are trimmed and not empty, as the
-- hook's own readers leave them.
pub record IsReadBack (go : Readers) (duration_text : ℤ → String) (cfg : Config) (account : String)
    (target : String) : Type 0 where
  pub trims : (s : String) → go.trim_space s ≡ trim_space s
  pub reads_bool : (b : Bool) → go.parse_bool (bool_text b) ≡ some b
  pub reads_plain : go.atoi (int_text cfg.inbound_plain_port) ≡ some cfg.inbound_plain_port
  pub reads_outbound : go.atoi (int_text cfg.outbound_port) ≡ some cfg.outbound_port
  pub reads_mtls : go.atoi (int_text cfg.inbound_mtls_port) ≡ some cfg.inbound_mtls_port
  pub reads_metrics : go.atoi (int_text cfg.metrics_port) ≡ some cfg.metrics_port
  pub reads_attempts : go.atoi (int_text cfg.retry_attempts) ≡ some cfg.retry_attempts
  pub reads_timeout :
      go.parse_duration (duration_text cfg.connect_timeout) ≡ some cfg.connect_timeout
  pub reads_recovery :
      go.parse_duration (duration_text cfg.circuit_breaker_recovery_time)
      ≡ some cfg.circuit_breaker_recovery_time
  pub timeout_plain : IsPlain (duration_text cfg.connect_timeout)
  pub recovery_plain : IsPlain (duration_text cfg.circuit_breaker_recovery_time)
  pub algorithm_plain : IsPlain cfg.load_balancer_algorithm
  pub copy_mode_plain : IsPlain cfg.copy_mode
  pub account_plain : IsPlain account
  pub target_plain : IsPlain target

-- The sidecar's settings are the hook's.
pub record Agree (hook : Config) (account : String) (target : String)
    (sidecar : service_mesh.Sidecar.Config.Config) : Type 0 where
  pub same_account : sidecar.service_account ≡ account
  pub same_target : sidecar.app_target_addr ≡ target
  pub same_plain : sidecar.inbound_plain_port ≡ hook.inbound_plain_port
  pub same_outbound : sidecar.outbound_port ≡ hook.outbound_port
  pub same_mtls : sidecar.inbound_mtls_port ≡ hook.inbound_mtls_port
  pub same_enabled : sidecar.mtls_enabled ≡ hook.mtls_enabled
  pub same_metrics : sidecar.metrics_port ≡ hook.metrics_port
  pub same_bootstrap : sidecar.bootstrap_certificates ≡ hook.mtls_enabled
  pub same_algorithm : sidecar.algorithm ≡ hook.load_balancer_algorithm
  pub same_copy_mode : sidecar.copy_mode ≡ hook.copy_mode
  pub same_attempts : sidecar.attempts ≡ hook.retry_attempts
  pub same_timeout : sidecar.timeout ≡ hook.connect_timeout
  pub same_recovery : sidecar.recovery_time ≡ hook.circuit_breaker_recovery_time

-- What the hook writes into a sidecar's environment the sidecar reads back as the hook had it: the
-- account, the application's address, the four ports, mutual TLS, the load balancer, the copy mode,
-- the retries and the two durations; if Go's library reads back the texts that it wrote for these
-- settings, and the texts among them are trimmed and not empty.
pub settings_read_back :
    (go : Readers) (duration_text : ℤ → String) (image fields : String → String) (cfg : Config)
    (account target : String)
    → IsReadBack go duration_text cfg account target
    → Agree cfg account target
        (read_config go (getenv image fields (sidecar_env duration_text cfg account target)))
unfolding read_config env_string env_int env_bool env_duration getenv sidecar_env
settings_read_back go duration_text image fields cfg account target back =
    let vars = getenv image fields (sidecar_env duration_text cfg account target) in
    let texts = read_env-first go (λ v. some v) vars in
    record {
      same_account =
          read_env-first go (λ v. some v) vars _ back.trims "SERVICE_ACCOUNT" _ account account refl
            back.account_plain refl;
      same_target =
          read_env-first go (λ v. some v) vars _ back.trims "APP_TARGET_ADDR" _ target target refl
            back.target_plain refl;
      same_plain =
          read_env-first go go.atoi vars _ back.trims "INBOUND_PLAIN_PORT" _ _ _ refl
            (int_text-IsPlain cfg.inbound_plain_port) back.reads_plain;
      same_outbound =
          read_env-first go go.atoi vars _ back.trims "OUTBOUND_PORT" _ _ _ refl
            (int_text-IsPlain cfg.outbound_port) back.reads_outbound;
      same_mtls =
          read_env-first go go.atoi vars _ back.trims "INBOUND_MTLS_PORT" _ _ _ refl
            (int_text-IsPlain cfg.inbound_mtls_port) back.reads_mtls;
      same_enabled =
          read_env-first go go.parse_bool vars _ back.trims "MTLS_ENABLED" _ _ _ refl
            (bool_text-IsPlain cfg.mtls_enabled) (back.reads_bool cfg.mtls_enabled);
      same_metrics =
          read_env-first go go.atoi vars _ back.trims "METRICS_PORT" _ _ _ refl
            (int_text-IsPlain cfg.metrics_port) back.reads_metrics;
      same_bootstrap =
          read_env-first go go.parse_bool vars _ back.trims "BOOTSTRAP_CERTIFICATES" _ _ _ refl
            (bool_text-IsPlain cfg.mtls_enabled) (back.reads_bool cfg.mtls_enabled);
      same_algorithm =
          read_env-first go (λ v. some v) vars _ back.trims "LOAD_BALANCER_ALGORITHM" _ _ _ refl
            back.algorithm_plain refl;
      same_copy_mode =
          read_env-first go (λ v. some v) vars _ back.trims "COPY_MODE" _ _ _ refl
            back.copy_mode_plain refl;
      same_attempts =
          read_env-first go go.atoi vars _ back.trims "RETRY_ATTEMPTS" _ _ _ refl
            (int_text-IsPlain cfg.retry_attempts) back.reads_attempts;
      same_timeout =
          read_env-first go go.parse_duration vars _ back.trims "TIMEOUT" _ _ _ refl
            back.timeout_plain back.reads_timeout;
      same_recovery =
          read_env-first go go.parse_duration vars _ back.trims "CIRCUIT_BREAKER_RECOVERY_TIME" _ _
            _ refl back.recovery_plain back.reads_recovery;
    }
