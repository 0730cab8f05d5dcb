-- ===== src/Hook.antt =====
-- k8s/mesh/hook/internal/app/injector/service.go: the data that the injection webhook works on.
-- Of the structs of Kubernetes the fields stand here that the hook reads or writes.
pub mod Ports
pub mod Pointer
pub mod Patch
pub mod Boot
pub mod Handler
pub mod Load
use service_mesh.Base.{
  ℕ, ◌+◌, ◌-◌, ◌%◌, ◌^◌, String, Bool, Option, List, ltb, if◌then◌else◌, itoa, ◌<>◌,
}
use service_mesh.Base.Int.{ℤ, pos, negsuc}
use service_mesh.Base.Table.{Table}

-- The hook's config.Config. Durations are nanoseconds; of the set of namespaces the members count.
pub record Config : Type 0 where
  pub http_addr : String
  pub tls_cert_file : String
  pub tls_key_file : String
  pub max_request_bytes : ℤ
  pub read_header_timeout : ℤ
  pub idle_timeout : ℤ
  pub shutdown_timeout : ℤ
  pub ignore_namespaces : List String
  pub iptables_image : String
  pub sidecar_image : String
  pub mesh_version : String
  pub monitoring_enabled : Bool
  pub metrics_port : ℤ
  pub inbound_plain_port : ℤ
  pub outbound_port : ℤ
  pub inbound_mtls_port : ℤ
  pub mtls_enabled : Bool
  pub exclude_inbound : String
  pub exclude_outbound : String
  pub sidecar_uid : ℤ
  pub load_balancer_algorithm : String
  pub copy_mode : String
  pub retry_attempts : ℤ
  pub connect_timeout : ℤ
  pub circuit_breaker_failure_threshold : ℤ
  pub circuit_breaker_recovery_time : ℤ

pub record ContainerPort : Type 0 where
  pub name : String
  pub container_port : ℤ
  pub protocol : String

-- EnvVar's Value, or the path of its FieldRef.
pub data EnvSource : Type 0 where
  value field_ref : String → EnvSource

pub record EnvVar : Type 0 where
  pub name : String
  pub source : EnvSource

pub record VolumeMount : Type 0 where
  pub name : String
  pub mount_path : String
  pub read_only : Bool

pub record Container : Type 0 where
  pub name : String
  pub image : String
  pub image_pull_policy : String
  pub capabilities : List String
  pub run_as_non_root : Option Bool
  pub run_as_user : Option ℤ
  pub limits : Table String
  pub requests : Table String
  pub ports : List ContainerPort
  pub env : List EnvVar
  pub volume_mounts : List VolumeMount

-- A volume with the name of its secret and the secret's items, key and path, if it has one.
pub record Volume : Type 0 where
  pub name : String
  pub secret : Option (String × List (String × String))

pub record OwnerReference : Type 0 where
  pub name : String
  pub controller : Option Bool

-- A map of annotations may be nil; a nil map of labels reads like an empty one.
pub record Pod : Type 0 where
  pub name : String
  pub namespace : String
  pub annotations : Option (Table String)
  pub labels : Table String
  pub owner_references : List OwnerReference
  pub service_account_name : String
  pub volumes : List Volume
  pub init_containers : List Container
  pub containers : List Container

-- Of a number that was counted modulo 2 ^ 32, the signed value.
as_signed : ℕ → ℤ
as_signed n = if ltb n (2 ^ 31) then pos n else negsuc (2 ^ 32 - 1 - n)

-- int32(n).
unfoldable pub to_int32 : ℤ → ℤ
unfolding as_signed
to_int32 (pos n) = as_signed (n % 2 ^ 32)
to_int32 (negsuc n) = as_signed (2 ^ 32 - 1 - n % 2 ^ 32)
