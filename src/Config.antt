-- ===== src/Config.antt =====
-- src/config.rs: the configuration of the manager, its loading and its validation.
-- Paths are a directory, a stem and an extension; `u16`, `u32`, `u64` and `usize` values are
-- numbers, with their range in the statements that need it. The TOML reader, the environment and
-- the file system are parameters.
pub mod Load
pub mod Validate
pub mod Tests
use tei_manager.Base.{
  ℕ, String, Option, none, some, List, [], Bool, true, false, ◌^◌, ◌-◌, if◌then◌else◌,
}

-- `PathBuf` of a file.
pub record FilePath : Type 0 where
  pub dir : String
  pub stem : String
  pub extension : Option String

-- Seconds since the epoch, for `chrono::DateTime<Utc>`.
abbrev pub Timestamp : Type 0
Timestamp = ℕ

pub record InstanceConfig : Type 0 where
  pub name : String
  pub model_id : String
  pub port : ℕ
  pub max_batch_tokens : ℕ
  pub max_concurrent_requests : ℕ
  pub pooling : Option String
  pub gpu_id : Option ℕ
  pub prometheus_port : Option ℕ
  pub startup_timeout_secs : Option ℕ
  pub extra_args : List String
  pub created_at : Option Timestamp

pub record MtlsConfig : Type 0 where
  pub ca_cert : FilePath
  pub server_cert : FilePath
  pub server_key : FilePath
  pub allow_self_signed : Bool
  pub verify_subject : Bool
  pub allowed_subjects : List String
  pub verify_san : Bool
  pub allowed_sans : List String

pub record AuthConfig : Type 0 where
  pub enabled : Bool
  pub providers : List String
  pub require_cert_headers : Bool
  pub mtls : Option MtlsConfig

pub record ManagerConfig : Type 0 where
  pub api_port : ℕ
  pub state_file : FilePath
  pub health_check_interval_secs : ℕ
  pub startup_timeout_secs : ℕ
  pub max_failures_before_restart : ℕ
  pub graceful_shutdown_timeout_secs : ℕ
  pub auto_restore_on_restart : Bool
  pub max_instances : Option ℕ
  pub instance_port_start : ℕ
  pub instance_port_end : ℕ
  pub instances : List InstanceConfig
  pub models : Option (List String)
  pub tei_binary_path : String
  pub grpc_port : ℕ
  pub grpc_enabled : Bool
  pub grpc_max_message_size_mb : ℕ
  pub grpc_max_parallel_streams : ℕ
  pub grpc_request_timeout_secs : ℕ
  pub auth : AuthConfig

abbrev pub default_api_port : ℕ
default_api_port = 9000

abbrev pub default_health_check_interval : ℕ
default_health_check_interval = 10

abbrev pub default_startup_timeout : ℕ
default_startup_timeout = 300

abbrev pub default_max_failures_before_restart : ℕ
default_max_failures_before_restart = 3

abbrev pub default_instance_port_start : ℕ
default_instance_port_start = 8080

abbrev pub default_instance_port_end : ℕ
default_instance_port_end = 8180

abbrev pub default_graceful_shutdown_timeout : ℕ
default_graceful_shutdown_timeout = 30

abbrev pub default_max_batch_tokens : ℕ
default_max_batch_tokens = 16384

abbrev pub default_max_concurrent_requests : ℕ
default_max_concurrent_requests = 512

abbrev pub default_grpc_port : ℕ
default_grpc_port = 9001

abbrev pub default_grpc_max_message_size_mb : ℕ
default_grpc_max_message_size_mb = 40

abbrev pub default_grpc_max_parallel_streams : ℕ
default_grpc_max_parallel_streams = 1024

abbrev pub default_grpc_request_timeout_secs : ℕ
default_grpc_request_timeout_secs = 30

abbrev pub default_tei_binary_path : String
default_tei_binary_path = "text-embeddings-router"

abbrev pub default_grpc_enabled : Bool
default_grpc_enabled = true

abbrev pub default_auth_config : AuthConfig
default_auth_config = record {
  enabled = false;
  providers = [];
  require_cert_headers = false;
  mtls = none;
}

abbrev pub default_state_file : FilePath
default_state_file = record { dir = "/data"; stem = "tei-manager-state"; extension = some "toml" }

-- `ManagerConfig::default`.
abbrev pub default_manager_config : ManagerConfig
default_manager_config = record {
  api_port = default_api_port;
  state_file = default_state_file;
  health_check_interval_secs = default_health_check_interval;
  startup_timeout_secs = default_startup_timeout;
  max_failures_before_restart = default_max_failures_before_restart;
  graceful_shutdown_timeout_secs = default_graceful_shutdown_timeout;
  auto_restore_on_restart = false;
  max_instances = none;
  instance_port_start = default_instance_port_start;
  instance_port_end = default_instance_port_end;
  instances = [];
  models = none;
  tei_binary_path = default_tei_binary_path;
  grpc_port = default_grpc_port;
  grpc_enabled = default_grpc_enabled;
  grpc_max_message_size_mb = default_grpc_max_message_size_mb;
  grpc_max_parallel_streams = default_grpc_max_parallel_streams;
  grpc_request_timeout_secs = default_grpc_request_timeout_secs;
  auth = default_auth_config;
}

-- `InstanceConfig::default`, which is not what the TOML reader fills in.
abbrev pub default_instance_config : InstanceConfig
default_instance_config = record {
  name = "";
  model_id = "";
  port = 0;
  max_batch_tokens = 0;
  max_concurrent_requests = 0;
  pooling = none;
  gpu_id = none;
  prometheus_port = none;
  startup_timeout_secs = none;
  extra_args = [];
  created_at = none;
}
