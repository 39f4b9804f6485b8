-- ===== src/Config/Load.antt =====
-- `ManagerConfig::load` of src/config.rs: the file or the defaults, then the environment. The
-- file system, the TOML reader and the environment are the argument `Source`.
pub mod Overrides
use tei_manager.Base.{ℕ, String, Bool, Option, none, some, if◌then◌else◌, Result, ok, err, ok_or}
use tei_manager.Base.Text.{codes, parse_unsigned, parse_bool}
use tei_manager.Config.{FilePath, ManagerConfig, default_manager_config}

pub data LoadError : Type 0 where
  unreadable bad_toml : LoadError
  invalid_value : String → LoadError

infixl 5 ◌>>=◌
abbrev pub ◌>>=◌ :
    {A B : Type 0} → Result LoadError A → (A → Result LoadError B) → Result LoadError B
ok a >>= f = f a
err e >>= f = err e

-- The environment, the file reader and the TOML parser.
pub record Source : Type 0 where
  pub env : String → Option String
  pub read_to_string : FilePath → Option String
  pub parse_toml : String → Option ManagerConfig

abbrev pub u16_max : ℕ
u16_max = 65535

abbrev pub u64_max : ℕ
u64_max = 18446744073709551615

unfoldable pub parse_u16 : String → Option ℕ
parse_u16 s = parse_unsigned u16_max (codes s)

pub parse_u64 : String → Option ℕ
parse_u64 s = parse_unsigned u64_max (codes s)

-- `PathBuf::from` of the text; how a text splits into a path is a parameter.
unfoldable pub base_config : Source → Option FilePath → Result LoadError ManagerConfig
base_config src none = ok default_manager_config
base_config src (some path) = do
  content ← ok_or (src.read_to_string path) unreadable
  ok_or (src.parse_toml content) bad_toml

-- `if let Ok(v) = std::env::var(name) { field = v.parse().context(..)?; }`: the new value.
unfoldable pub override {ℓ} :
    {A : Type ℓ} → (String → Option A) → String → Option String → A → Result LoadError A
override parse name none old = ok old
override parse name (some text) old = ok_or (parse text) (invalid_value name)

module _ (path_of : String → FilePath) where
  -- The six overrides, in the order of the source.
  unfoldable pub apply_env : Source → ManagerConfig → Result LoadError ManagerConfig
  apply_env src c = do
    api_port ← override parse_u16 "TEI_MANAGER_API_PORT" (src.env "TEI_MANAGER_API_PORT") c.api_port
    state_file ←
        override (λ s. some (path_of s)) "TEI_MANAGER_STATE_FILE" (src.env "TEI_MANAGER_STATE_FILE")
          c.state_file
    interval ←
        override parse_u64 "TEI_MANAGER_HEALTH_CHECK_INTERVAL"
          (src.env "TEI_MANAGER_HEALTH_CHECK_INTERVAL") c.health_check_interval_secs
    binary ← override (λ s. some s) "TEI_BINARY_PATH" (src.env "TEI_BINARY_PATH") c.tei_binary_path
    grpc_port ←
        override parse_u16 "TEI_MANAGER_GRPC_PORT" (src.env "TEI_MANAGER_GRPC_PORT") c.grpc_port
    grpc_enabled ←
        override parse_bool "TEI_MANAGER_GRPC_ENABLED" (src.env "TEI_MANAGER_GRPC_ENABLED")
          c.grpc_enabled
    ok (record c {
      api_port = api_port;
      state_file = state_file;
      health_check_interval_secs = interval;
      tei_binary_path = binary;
      grpc_port = grpc_port;
      grpc_enabled = grpc_enabled;
    })

  unfoldable pub load : Source → Option FilePath → Result LoadError ManagerConfig
  load src path = do c ← base_config src path; apply_env src c
