-- ===== src/Config/Load/Overrides.antt =====
-- The environment's part in `ManagerConfig::load` of src/config.rs.
use tei_manager.Base.{ℕ, ◌≤◌, ◌≡◌, ◌↔◌, refl, String, Option, none, some, arith, Result, ok, err}
use tei_manager.Base.Text.{codes, parse_unsigned-le, parse_bool}
use tei_manager.Config.{FilePath, ManagerConfig}
use tei_manager.Config.Load.{
  LoadError, Source, u16_max, u64_max, parse_u16, parse_u64, base_config, override, apply_env, load,
  ◌>>=◌,
}

-- How a field's new value follows from the variable and the old value.
abbrev pub Overrides {ℓ} : {A : Type ℓ} → (String → Option A) → Option String → A → A → Type ℓ
Overrides parse none old new = new ≡ old
Overrides parse (some text) old new = parse text ≡ some new

override_iff {ℓ} :
    {A : Type ℓ} (parse : String → Option A) (name : String) (var : Option String) (old new : A)
    → (override parse name var old ≡ ok new) ↔ Overrides parse var old new
unfolding override
override_iff parse name none old new = ground arith
override_iff parse name (some text) old new = ground arith

>>=-iff :
    {A B : Type 0} (m : Result LoadError A) (f : A → Result LoadError B) (b : B)
    → ((m >>= f) ≡ ok b) ↔ ((a : A) × (m ≡ ok a) × (f a ≡ ok b))
>>=-iff (ok a) f b = (λ h. (a, refl, h), λ (a', e, h). ground arith)
>>=-iff (err x) f b = (λ h. cc, λ (a', e, h). cc)

module _ (path_of : String → FilePath) where
  -- The configuration `d` is `c` with the variables that are set read into their fields.
  pub record IsOverridden (src : Source) (c d : ManagerConfig) : Type 0 where
    pub api_port : Overrides parse_u16 (src.env "TEI_MANAGER_API_PORT") c.api_port d.api_port
    pub state_file :
        Overrides
          (λ s. some (path_of s))
          (src.env "TEI_MANAGER_STATE_FILE")
          c.state_file
          d.state_file
    pub interval :
        Overrides parse_u64
          (src.env "TEI_MANAGER_HEALTH_CHECK_INTERVAL")
          c.health_check_interval_secs
          d.health_check_interval_secs
    pub binary :
        Overrides (λ s. some s) (src.env "TEI_BINARY_PATH") c.tei_binary_path d.tei_binary_path
    pub grpc_port : Overrides parse_u16 (src.env "TEI_MANAGER_GRPC_PORT") c.grpc_port d.grpc_port
    pub grpc_enabled :
        Overrides parse_bool (src.env "TEI_MANAGER_GRPC_ENABLED") c.grpc_enabled d.grpc_enabled
    pub unchanged : d ≡ record c {
      api_port = d.api_port;
      state_file = d.state_file;
      health_check_interval_secs = d.health_check_interval_secs;
      tei_binary_path = d.tei_binary_path;
      grpc_port = d.grpc_port;
      grpc_enabled = d.grpc_enabled;
    }

  apply_env_iff :
      (src : Source) (c d : ManagerConfig) → (apply_env path_of src c ≡ ok d) ↔ IsOverridden src c d
  unfolding apply_env override
  apply_env_iff src c d = ground arith

  -- A load succeeds exactly when the file reads and parses (or no file is named) and every
  -- variable that is set parses; the result is the file's configuration with those six fields
  -- overridden and all others unchanged.
  pub load_iff :
      (src : Source) (path : Option FilePath) (d : ManagerConfig)
      → (load path_of src path ≡ ok d)
        ↔ ((c : ManagerConfig) × (base_config src path ≡ ok c) × IsOverridden src c d)
  unfolding load
  load_iff src path d = (
    λ h.
        let (c, base, over) = (>>=-iff (base_config src path) (apply_env path_of src) d).0 h in
        (c, base, (apply_env_iff src c d).0 over),
    λ (c, base, over).
        (>>=-iff (base_config src path) (apply_env path_of src) d).1
          (c, base, (apply_env_iff src c d).1 over),
  )

Overrides-le :
    (top : ℕ) (parse : String → Option ℕ) (var : Option String) (old new : ℕ)
    → ((s : String) (v : ℕ) → parse s ≡ some v → v ≤ top)
    → old ≤ top
    → Overrides parse var old new
    → new ≤ top
Overrides-le top parse none old new f h e = omega arith
Overrides-le top parse (some text) old new f h e = f text new e

-- The ports and the interval of a loaded configuration fit their machine types, if those of the
-- file do.
pub load_ranges :
    (path_of : String → FilePath) (src : Source) (path : Option FilePath) (c d : ManagerConfig)
    → base_config src path ≡ ok c
    → c.api_port ≤ u16_max
    → c.grpc_port ≤ u16_max
    → c.health_check_interval_secs ≤ u64_max
    → load path_of src path ≡ ok d
    → (d.api_port ≤ u16_max) × (d.grpc_port ≤ u16_max) × (d.health_check_interval_secs ≤ u64_max)
unfolding load parse_u16 parse_u64
load_ranges path_of src path c d base api grpc interval h =
    let over = (apply_env_iff path_of src c d).0 (ground arith) in
    (
      Overrides-le u16_max parse_u16 _ _ _ (λ s. parse_unsigned-le u16_max (codes s)) api
          over.api_port,
      Overrides-le u16_max parse_u16 _ _ _ (λ s. parse_unsigned-le u16_max (codes s)) grpc
          over.grpc_port,
      Overrides-le u64_max parse_u64 _ _ _ (λ s. parse_unsigned-le u64_max (codes s)) interval
          over.interval,
    )
