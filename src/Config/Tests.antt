-- ===== src/Config/Tests.antt =====
-- Configurations for `load` and `validate` of src/config.rs, and theorems at concrete inputs.
use tei_manager.Base.{
  ◌≡◌, ◌↔◌, refl, String, false, none, some, [], ◌∷◌, ok, err, str_eq, if◌then◌else◌,
}
use tei_manager.Base.Text
use tei_manager.Config.{
  FilePath, InstanceConfig, ManagerConfig, default_manager_config, default_instance_config,
}
use tei_manager.Config.Validate.{Files, validate, conflicts_grpc, instance_port_low, duplicate_name}
use tei_manager.Config.Validate
use tei_manager.Config.Validate.Accepts.{IsValid, validate_iff}
use tei_manager.Config.Load.{Source, base_config, load}
use tei_manager.Config.Load.Overrides.{IsOverridden, load_iff}

abbrev files : Files
files = record {
  file_exists = λ p. false;
  dir_exists = λ d. false;
  create_dir_all = λ d. str_eq d "/data";
}

abbrev bge : InstanceConfig
bge = record default_instance_config { name = "bge"; port = 8080 }

abbrev seeded : ManagerConfig
seeded = record default_manager_config {
  instances = bge ∷ record bge { name = "splade"; port = 8081 } ∷ [];
}

validate-seeded : validate files seeded ≡ ok tt
unfolding validate Validate.check_capacity Validate.check_instances Validate.check_instance
    Validate.check_state_dir Validate.check_auth Validate.contains_nat Validate.contains_str
    Validate.has_separator Text.contains_code
validate-seeded = refl

-- A seeded instance that leaves its port open is refused.
validate_open_port :
    validate files (record seeded { instances = record bge { port = 0 } ∷ [] })
    ≡ err (instance_port_low "bge")
unfolding validate Validate.check_capacity Validate.check_instances Validate.check_instance
validate_open_port = refl

validate_iff_example : (validate files seeded ≡ ok tt) ↔ IsValid files seeded
validate_iff_example = validate_iff files seeded

abbrev source : Source
source = record {
  env = λ v. if str_eq v "TEI_MANAGER_API_PORT" then some "9500" else none;
  read_to_string = λ p. none;
  parse_toml = λ s. none;
}

abbrev path_of : String → FilePath
path_of s = record { dir = ""; stem = s; extension = none }

abbrev loaded : ManagerConfig
loaded = record default_manager_config { api_port = 9500 }

load_iff_example : (load path_of source none ≡ ok loaded) ↔ (
    (c : ManagerConfig) × (base_config source none ≡ ok c) × IsOverridden path_of source c loaded)
load_iff_example = load_iff path_of source none loaded
