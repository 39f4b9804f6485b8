-- ===== src/Config/Validate.antt =====
-- `ManagerConfig::validate` of src/config.rs. The file system is the argument `Files`.
pub mod Accepts
use tei_manager.Base.{
  ℕ, suc, ◌-◌, ◌≤◌, ◌<◌, ◌≡◌, ◌≢◌, refl, String, Bool, true, false, not, ◌&&◌, ◌||◌, Option, none,
  some, List, [], ◌∷◌, arith, ltb, leb, ◌==◌, str_eq, str_eq_iff, if◌then◌else◌, Result, ok, err,
  length, All, IsDistinct,
}
use tei_manager.Base.Text.{codes, contains_code}
use tei_manager.Config.{FilePath, InstanceConfig, MtlsConfig, AuthConfig, ManagerConfig}

-- The failures of `validate`, one for each `bail!`.
pub data ConfigError : Type 0 where
  api_port_low : ConfigError
  range_start_low : ConfigError
  range_empty : ConfigError
  range_too_small : ConfigError
  instance_port_low : String → ConfigError
  conflicts_api : String → ConfigError
  conflicts_grpc : String → ConfigError
  duplicate_port : ℕ → ConfigError
  empty_name : ConfigError
  name_separator : String → ConfigError
  duplicate_name : String → ConfigError
  state_dir : ConfigError
  no_providers : ConfigError
  mtls_missing : ConfigError
  ca_cert_missing server_cert_missing server_key_missing : ConfigError

-- What `validate` asks of the file system.
pub record Files : Type 0 where
  pub file_exists : FilePath → Bool
  pub dir_exists : String → Bool
  pub create_dir_all : String → Bool

abbrev pub Check : Type 0
Check = Result ConfigError (Unit {0})

-- `if c { bail!(e) }`, and what comes after it.
abbrev pub bail_when : Bool → ConfigError → Check
bail_when true e = err e
bail_when false e = ok tt

infixl 5 ◌>>◌
abbrev pub ◌>>◌ : Check → Check → Check
ok _ >> k = k
err e >> k = err e

-- `HashSet::insert` returns false on what is in the set.
unfoldable pub contains_nat : ℕ → List ℕ → Bool
contains_nat x [] = false
contains_nat x (y ∷ ys) = x == y || contains_nat x ys

unfoldable pub contains_str : String → List String → Bool
contains_str x [] = false
contains_str x (y ∷ ys) = str_eq x y || contains_str x ys

unfoldable pub has_separator : String → Bool
has_separator name = contains_code b'/' (codes name) || contains_code 92 (codes name)

-- The range check against `max_instances`; the subtraction comes after the range is known not to
-- be empty.
unfoldable pub check_capacity : ManagerConfig → Check
check_capacity c = elim c.max_instances [
  | none ↦ ok tt
  | some max ↦ bail_when (ltb (c.instance_port_end - c.instance_port_start) max) range_too_small
]

-- The body of the loop over the seeded instances, with the ports and names seen before.
unfoldable pub check_instance : ManagerConfig → List ℕ → List String → InstanceConfig → Check
check_instance c ports names i = do
  bail_when (ltb i.port 1024) (instance_port_low i.name)
  bail_when (i.port == c.api_port) (conflicts_api i.name)
  bail_when (c.grpc_enabled && i.port == c.grpc_port) (conflicts_grpc i.name)
  bail_when (contains_nat i.port ports) (duplicate_port i.port)
  bail_when (str_eq i.name "") empty_name
  bail_when (has_separator i.name) (name_separator i.name)
  bail_when (contains_str i.name names) (duplicate_name i.name)

unfoldable pub check_instances : ManagerConfig → List ℕ → List String → List InstanceConfig → Check
check_instances c ports names [] = ok tt
check_instances c ports names (i ∷ is) = do
  check_instance c ports names i
  check_instances c (i.port ∷ ports) (i.name ∷ names) is

-- A file path always has a parent, so only the creation can fail.
unfoldable pub check_state_dir : Files → FilePath → Check
check_state_dir fs p =
    bail_when (not (fs.dir_exists p.dir) && not (fs.create_dir_all p.dir)) state_dir

pub check_mtls : Files → Option MtlsConfig → Check
check_mtls fs none = err mtls_missing
check_mtls fs (some m) = do
  bail_when (not (fs.file_exists m.ca_cert)) ca_cert_missing
  bail_when (not (fs.file_exists m.server_cert)) server_cert_missing
  bail_when (not (fs.file_exists m.server_key)) server_key_missing

is_empty : List String → Bool
is_empty [] = true
is_empty (x ∷ xs) = false

unfoldable pub check_auth : Files → AuthConfig → Check
unfolding is_empty
check_auth fs a =
    if a.enabled
    then (do
      bail_when (is_empty a.providers) no_providers
      if contains_str "mtls" a.providers then check_mtls fs a.mtls else ok tt)
    else ok tt

-- `ManagerConfig::validate`.
unfoldable pub validate : Files → ManagerConfig → Check
validate fs c = do
  bail_when (ltb c.api_port 1024) api_port_low
  bail_when (ltb c.instance_port_start 1024) range_start_low
  bail_when (leb c.instance_port_end c.instance_port_start) range_empty
  check_capacity c
  check_instances c [] [] c.instances
  check_state_dir fs c.state_file
  check_auth fs c.auth
