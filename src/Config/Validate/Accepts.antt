-- ===== src/Config/Validate/Accepts.antt =====
-- What `ManagerConfig::validate` of src/config.rs asks of a configuration.
use tei_manager.Base.{
  ℕ, ◌-◌, ◌≤◌, ◌<◌, ◌≡◌, ◌≢◌, ◌↔◌, ◌⊎◌, refl, String, true, false, Option, none, some, List, [],
  ◌∷◌, map, arith, str_eq_iff, ok, All, IsDistinct, IsDistinctFrom, IsDistinctFrom-nil,
}
use tei_manager.Config.{FilePath, InstanceConfig, MtlsConfig, AuthConfig, ManagerConfig}
use tei_manager.Config.Validate.{
  Files, Check, ◌>>◌, contains_nat, contains_str, has_separator, check_capacity, check_instance,
  check_instances, check_state_dir, check_mtls, check_auth, validate,
}

abbrev Fits : ℕ → Option ℕ → Type 0
Fits size none = Unit
Fits size (some max) = max ≤ size

-- The seeded instance by itself.
pub record IsSeed (c : ManagerConfig) (i : InstanceConfig) : Type 0 where
  pub port_high : 1024 ≤ i.port
  pub port_apart_api : i.port ≢ c.api_port
  pub port_apart_grpc : (c.grpc_enabled ≡ false) ⊎ (i.port ≢ c.grpc_port)
  pub named : i.name ≢ ""
  pub no_separator : has_separator i.name ≡ false

abbrev pub HasCerts : Files → Option MtlsConfig → Type 0
HasCerts fs none = ⊥
HasCerts fs (some m) =
    (fs.file_exists m.ca_cert ≡ true)
    × (fs.file_exists m.server_cert ≡ true)
    × (fs.file_exists m.server_key ≡ true)

abbrev pub IsAuth : Files → AuthConfig → Type 0
IsAuth fs a =
    (a.enabled ≡ false)
    ⊎ ((a.providers ≢ []) × ((contains_str "mtls" a.providers ≡ false) ⊎ HasCerts fs a.mtls))

pub record IsValid (fs : Files) (c : ManagerConfig) : Type 0 where
  pub api_high : 1024 ≤ c.api_port
  pub range_high : 1024 ≤ c.instance_port_start
  pub range_open : c.instance_port_start < c.instance_port_end
  pub capacity : Fits (c.instance_port_end - c.instance_port_start) c.max_instances
  pub seeds : All (IsSeed c) c.instances
  pub ports_distinct : IsDistinct (map (λ i. i.port) c.instances)
  pub names_distinct : IsDistinct (map (λ i. i.name) c.instances)
  pub state_dir :
      (fs.dir_exists c.state_file.dir ≡ true) ⊎ (fs.create_dir_all c.state_file.dir ≡ true)
  pub auth_sound : IsAuth fs c.auth

>>-ok : (m k : Check) → ((m >> k) ≡ ok tt) ↔ ((m ≡ ok tt) × (k ≡ ok tt))
>>-ok m k = ground arith

contains_nat-false : (x : ℕ) (ys : List ℕ) → (contains_nat x ys ≡ false) ↔ All (λ y. x ≢ y) ys
unfolding contains_nat
contains_nat-false x [] = ground arith
contains_nat-false x (y ∷ ys) = ground (arith, contains_nat-false x ys)

contains_str-false :
    (x : String) (ys : List String) → (contains_str x ys ≡ false) ↔ All (λ y. x ≢ y) ys
unfolding contains_str
contains_str-false x [] = ground arith
contains_str-false x (y ∷ ys) = ground (arith, str_eq_iff x y, contains_str-false x ys)

check_instance_iff :
    (c : ManagerConfig) (ports : List ℕ) (names : List String) (i : InstanceConfig)
    → (check_instance c ports names i ≡ ok tt)
      ↔ (IsSeed c i × (contains_nat i.port ports ≡ false) × (contains_str i.name names ≡ false))
unfolding check_instance
check_instance_iff c ports names i = ground (arith, str_eq_iff i.name "")

-- One round of the loop, in terms of the two sets.
check_instance-decides :
    (c : ManagerConfig) (ports : List ℕ) (names : List String) (i : InstanceConfig)
    → (check_instance c ports names i ≡ ok tt)
      ↔ (IsSeed c i × All (λ p. i.port ≢ p) ports × All (λ n. i.name ≢ n) names)
check_instance-decides c ports names i = ground (
  arith,
  check_instance_iff c ports names i,
  contains_nat-false i.port ports,
  contains_str-false i.name names,
)

check_instances_iff :
    (c : ManagerConfig) (ports : List ℕ) (names : List String) (is : List InstanceConfig)
    → (check_instances c ports names is ≡ ok tt) ↔ (
        All (IsSeed c) is
        × IsDistinctFrom ports (map (λ i. i.port) is)
        × IsDistinctFrom names (map (λ i. i.name) is))
unfolding check_instances
check_instances_iff c ports names [] = (λ h. (tt, tt, tt), λ h. refl)
check_instances_iff c ports names (i ∷ is) =
    let here = check_instance-decides c ports names i in
    let rest = check_instances_iff c (i.port ∷ ports) (i.name ∷ names) is in
    let both =
      >>-ok (check_instance c ports names i)
        (check_instances c (i.port ∷ ports) (i.name ∷ names) is) in
    (
      λ h.
          let (first, later) = both.0 h in
          let (seed, port, name) = here.0 first in
          let (seeds, ports', names') = rest.0 later in
          ((seed, seeds), (port, ports'), (name, names')),
      λ (seeds, ports', names').
          both.1 (here.1 (seeds.0, ports'.0, names'.0), rest.1 (seeds.1, ports'.1, names'.1)),
    )

check_mtls_iff : (fs : Files) (m : Option MtlsConfig) → (check_mtls fs m ≡ ok tt) ↔ HasCerts fs m
unfolding check_mtls
check_mtls_iff fs none = ground arith
check_mtls_iff fs (some m) = ground arith

check_auth_iff : (fs : Files) (a : AuthConfig) → (check_auth fs a ≡ ok tt) ↔ IsAuth fs a
unfolding check_auth
check_auth_iff fs a = ground (arith, check_mtls_iff fs a.mtls)

check_state_dir_iff :
    (fs : Files) (p : FilePath)
    → (check_state_dir fs p ≡ ok tt)
      ↔ ((fs.dir_exists p.dir ≡ true) ⊎ (fs.create_dir_all p.dir ≡ true))
unfolding check_state_dir
check_state_dir_iff fs p = ground arith

check_capacity_iff :
    (c : ManagerConfig)
    → (check_capacity c ≡ ok tt)
      ↔ Fits (c.instance_port_end - c.instance_port_start) c.max_instances
unfolding check_capacity
check_capacity_iff c = ground arith

-- `validate` accepts exactly the configurations that satisfy `IsValid`: the three port bounds, a
-- range with room for `max_instances`, sound seeded instances with distinct ports and names, a
-- usable state directory, and sound authentication settings.
pub validate_iff : (fs : Files) (c : ManagerConfig) → (validate fs c ≡ ok tt) ↔ IsValid fs c
unfolding validate
validate_iff fs c = ground (
  arith,
  check_capacity_iff c,
  check_instances_iff c [] [] c.instances,
  IsDistinctFrom-nil (map (λ i. i.port) c.instances),
  IsDistinctFrom-nil (map (λ i. i.name) c.instances),
  check_state_dir_iff fs c.state_file,
  check_auth_iff fs c.auth,
)
