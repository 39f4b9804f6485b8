-- ===== src/Startup/Sound.antt =====
-- What the registry of src/registry.rs keeps from the start of src/main.rs on.
use tei_manager.Base.{
  ℕ, ◌<◌, ◌≡◌, inl, inr, refl, sym, ap, subst, ◌∙◌, Bool, List, [], ◌∷◌, arith, Result, ok, err,
  All,
}
use tei_manager.Base.Dict.{All-erase}
use tei_manager.Base.Reorder.{All-perm}
use tei_manager.Config.{ManagerConfig, InstanceConfig}
use tei_manager.Instance.{TeiInstance}
use tei_manager.Registry.{Registry, RegistryError, add, new_registry, u16_mod}
use tei_manager.Registry.Add.{AddOutcome, add-AddOutcome}
use tei_manager.Registry.Invariant.{IsValid, add-IsValid, new_registry-IsValid}
use tei_manager.Registry.Explicit.{IsPlaced, IsExplicit, add-IsPlaced, add_all}
use tei_manager.Registry.Moves.{Moved, Moved-IsValid}

-- A registry of the manager with that configuration: valid, every instance with its ports, and the
-- limit and the range of the configuration.
pub record IsSound (config : ManagerConfig) (r : Registry) : Type 0 where
  pub valid : IsValid r
  pub placed : IsPlaced r
  pub limit : r.max_instances ≡ config.max_instances
  pub range : r.instance_port_range ≡ (config.instance_port_start, config.instance_port_end)

module _ (config : ManagerConfig) (low : 0 < config.instance_port_start) where
  add_keeps :
      (free : ℕ → Bool) (c : InstanceConfig) (r : Registry)
      → ((add free c r).1.max_instances ≡ r.max_instances)
        × ((add free c r).1.instance_port_range ≡ r.instance_port_range)
  add_keeps free c r = outcome (add free c r) (add-AddOutcome free c r)
    where
      outcome :
          (res : Result RegistryError TeiInstance × Registry)
          → AddOutcome free c r res
          → (res.1.max_instances ≡ r.max_instances)
            × (res.1.instance_port_range ≡ r.instance_port_range)
      outcome (ok i, r') a =
          (ap (λ s. s.max_instances) a.registry, ap (λ s. s.instance_port_range) a.registry)
      outcome (err e, r') a = (ap (λ s. s.max_instances) a.1, ap (λ s. s.instance_port_range) a.1)

  add-IsSound :
      (free : ℕ → Bool) (c : InstanceConfig) (r : Registry)
      → IsSound config r
      → IsSound config (add free c r).1
  add-IsSound free c r s = record {
    valid = add-IsValid free c r s.valid;
    placed = add-IsPlaced free c r s.valid (ground (arith, s.range, low)) s.placed;
    limit = (add_keeps free c r).0 ∙ s.limit;
    range = (add_keeps free c r).1 ∙ s.range;
  }

  pub add_all-IsSound :
      (free : ℕ → Bool) (cs : List InstanceConfig) (r : Registry)
      → IsSound config r
      → IsSound config (add_all free cs r)
  unfolding add_all
  add_all-IsSound free [] r s = s
  add_all-IsSound free (c ∷ cs) r s =
      add_all-IsSound free cs (add free c r).1 (add-IsSound free c r s)

  pub Moved-IsSound : (r r' : Registry) → Moved r r' → IsSound config r → IsSound config r'
  Moved-IsSound r r' (inl same) s = subst (IsSound config) (sym same) s
  Moved-IsSound r r' (inr (inl (free, c, e))) s =
      subst (IsSound config) (sym e) (add-IsSound free c r s)
  Moved-IsSound r r' (inr (inr (inr (order, p, e)))) s = record {
    valid = Moved-IsValid r r' (inr (inr (inr (order, p, e)))) s.valid;
    placed =
        subst (λ d. All (λ x. IsExplicit x.1.config) d) (sym (ap (λ q. q.instances) e))
          (All-perm _ p s.placed);
    limit = ap (λ q. q.max_instances) e ∙ s.limit;
    range = ap (λ q. q.instance_port_range) e ∙ s.range;
  }
  Moved-IsSound r r' (inr (inr (inl (name, e)))) s = record {
    valid = Moved-IsValid r r' (inr (inr (inl (name, e)))) s.valid;
    placed =
        subst (λ d. All (λ x. IsExplicit x.1.config) d) (sym (ap (λ q. q.instances) e))
          (All-erase _ name r.instances s.placed);
    limit = ap (λ q. q.max_instances) e ∙ s.limit;
    range = ap (λ q. q.instance_port_range) e ∙ s.range;
  }

pub new_registry-IsSound :
    (config : ManagerConfig)
    → config.instance_port_end < u16_mod
    → IsSound config (
        new_registry config.max_instances config.tei_binary_path config.instance_port_start
          config.instance_port_end)
unfolding new_registry
new_registry-IsSound config h = record {
  valid =
      new_registry-IsValid config.max_instances config.tei_binary_path config.instance_port_start
        config.instance_port_end h;
  placed = tt;
  limit = refl;
  range = refl;
}
