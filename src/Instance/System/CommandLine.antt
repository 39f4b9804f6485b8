-- ===== src/Instance/System/CommandLine.antt =====
-- The command line of a child in src/instance.rs: the Prometheus port of the manager and of the
-- extra arguments.
use tei_manager.Base.{
  ℕ, ◌+◌, ◌≡◌, ◌≢◌, refl, String, false, Option, none, some, List, [], ◌∷◌, ◌++◌, map, arith,
  str_eq, str_eq_iff, ap, if◌then◌else◌,
}
use tei_manager.Instance.{SpawnConfig}
use tei_manager.Instance.System.{
  Arg, text, number, prometheus_flag, has_arg, pooling_args, prometheus_args, command,
}

-- How often the flag stands among the arguments.
abbrev pub flag_count : List Arg → ℕ
flag_count [] = 0
flag_count (number n ∷ xs) = flag_count xs
flag_count (text t ∷ xs) = if str_eq t prometheus_flag then flag_count xs + 1 else flag_count xs

flag_count-append : (xs ys : List Arg) → flag_count (xs ++ ys) ≡ flag_count xs + flag_count ys
flag_count-append [] ys = omega arith
flag_count-append (number n ∷ xs) ys = flag_count-append xs ys
flag_count-append (text t ∷ xs) ys = ground (arith, flag_count-append xs ys)

flag_count_absent :
    (extra : List String) → has_arg prometheus_flag extra ≡ false → flag_count (map text extra) ≡ 0
unfolding has_arg
flag_count_absent [] h = refl
flag_count_absent (x ∷ extra) h = ground (arith, flag_count_absent extra)

pooling_flags : (p : Option String) → p ≢ some prometheus_flag → flag_count (pooling_args p) ≡ 0
unfolding pooling_args
pooling_flags none h = refl
pooling_flags (some t) h =
    ground (arith, str_eq_iff t prometheus_flag, λ (e : t ≡ prometheus_flag). h (ap some e))

abbrev pub own_flags : Option ℕ → ℕ
own_flags none = 0
own_flags (some port) = 1

-- The extra arguments win: where they hold the Prometheus flag, the command has it exactly as
-- often as they do, and else exactly once if the instance has a Prometheus port, and never if it
-- has none. Neither the model id nor the pooling may be that flag itself.
pub command_prometheus :
    (c : SpawnConfig)
    → c.model_id ≢ prometheus_flag
    → c.pooling ≢ some prometheus_flag
    → flag_count (command c).args ≡ (
        if has_arg prometheus_flag c.extra_args
        then flag_count (map text c.extra_args)
        else own_flags c.prometheus_port)
unfolding command prometheus_args
command_prometheus c model pooling = ground (
  arith,
  str_eq_iff c.model_id prometheus_flag,
  pooling_flags c.pooling pooling,
  flag_count-append (prometheus_args c.extra_args c.prometheus_port) (map text c.extra_args),
  flag_count-append (pooling_args c.pooling)
      (prometheus_args c.extra_args c.prometheus_port ++ map text c.extra_args),
  flag_count_absent c.extra_args,
)
