-- ===== src/Tests/Startup.antt =====
-- Starts of the program.
use sunwukong.Base.{
  String, Bool, true, false, ◌≡◌, refl, ◌⊎◌, inl, inr, ℕ, Option, none, some, List, [], ◌∷◌, ok,
  err, no_pods, arith, Bool-cases, str_eq, if◌then◌else◌,
}
use sunwukong.Base.Int.{pos}
use sunwukong.Float.Rational.{Fraction}
use sunwukong.Startup.Process.{
  replace_logger, set_up_controller, panicked, exited, stop, parsed, FlagPackage, define_all,
  parse_flags,
}
use sunwukong.Startup.Logger.{config_of, is_level, switch_logger_level, set_logger_level}
use sunwukong.Startup.Initial.{
  InitialParam, Environment, set_up_with_manager, start_loop, start_role, run_manager,
  start_process, initial_aggrator,
}
use sunwukong.Startup.Commands.{
  Command, CommandLine, init_zaohua_options, zaohua_runner, shifa_runner, init_config, run_command,
  execute, register_all, main,
}
use sunwukong.Startup.Order.{IsOrder, manager_actions, loop_actions, initial_aggrator-IsOrder}
use sunwukong.Startup.Redefined.{IsFlagPackage, zaohua_runner_never}
use sunwukong.Tests.Fixture.{fl}
use sunwukong.Tests.Scale.{houmao, handle}

abbrev pub has : String → List String → Bool
has name [] = false
has name (other ∷ set) = if str_eq name other then true else has name set

abbrev define_once : String → List String → Option (List String)
define_once name set = if has name set then none else some (name ∷ set)

-- The flags are the names that were defined; the command line gives none a value.
abbrev pub flags : FlagPackage Fraction (List String)
flags = record {
  define = define_once;
  bind_zap = define_once "zap-devel";
  parse = λ set. parsed set;
  string_value = λ name set. none;
  bool_value = λ name set. none;
  duration_value = λ name set. none;
  float_value = λ name set. none;
}

abbrev pub env : Environment
env = record {
  get_config = none;
  new_manager = λ options. none;
  new_logger = λ config. none;
  set_up = λ controller. none;
  getenv = λ name. name;
  get_object = λ key. ok houmao;
  resource_client = none;
  discovery_client = none;
  external_client = none;
  cluster = handle.cluster;
  add_healthz_check = λ name. none;
  add_readyz_check = λ name. none;
  start = none;
}

-- The cache is not started.
abbrev pub unread : Environment
unread = record env { get_object = λ key. err no_pods }

abbrev pub param : InitialParam Fraction
param = record {
  role = "zaohua";
  cpu_initialization_period = pos 300;
  initial_readiness_delay = pos 30;
  down_scale_stabilization_window = pos 300;
  scale_tolerance = handle.scale_tolerance;
}

initial_aggrator-IsOrder_example :
    IsOrder env flags param (replace_logger (config_of "info") ∷ loop_actions env param houmao)
unfolding initial_aggrator start_process parse_flags define_all set_logger_level is_level
    switch_logger_level start_role start_loop set_up_with_manager run_manager
initial_aggrator-IsOrder_example = initial_aggrator-IsOrder env flags param [] refl

abbrev pub IsDefined : String → List String → Type 0
IsDefined name set = has name set ≡ true

define_once-IsDefined :
    (name other : String) (set next : List String)
    → define_once name set ≡ some next
    → has other next ≡ (if str_eq other name then true else has other set)
define_once-IsDefined name other set next h = elim (Bool-cases (has name set)) [
  | inl e ↦ absurd (ground arith)
  | inr e ↦ ground arith
]

laws : IsFlagPackage flags IsDefined
laws = record {
  define_keeps =
      λ name other set next h d. ground (arith, define_once-IsDefined name other set next h);
  parse_keeps = λ other set next h d. ground arith;
  bind_zap_defines =
      λ set next h. ground (arith, define_once-IsDefined "zap-devel" "zap-devel" set next h);
  bind_zap_twice = λ set h. ground arith;
}

zaohua_runner_never_example :
    (zaohua_runner fl env flags [] ≡ stop panicked)
    ⊎ ((code : ℕ) × (zaohua_runner fl env flags [] ≡ stop (exited code)))
zaohua_runner_never_example = zaohua_runner_never flags IsDefined laws fl env []

-- The command shifa, after the command line was read.
abbrev line : CommandLine (List String)
line = record {
  find_command = inr Command.shifa_cmd;
  cfg_file = "";
  home_dir = none;
  register = λ name registry. if str_eq name "" then none else some (name ∷ registry);
}

shifa_run :
    (execute fl env flags line []).actions
    ≡ replace_logger (config_of "info") ∷ set_up_controller "Sunwukong" ∷ manager_actions
unfolding execute init_config run_command shifa_runner initial_aggrator start_process parse_flags
    define_all set_logger_level is_level switch_logger_level start_role set_up_with_manager
    run_manager
shifa_run = refl

-- The command zaohua on the same command line.
zaohua_run :
    execute fl env flags (record line { find_command = inr Command.zaohua_cmd }) [] ≡ stop panicked
unfolding execute init_config run_command zaohua_runner init_zaohua_options initial_aggrator
    parse_flags define_all
zaohua_run = refl

-- An invalid level of the log.
invalid_level_run :
    set_logger_level {F = Fraction} env.new_logger "trace" (stop panicked) ≡ stop (exited 1)
unfolding set_logger_level is_level
invalid_level_run = refl

-- A metric without a name cannot be registered.
main_run : main fl env flags line [] [] ≡ stop panicked
unfolding main register_all
main_run = refl
