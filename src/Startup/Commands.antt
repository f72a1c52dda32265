-- ===== src/Startup/Commands.antt =====
-- The commands: main.go, cmd/shifa.go, cmd/zaohua.go, cmd/customizemetrics.go and the package
-- customize_metrics.
use sunwukong.Base.{
  String, Option, none, some, List, [], ◌∷◌, str_eq, Error, if◌then◌else◌, ◌⊎◌, inl, inr,
}
use sunwukong.Base.Int.{ℤ, pos}
use sunwukong.Float.{Float}
use sunwukong.Startup.Process.{
  returned, panicked, exited, listen_and_serve, Process, stop, act, require, FlagPackage, value_or,
  parse_flags,
}
use sunwukong.Startup.Logger.{init_logger}
use sunwukong.Startup.Initial.{
  shifa_cmd_role, zaohua_cmd_role, InitialParam, Environment, initial_aggrator,
}

-- The constants of util/consts, which as durations count nanoseconds.
abbrev pub cpu_initialization_period : ℤ
cpu_initialization_period = pos 300

abbrev pub initial_readiness_delay : ℤ
initial_readiness_delay = pos 30

abbrev pub scale_tolerance : {F : Type 0} → Float F → F
scale_tolerance fl = fl.div (fl.of_int (pos 1)) (fl.of_int (pos 10))

-- The command that cobra finds for the arguments.
pub data Command : Type 0 where
  shifa_cmd zaohua_cmd customizemetrics_cmd : Command

-- The parts of cobra, homedir and promauto that the commands use: the command of the arguments, or
-- an error; the flag `config`; the home directory; and the registration of a metric of a name,
-- which is `none` if it panics.
pub record CommandLine (R : Type 0) : Type 0 where
  pub find_command : Error ⊎ Command
  pub cfg_file : String
  pub home_dir : Option Error
  pub register : String → R → Option R

module _ {F S : Type 0} (fl : Float F) (env : Environment) (flags : FlagPackage F S) where
  -- The parameters as `initZaohuaOptions` leaves them.
  unfoldable pub zaohua_param : S → InitialParam F
  zaohua_param given = record {
    role = zaohua_cmd_role;
    cpu_initialization_period =
        value_or cpu_initialization_period (flags.duration_value "cpu-initialization-period" given);
    initial_readiness_delay =
        value_or initial_readiness_delay (flags.duration_value "initial-readiness-delay" given);
    down_scale_stabilization_window =
        value_or (pos 300) (flags.duration_value "down-scale-stabilization-window" given);
    scale_tolerance = value_or (scale_tolerance fl) (flags.float_value "scale-tolerance" given);
  }

  unfoldable pub init_zaohua_options : S → (S → Process F) → Process F
  init_zaohua_options set next =
      parse_flags flags
        ("cpu-initialization-period" ∷ "initial-readiness-delay" ∷ "down-scale-stabilization-window"
          ∷ "scale-tolerance" ∷ [])
        set next

  unfoldable pub zaohua_runner : S → Process F
  unfolding init_zaohua_options
  zaohua_runner set =
      init_zaohua_options set (λ given. initial_aggrator env flags (zaohua_param given) given)

  unfoldable pub shifa_runner : S → Process F
  shifa_runner set =
      initial_aggrator env flags
        (record {
          role = shifa_cmd_role;
          cpu_initialization_period = pos 0;
          initial_readiness_delay = pos 0;
          down_scale_stabilization_window = pos 0;
          scale_tolerance = fl.of_int (pos 0);
        })
        set

  -- `initConfig`, before a command runs; what viper reads is not used.
  unfoldable pub init_config : String → Option Error → Process F → Process F
  init_config cfg_file home_dir next =
      if str_eq cfg_file "" then require home_dir (exited 1) next else next

  -- `StartCustomizeMetrics`, which also counts itself in `demoMetrics`.
  unfoldable pub start_customize_metrics : Process F
  start_customize_metrics = act (listen_and_serve "127.0.0.1:45641") (stop returned)

  unfoldable pub run_command : Command → S → Process F
  unfolding zaohua_runner shifa_runner start_customize_metrics
  run_command shifa_cmd set = shifa_runner set
  run_command zaohua_cmd set = zaohua_runner set
  run_command customizemetrics_cmd set = start_customize_metrics

  unfoldable pub execute : {R : Type 0} → CommandLine R → S → Process F
  unfolding init_config run_command
  execute line set = elim line.find_command [
    | inl e ↦ stop (exited 1)
    | inr command ↦ init_config line.cfg_file line.home_dir (run_command command set)
  ]

-- The metrics that customize_metrics makes when the program starts, each by its name.
abbrev pub demo_metrics : List String
demo_metrics = "test_demo_metrics_total" ∷ "" ∷ "" ∷ "test_demo_metrics_summary" ∷ []

unfoldable pub register_all : {R : Type 0} → CommandLine R → List String → R → Option R
register_all line [] registry = some registry
register_all line (name ∷ names) registry = elim (line.register name registry) [
  | none ↦ none
  | some next ↦ register_all line names next
]

module _ {F S R : Type 0} (fl : Float F) (env : Environment) (flags : FlagPackage F S)
    (line : CommandLine R) where
  -- The program: before `main` runs, the metrics of customize_metrics are registered and the log is
  -- set to the level debug.
  unfoldable pub main : S → R → Process F
  unfolding register_all execute
  main set registry = elim (register_all line demo_metrics registry) [
    | none ↦ stop panicked
    | some r ↦ init_logger env.new_logger (execute fl env flags line set)
  ]
