-- ===== src/Startup/Initial.antt =====
-- `InitialAggrator` of cmd/initial/initial.go, and the handle that it makes.
use sunwukong.Base.{
  String, ℕ, Bool, true, Option, [], ◌∷◌, str_eq, Error, Result, ok, err, panic, if◌then◌else◌,
}
use sunwukong.Kube.Time.{Duration}
use sunwukong.Kube.Names.{NamespacedName}
use sunwukong.Houmao.{Houmao}
use sunwukong.Daofa.Cluster.{Cluster, CalculateHandle}
use sunwukong.Startup.Process.{
  returned, panicked, exited, set_up_controller, start_zaohua, add_check, start_manager, Process,
  stop, act, require, FlagPackage, value_or, parse_flags,
}
use sunwukong.Startup.Logger.{set_logger_level}

abbrev pub shifa_cmd_role : String
shifa_cmd_role = "shifa"

abbrev pub zaohua_cmd_role : String
zaohua_cmd_role = "zaohua"

abbrev pub zaohua_mode_beidong : String
zaohua_mode_beidong = "Beidong"

pub record InitialParam (F : Type 0) : Type 0 where
  pub role : String
  pub cpu_initialization_period : Duration
  pub initial_readiness_delay : Duration
  pub down_scale_stabilization_window : Duration
  pub scale_tolerance : F

-- The options of the manager, without the scheme.
pub record ManagerOptions : Type 0 where
  pub metrics_bind_address : String
  pub port : ℕ
  pub health_probe_bind_address : String
  pub leader_election : Bool
  pub leader_election_id : String

-- What the libraries answer: `GetConfigOrDie`, which ends the process on an error, `NewManager`,
-- seelog, `SetupWithManager` of a controller, the environment, `Get` of the object before the
-- manager is started, the metrics clients, the checks, and `Start`.
pub record Environment : Type 0 where
  pub get_config : Option Error
  pub new_manager : ManagerOptions → Option Error
  pub new_logger : String → Option Error
  pub set_up : String → Option Error
  pub getenv : String → String
  pub get_object : NamespacedName → Result Houmao
  pub resource_client : Option Error
  pub discovery_client : Option Error
  pub external_client : Option Error
  pub cluster : Cluster
  pub add_healthz_check : String → Option Error
  pub add_readyz_check : String → Option Error
  pub start : Option Error

unfoldable pub new_calculate_handle :
    {F : Type 0} → Cluster → Duration → Duration → Duration → F → CalculateHandle F
new_calculate_handle cluster cpu_period readiness_delay window tolerance = record {
  cluster = cluster;
  cpu_initialization_period = cpu_period;
  initial_readiness_delay = readiness_delay;
  down_scale_stabilization_window = window;
  scale_tolerance = tolerance;
}

abbrev pub handle_of_param : {F : Type 0} → Cluster → InitialParam F → CalculateHandle F
unfolding new_calculate_handle
handle_of_param cluster param =
    new_calculate_handle cluster param.cpu_initialization_period param.initial_readiness_delay
      param.down_scale_stabilization_window param.scale_tolerance

-- The object that the process of the loop works for.
abbrev pub object_key : Environment → NamespacedName
object_key env = record { namespace = env.getenv "HoumaoNamespace"; name = env.getenv "HoumaoName" }

module _ {F : Type 0} (env : Environment) where
  unfoldable pub set_up_with_manager : String → Process F → Process F
  set_up_with_manager controller next =
      require (env.set_up controller) (exited 1) (act (set_up_controller controller) next)

  -- The branch of the role zaohua, from the answer for the object on.
  unfoldable pub start_loop : InitialParam F → Result Houmao → Process F → Process F
  unfolding set_up_with_manager
  start_loop param (panic p) next = stop panicked
  start_loop param (err e) next = stop returned
  start_loop param (ok object) next = require env.resource_client returned (
      require env.discovery_client returned (
        require env.external_client returned (
          act
            (start_zaohua (handle_of_param env.cluster param) object
              (env.getenv zaohua_mode_beidong))
            (set_up_with_manager "Zaohua" next))))

  unfoldable pub start_role : InitialParam F → Process F → Process F
  unfolding start_loop set_up_with_manager
  start_role param next =
      if str_eq param.role shifa_cmd_role
      then set_up_with_manager "Sunwukong" next
      else if str_eq param.role zaohua_cmd_role
      then start_loop param (env.get_object (object_key env)) next
      else stop (exited 1)

  -- The checks, and the start of the manager.
  unfoldable pub run_manager : Process F
  run_manager = require (env.add_healthz_check "healthz") (exited 1) (
      act (add_check "healthz") (
        require (env.add_readyz_check "readyz") (exited 1) (
          act (add_check "readyz")
            (act start_manager (require env.start (exited 1) (stop returned))))))

  module _ {S : Type 0} (flags : FlagPackage F S) where
    abbrev pub manager_options : S → ManagerOptions
    manager_options given = record {
      metrics_bind_address = value_or ":8080" (flags.string_value "metrics-bind-address" given);
      port = 9443;
      health_probe_bind_address =
          value_or ":8081" (flags.string_value "health-probe-bind-address" given);
      leader_election = value_or true (flags.bool_value "leader-elect" given);
      leader_election_id = "a47d2438.my.domain";
    }

    abbrev pub log_level : S → String
    log_level given = value_or "info" (flags.string_value "log-level" given)

    -- From the parsed flags on.
    unfoldable pub start_process : InitialParam F → S → Process F
    unfolding start_role run_manager
    start_process param given = require env.get_config (exited 1) (
        require (env.new_manager (manager_options given)) (exited 1)
          (set_logger_level env.new_logger (log_level given) (start_role param run_manager)))

    unfoldable pub initial_aggrator : InitialParam F → S → Process F
    unfolding start_process
    initial_aggrator param set =
        parse_flags flags
          ("metrics-bind-address" ∷ "health-probe-bind-address" ∷ "leader-elect" ∷ "log-level" ∷ [])
          set (start_process param)
