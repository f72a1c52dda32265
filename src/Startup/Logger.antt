-- ===== src/Startup/Logger.antt =====
-- util/logger/logger.go, and the levels of the log that cmd/initial/initial.go lets through.
use Prim.Native.String.{◌++◌ as str_append}
use sunwukong.Base.{String, Bool, ◌||◌, Option, str_eq, Error, if◌then◌else◌}
use sunwukong.Startup.Process.{replace_logger, exited, Process, stop, act, require}

abbrev log_level_debug : String
log_level_debug = "debug"

abbrev log_level_info : String
log_level_info = "info"

abbrev log_level_warn : String
log_level_warn = "warn"

abbrev log_level_error : String
log_level_error = "error"

-- The configuration of seelog around the level.
abbrev config_head : String
config_head = "\n<seelog type=\"asynctimer\" asyncinterval=\"1000000\" minlevel=\""

abbrev config_tail : String
config_tail =
    "\" maxlevel=\"error\">\n\t<outputs formatid=\"kube\">\n\t\t<console/>\n\t\t<rollingfile formatid=\"kube\" type=\"size\" filename=\"niwo.log\" maxsize=\"1000000\" maxrolls=\"5\" />\n\t</outputs>\n\t<formats>\n\t\t<format id=\"kube\" format=\"[%Date %Time %LEVEL %FullPath %Func %Line]: %Msg%n\"/>\n\t</formats>\n</seelog>"

unfoldable pub config_of : String → String
config_of level = str_append (str_append config_head level) config_tail

unfoldable pub is_level : String → Bool
is_level level =
    str_eq level log_level_debug
    || str_eq level log_level_info
    || str_eq level log_level_warn
    || str_eq level log_level_error

module _ {F : Type 0} (new_logger : String → Option Error) where
  -- `SwitchLoggerLevel`, whose failure is fatal; `new_logger` is `LoggerFromConfigAsBytes`.
  unfoldable pub switch_logger_level : String → Process F → Process F
  switch_logger_level level next =
      require (new_logger (config_of level)) (exited 1)
        (act (replace_logger (config_of level)) next)

  -- The package's `init`.
  unfoldable pub init_logger : Process F → Process F
  unfolding switch_logger_level
  init_logger = switch_logger_level log_level_debug

  unfoldable pub set_logger_level : String → Process F → Process F
  unfolding switch_logger_level
  set_logger_level level next =
      if is_level level then switch_logger_level level next else stop (exited 1)
