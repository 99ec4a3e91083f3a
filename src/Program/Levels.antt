-- ===== src/Program/Levels.antt =====
-- The levels of logging/logging.go. Upper case is that of ASCII.
use registrator.Common.{String, map, if◌then◌else◌, ◌==◌}
use registrator.Common.Map.{Map, put}
use registrator.Common.Text.{chars, text, upper}

-- The levels of the logging library
pub data Level : Type 0 where
  critical : Level
  error : Level
  warning : Level
  notice : Level
  info : Level
  debug : Level

-- The second argument is the value of the environment variable.
unfoldable pub get_env_log_level : Level → String → Level
unfolding upper
get_env_log_level default_level value =
    let override = text (map upper (chars value)) in
    if override == "DEBUG"
    then debug
    else if override == "INFO"
    then info
    else if override == "NOTICE"
    then notice
    else if override == "WARNING"
    then warning
    else if override == "ERROR"
    then error
    else if override == "CRITICAL"
    then critical
    else default_level

-- The levels that Configure sets, of all loggers and of fargo's, over the environment.
unfoldable pub configure_levels : (String → String) → Map Level → Map Level
unfolding get_env_log_level put
configure_levels env levels =
    put "fargo" (get_env_log_level notice (env "FARGO_LOG_LEVEL"))
      (put "" (get_env_log_level info (env "REGISTRATOR_LOG_LEVEL")) levels)
