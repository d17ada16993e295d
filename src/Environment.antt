-- ===== src/Environment.antt =====
-- internal/environment/environment.go: the settings of the process.
use sdwan_agent.Prelude.{String, Bool, is_blank, str_eq, if◌then◌else◌}
use sdwan_agent.Errors.{Result, ok, err, reason}

-- `Agent`.
pub record Settings : Type 0 where
  pub end_point : String
  pub device_id : String
  pub device_type : String
  pub wg_config_root : String
  pub logfile_path : String
  pub log_level : String

-- `constants.DefaultLogfilePath`.
abbrev pub default_logfile_path : String
default_logfile_path = "/var/log/sdwan/sdwan_agent.log"

abbrev pub or_default : String → String → String
or_default value default = if is_blank value then default else value

-- The settings after the device type; the library's `GetString` is given the name of a variable, which
-- it puts after the prefix.
abbrev pub settings_of : (String → String) → String → Settings
settings_of get device_type = record {
  end_point = get "AGENT_ENDPOINT";
  device_id = get "AGENT_ID";
  device_type = device_type;
  wg_config_root = get "AGENT_CFG_ROOT";
  logfile_path = or_default (get "AGENT_LOG_FILE") default_logfile_path;
  log_level = or_default (get "AGENT_LOG_LEVEL") "info";
}

-- `New`.
abbrev pub new : (String → String) → Result Settings
new get =
    let device_type = get "SDWAN_DEVICE" in
    if is_blank device_type
    then err (reason "New: device type env is empty")
    else ok (settings_of get device_type)

-- `IsDebug`.
abbrev pub is_debug : Settings → Bool
is_debug settings = str_eq settings.log_level "debug"
