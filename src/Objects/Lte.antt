-- ===== src/Objects/Lte.antt =====
-- internal/entities/lte.go: the statistics of a modem, and what `mmcli` prints of one.
use sdwan_agent.Prelude.{String, ℕ, List, []}

pub record SignalQualityStat : Type 0 where
  pub recent : String
  pub value : String

-- The MTU is the 64-bit word of the integer.
pub record LteStat : Type 0 where
  pub imei : String
  pub operator_code : String
  pub operator_name : String
  pub model : String
  pub power_state : String
  pub state : String
  pub device_path : String
  pub port : String
  pub signal_quality : SignalQualityStat
  pub type_name : String
  pub hw_addr : String
  pub mtu : ℕ
  pub general_state : String
  pub connection : String
  pub ip_gateway : String
  pub ip_addresses : List String
  pub dns : List String

-- The variable `modemInfo` of `CollectStats`.
pub record ModemInfo : Type 0 where
  pub imei : String
  pub operator_code : String
  pub operator_name : String
  pub model : String
  pub power_state : String
  pub state : String
  pub device : String
  pub ports : List String
  pub signal_quality : SignalQualityStat
  pub primary_port : String

abbrev pub no_modem_info : ModemInfo
no_modem_info = record {
  imei = "";
  operator_code = "";
  operator_name = "";
  model = "";
  power_state = "";
  state = "";
  device = "";
  ports = [];
  signal_quality = record { recent = ""; value = "" };
  primary_port = "";
}
