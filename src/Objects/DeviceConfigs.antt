-- ===== src/Objects/DeviceConfigs.antt =====
-- internal/objects/bo/device_port.go: the configurations of ports and their conversion.
use sdwan_agent.Prelude.{String, ℕ, Bool, Option, none, some, List, map, str_eq, if◌then◌else◌}
use sdwan_agent.Objects.Ports.{PortStatic, PortWan, PortConfigDto}

pub record TagConfig : Type 0 where
  pub id : ℕ
  pub parent_port : String

pub record WanSettings : Type 0 where
  pub mode : String
  pub ip_addr : String
  pub subnet_mask : String
  pub gateway : String
  pub dns : String

pub record DevicePortConfig : Type 0 where
  pub name : String
  pub port_type : String
  pub is_tag : Bool
  pub tag : Option TagConfig
  pub wan : Option WanSettings

abbrev pub static_of : WanSettings → Option PortStatic
static_of w =
    if str_eq w.mode "static"
    then some (record {
      ip_addr = w.ip_addr;
      subnet_mask = w.subnet_mask;
      gateway = w.gateway;
      dns = w.dns;
    })
    else none

abbrev pub wan_of : Option WanSettings → Option PortWan
wan_of none = none
wan_of (some w) = some (record { mode = w.mode; static = static_of w; stealth_icmp_mode = none })

-- `ToDto`, and that of the list. The options and the LTE settings are not set.
abbrev pub config_to_dto : DevicePortConfig → PortConfigDto
config_to_dto p = record {
  name = p.name;
  port_type = p.port_type;
  tagged = p.is_tag;
  wan = wan_of p.wan;
  lte = none;
}

abbrev pub configs_to_dto : List DevicePortConfig → List PortConfigDto
configs_to_dto ps = map config_to_dto ps
