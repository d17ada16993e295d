-- ===== src/Objects/Ports.antt =====
-- internal/objects/dto/device_port.go, internal/objects/bo/device_port.go and
-- internal/entities/hub_port.go: the ports of the device.
use sdwan_agent.Prelude.{
  String, ℕ, Bool, Option, none, some, List, [], ◌∷◌, map, str_eq, if◌then◌else◌,
}
use sdwan_agent.Config.{PortConfig, WanConfig}

-- `LinuxInterfaceAddr`; it is printed as the text `addr/prefix`.
pub record LinuxInterfaceAddr : Type 0 where
  pub addr : String
  pub prefix : ℕ

pub record LinuxInterface : Type 0 where
  pub name : String
  pub state : String
  pub mac : String
  pub mtu : ℕ
  pub addr_info : List LinuxInterfaceAddr

-- `bo.DevicePort`; the printed addresses stand for themselves.
pub record DevicePort : Type 0 where
  pub name : String
  pub state : String
  pub mac : String
  pub mtu : ℕ
  pub ips : List LinuxInterfaceAddr
  pub subnet_mask : String
  pub gateway : String
  pub dns : List String

-- `dto.DevicePort`.
pub record DevicePortDto : Type 0 where
  pub name : String
  pub state : String
  pub mac : String
  pub mtu : ℕ
  pub ips : List LinuxInterfaceAddr
  pub subnet_mask : String
  pub gateway : String
  pub dns : List String

-- `PortStaticConfig`, `PortWANConfig` and `dto.DevicePortConfig`.
pub record PortStatic : Type 0 where
  pub ip_addr : String
  pub subnet_mask : String
  pub gateway : String
  pub dns : String

pub record PortWan : Type 0 where
  pub mode : String
  pub static : Option PortStatic
  -- the `StealthICMPMode` of the options
  pub stealth_icmp_mode : Option Bool

pub record PortConfigDto : Type 0 where
  pub name : String
  pub port_type : String
  pub tagged : Bool
  pub wan : Option PortWan
  -- the `APNServer` of the LTE settings
  pub lte : Option String

-- `HubPort`.
pub record HubPort : Type 0 where
  pub name : String
  pub oper_state : String
  pub mtu : ℕ
  pub addresses : List LinuxInterfaceAddr
  pub config : Option PortConfig

-- `net.ParseIP(addr).To4() != nil` and `netutils.NetmaskToString`.
pub record Net : Type 0 where
  pub is_ipv4 : String → Bool
  pub netmask_to_string : ℕ → String

module _ (net : Net) where
  -- The loop over the addresses: the mask is that of the last IPv4 address.
  unfoldable pub subnet_mask_of : String → List LinuxInterfaceAddr → String
  subnet_mask_of mask [] = mask
  subnet_mask_of mask (a ∷ rest) =
      subnet_mask_of (if net.is_ipv4 a.addr then net.netmask_to_string a.prefix else mask) rest

  -- `NewDevicePortFromLinuxInterface`.
  unfoldable pub new_device_port : LinuxInterface → DevicePort
  unfolding subnet_mask_of
  new_device_port l = record {
    name = l.name;
    state = l.state;
    mac = l.mac;
    mtu = l.mtu;
    ips = l.addr_info;
    subnet_mask = subnet_mask_of "" l.addr_info;
    gateway = "";
    dns = [];
  }

  -- `NewDevicePortsFromLinuxInterfaces`.
  abbrev pub new_device_ports : List LinuxInterface → List DevicePort
  new_device_ports ls = map new_device_port ls

-- `DevicePort.ToDto`, and that of the list.
abbrev pub device_port_to_dto : DevicePort → DevicePortDto
device_port_to_dto p = record {
  name = p.name;
  state = p.state;
  mac = p.mac;
  mtu = p.mtu;
  ips = p.ips;
  subnet_mask = p.subnet_mask;
  gateway = p.gateway;
  dns = p.dns;
}

abbrev pub device_ports_to_dto : List DevicePort → List DevicePortDto
device_ports_to_dto ps = map device_port_to_dto ps

-- `convertPortsToDto` of internal/domains/port/handler.go, for one port.
abbrev pub static_to_dto : WanConfig → Option PortStatic
static_to_dto wan =
    if str_eq wan.mode "static"
    then some (record {
      ip_addr = wan.ip_addr;
      subnet_mask = wan.subnet_mask;
      gateway = wan.gateway;
      dns = wan.dns;
    })
    else none

abbrev pub wan_to_dto : WanConfig → PortWan
wan_to_dto wan = record {
  mode = wan.mode;
  static = static_to_dto wan;
  stealth_icmp_mode = wan.stealth_icmp_mode;
}

-- The LTE settings are only passed on within those of the WAN.
unfoldable pub convert_port_to_dto : PortConfig → PortConfigDto
convert_port_to_dto p = elim p.wan [
  | none ↦ record {
    name = p.name;
    port_type = p.port_type;
    tagged = p.is_tag;
    wan = none;
    lte = none;
  }
  | some wan ↦ record {
    name = p.name;
    port_type = p.port_type;
    tagged = p.is_tag;
    wan = some (wan_to_dto wan);
    lte = p.lte;
  }
]

abbrev pub convert_ports_to_dto : List PortConfig → List PortConfigDto
convert_ports_to_dto ps = map convert_port_to_dto ps
