-- ===== src/Queue/Hub.antt =====
-- internal/domains/hub/service.go: the ports of a hub and its first start.
use sdwan_agent.Prelude.{
  String, Bool, false, Option, none, some, List, [], ◌∷◌, is_blank, str_eq, has_prefix, contains_by,
  if◌then◌else◌,
}
use sdwan_agent.Config.{PortConfig, PortSection}
use sdwan_agent.Errors.{Error, Result, ok, err, reason}
use sdwan_agent.Entities.{on_hub_set_port, on_hub_delete_port, on_first_setup}
use sdwan_agent.Objects.Ports.{LinuxInterface, HubPort}
use sdwan_agent.Action.{Action, ret, fail, done, call, query, lift, ◌>>=◌, ◌>>◌}
use sdwan_agent.Action.Calls.{
  config, search_ip_addr_and_mask, search_gateway, search_dns, all_ports, perform,
}
use sdwan_agent.Handlers.Interface.{Env, is_hub}

-- `checkDeviceIsHub`.
abbrev pub check_device_is_hub : Bool → Action (Unit {0})
check_device_is_hub hub = if hub then done else fail (reason "checkDeviceIsHub: device is not hub")

-- `lo.IsEmpty` of a found text is an error.
abbrev pub not_blank : String → String → Result (Unit {0})
not_blank message found = if is_blank found then err (reason message) else ok tt

-- `SearchDNS` of `SetPort`: with an error its value is dropped, and the first server is taken.
abbrev pub first_dns : List String × Option Error → Result String
first_dns (_, some e) = err e
first_dns ([], none) = err (reason "SetPort: dns not set")
first_dns (dns ∷ _, none) = ok dns

-- The port that `SetPort` builds.
abbrev pub wan_port : String → String → String → String → String → PortConfig
wan_port name ip_addr subnet_mask gateway dns = record {
  name = name;
  port_type = "wan";
  is_tag = false;
  tag_parent = none;
  table_ids = 100 ∷ [];
  wan = some (record {
    mode = "static";
    ip_addr = ip_addr;
    subnet_mask = subnet_mask;
    gateway = gateway;
    dns = dns;
    stealth_icmp_mode = none;
  });
  lte = none;
}

-- `SetPort` from the search for DNS servers on, from that for a gateway on, and as a whole.
abbrev pub perform_set_port : String → String → String → String → String → Action (Unit {0})
perform_set_port name ip_addr subnet_mask gateway dns =
    call (perform (on_hub_set_port (wan_port name ip_addr subnet_mask gateway dns)))

abbrev pub set_port_dns : String → String → String → String → Action (Unit {0})
set_port_dns name ip_addr subnet_mask gateway = do
  found ← query (search_dns name)
  dns ← lift (first_dns found)
  perform_set_port name ip_addr subnet_mask gateway dns

abbrev pub set_port_gateway : String → String → String → Action (Unit {0})
set_port_gateway name ip_addr subnet_mask = do
  gateway ← query (search_gateway name)
  lift (not_blank "SetPort: gateway not set" gateway)
  set_port_dns name ip_addr subnet_mask gateway

abbrev pub set_port_addr : String → String × String → Action (Unit {0})
set_port_addr name (ip_addr, subnet_mask) = do
  lift (not_blank "SetPort: ip address not set" ip_addr)
  lift (not_blank "SetPort: subnet mask not set" subnet_mask)
  set_port_gateway name ip_addr subnet_mask

abbrev pub set_port : Env → String → Action (Unit {0})
set_port env name = do
  check_device_is_hub (is_hub env)
  found ← query (search_ip_addr_and_mask name)
  set_port_addr name found

-- `DeletePort`.
abbrev pub delete_port : Env → String → Action (Unit {0})
delete_port env name = do check_device_is_hub (is_hub env); call (perform (on_hub_delete_port name))

-- `Init`.
abbrev pub init : Env → String → List String → Action (Unit {0})
init env serial_number orchestrator_addrs = do
  check_device_is_hub (is_hub env)
  call (perform (on_first_setup serial_number orchestrator_addrs))

-- `availablePortPrefixes`, and the test with them.
abbrev pub available_port_prefixes : List String
available_port_prefixes = "lan" ∷ "wan" ∷ "port" ∷ "ens" ∷ "enp" ∷ "wwan" ∷ "lte" ∷ []

unfoldable pub is_available : LinuxInterface → Bool
is_available l = contains_by (has_prefix l.name) available_port_prefixes

-- The first configuration of a name.
unfoldable pub find_config : String → List PortConfig → Option PortConfig
find_config name [] = none
find_config name (c ∷ cs) =
    let rest = find_config name cs in if str_eq c.name name then some c else rest

abbrev pub attached : Option PortSection → String → Option PortConfig
attached none name = none
attached (some section) name = find_config name section.port_configs

abbrev pub hub_port : Option PortSection → LinuxInterface → HubPort
hub_port section l = record {
  name = l.name;
  oper_state = l.state;
  mtu = l.mtu;
  addresses = l.addr_info;
  config = attached section l.name;
}

-- The loop of `ListPorts`.
unfoldable pub hub_ports : Option PortSection → List LinuxInterface → List HubPort
unfolding is_available find_config
hub_ports section [] = []
hub_ports section (l ∷ ls) =
    let rest = hub_ports section ls in if is_available l then hub_port section l ∷ rest else rest

-- `ListPorts`.
abbrev pub list_ports : Env → Action (List HubPort)
list_ports env = do
  check_device_is_hub (is_hub env)
  cfg ← query config
  ports ← query all_ports
  ret (hub_ports cfg.port ports)
