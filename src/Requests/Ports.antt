-- ===== src/Requests/Ports.antt =====
-- internal/domains/port: what the device's ports are, and the requests to change them.
use sdwan_agent.Prelude.{
  String, Bool, true, false, ◌&&◌, Option, none, some, List, [], ◌∷◌, map, is_empty, str_eq,
  contains_by, if◌then◌else◌,
}
use sdwan_agent.Config.{Config, PortConfig}
use sdwan_agent.Errors.{Result, ok, err, nil_dereference}
use sdwan_agent.Objects.Ports.{
  DevicePort, Net, new_device_ports, device_ports_to_dto, convert_ports_to_dto,
}
use sdwan_agent.Objects.Bodies.{empty_body, device_ports, port_configs}
use sdwan_agent.Action.{Action, ret, ask, tell, call, call_logged, query, lift, catch, ◌>>=◌, ◌>>◌}
use sdwan_agent.Action.Calls.{
  config, linux_interfaces, search_gateway_in_tables, search_dns, run_command, remove_lease, text,
  pony_pause, pony_resume,
}
use sdwan_agent.Requests.{Incoming, Job, unmarshal_valid, respond, with_error_response}

-- The loop of `fillGatewaysAndDNS`: ports with an address get what the searches in the tables 100 to
-- 103 and for DNS servers return, and an error is only logged.
abbrev pub fill_port : DevicePort → Action DevicePort
fill_port port =
    if is_empty port.ips
    then ret port
    else ask (search_gateway_in_tables port.name)
        (λ g. ask (search_dns port.name) (λ d. ret (record port { gateway = g.0; dns = d.0 })))

abbrev pub fill_gateways_and_dns : List DevicePort → Action (List DevicePort)
fill_gateways_and_dns [] = ret []
fill_gateways_and_dns (p ∷ ps) = do
  filled ← fill_port p
  rest ← fill_gateways_and_dns ps
  ret (filled ∷ rest)

-- `configuredPorts` as a look-up: a later configuration of a name replaces an earlier one.
abbrev pub or_else : {A : Type 0} → Option A → Option A → Option A
or_else (some a) o = some a
or_else none o = o

unfoldable pub configured_port : List PortConfig → String → Option PortConfig
configured_port [] name = none
configured_port (c ∷ cs) name =
    or_else (configured_port cs name) (if str_eq c.name name then some c else none)

-- `tagExistMap`. Each tagged port has the name of its parent.
abbrev pub is_parent : String → PortConfig → Bool
is_parent name c = c.is_tag && elim c.tag_parent [ none ↦ false | some parent ↦ str_eq parent name ]

unfoldable pub tag_exists : List PortConfig → String → Bool
tag_exists cs name = contains_by (is_parent name) cs

-- The second loop, for one port.
unfoldable pub config_of : List PortConfig → DevicePort → PortConfig
unfolding configured_port tag_exists
config_of cs port = elim (configured_port cs port.name) [
  | some c ↦ c
  | none ↦ record {
    name = port.name;
    port_type = if tag_exists cs port.name then "wan" else "lan";
    is_tag = false;
    tag_parent = none;
    table_ids = [];
    wan = none;
    lte = none;
  }
]

-- The loop over the configured ports fills the map; it follows the tag of a tagged port unchecked.
abbrev pub is_untagged : PortConfig → Bool
is_untagged c = c.is_tag && elim c.tag_parent [ none ↦ true | some _ ↦ false ]

unfoldable pub configs_of : List PortConfig → List DevicePort → Result (List PortConfig)
unfolding config_of
configs_of cs ports =
    if contains_by is_untagged cs then err nil_dereference else ok (map (config_of cs) ports)

abbrev pub configs_in : Config → List PortConfig
configs_in cfg = elim cfg.port [ none ↦ [] | some section ↦ section.port_configs ]

-- `FlushPort` and `RenewDHCPLease` of the service; `Resume` is deferred.
abbrev pub flush_port : String → Action (Unit {0})
flush_port name = call (run_command (text "ip" ∷ text "addr" ∷ text "flush" ∷ text name ∷ []))

abbrev pub renew : String → Action (Unit {0})
renew name = do
  call (run_command (text "dhclient" ∷ text "-r" ∷ text "-v" ∷ text name ∷ []))
  call_logged (remove_lease name)
  call (run_command (text "dhclient" ∷ text "-v" ∷ text name ∷ []))

abbrev pub renew_dhcp_lease : String → Action (Unit {0})
renew_dhcp_lease name = tell pony_pause (catch (renew name) (λ r. tell pony_resume (lift r)))

module _ (net : Net) where
  -- `GetPortRuntimeData` and `GetPortConfigData`.
  abbrev pub get_port_runtime_data : Action (List DevicePort)
  get_port_runtime_data = do
    interfaces ← query linux_interfaces
    fill_gateways_and_dns (new_device_ports net interfaces)

  abbrev pub get_port_config_data : Action (List PortConfig)
  get_port_config_data = do
    ports ← get_port_runtime_data
    cfg ← query config
    lift (configs_of (configs_in cfg) ports)

  -- `FetchPorts` and `FetchPortConfigs`.
  abbrev pub fetch_ports : Action Job
  fetch_ports =
      with_error_response
        (do ports ← get_port_runtime_data; respond (device_ports (device_ports_to_dto ports)))

  abbrev pub fetch_port_configs : Action Job
  fetch_port_configs =
      with_error_response
        (do configs ← get_port_config_data; respond (port_configs (convert_ports_to_dto configs)))

-- `FlushPort` and `RenewDHCPLease` of the handler; the request is the port's name.
abbrev pub handle_flush_port : Incoming String → Action Job
handle_flush_port i =
    with_error_response (do name ← unmarshal_valid i; flush_port name; respond empty_body)

abbrev pub handle_renew_dhcp_lease : Incoming String → Action Job
handle_renew_dhcp_lease i =
    with_error_response (do name ← unmarshal_valid i; renew_dhcp_lease name; respond empty_body)
