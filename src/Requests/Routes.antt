-- ===== src/Requests/Routes.antt =====
-- The websocket routes of cmd/app/routes.go and the loop of internal/domains/websocket/service.go
-- that serves them.
use sdwan_agent.Prelude.{
  String, Bool, true, false, Option, none, some, List, [], ◌∷◌, if◌then◌else◌,
}
use sdwan_agent.Config.{Section, WgPeer}
use sdwan_agent.Entities.{PackageItem, InstallPackageRequest}
use sdwan_agent.Objects.Ports.{Net}
use sdwan_agent.Action.{Action, ret, ask, tell, call_logged, ◌>>=◌, ◌>>◌}
use sdwan_agent.Action.Calls.{
  subscribe_state, subscribe_errors, publish_not_allowed, publisher_active, dump_stats,
  ping_websocket,
}
use sdwan_agent.Handlers.Interface.{Env}
use sdwan_agent.DeviceInit.{InitConfig, InitState}
use sdwan_agent.DeviceInit.Handler.{handle_init_device}
use sdwan_agent.Requests.{Incoming, Job}
use sdwan_agent.Requests.Leases.{Contains, LeaseRequest, fetch_dhcp_leases}
use sdwan_agent.Requests.Commands.{
  CommandRequest, FlowRequest, ResetPeerRequest, exec_command, flush_macs, get_fw_flow_rules,
  get_flow_routes, reset_bgp_peer, handle_setup_ovs_manager, handle_reset_modem, exec_device_action,
}
use sdwan_agent.Requests.Configs.{
  AllConfigs, ServiceConfigs, update_wg_peer, update_all_configs, update_isb_config,
  update_trunk_config, update_l3_config, update_service_config,
}
use sdwan_agent.Requests.States.{
  download_device_packages, install_device_packages, get_packages_versions, get_active_state,
  fetch_tunnel_states,
}
use sdwan_agent.Requests.Bgp.{SortByNetwork, fetch_bgp_stats}
use sdwan_agent.Requests.Modems.{Texts, fetch_stats}
use sdwan_agent.Requests.Ports.{
  fetch_ports, fetch_port_configs, handle_flush_port, handle_renew_dhcp_lease,
}

-- A request by its method, with its body where the handler reads it.
pub data Request : Type 0 where
  command_method : Incoming CommandRequest → Request
  update_all_configs_method : Incoming AllConfigs → Request
  update_wg_peer_method : Incoming WgPeer → Request
  fetch_ports_method fetch_port_configs_method fetch_tunnel_states_method : Request
  isb_update_config_method trunk_update_config_method : Incoming Section → Request
  init_device_method : Incoming InitConfig → Request
  list_flow_routes_method list_fw_flow_rules_method : Incoming FlowRequest → Request
  l3_update_config_method : Incoming Section → Request
  service_update_config_method : Incoming ServiceConfigs → Request
  port_flush_method port_renew_dhcp_lease_method : Incoming String → Request
  exec_device_action_method flush_macs_method : Incoming String → Request
  get_agent_state_method get_packages_versions_method : Request
  reset_bgp_peer_method : Incoming ResetPeerRequest → Request
  setup_ovs_manager_method : Incoming (List String) → Request
  download_device_packages_method : Incoming (List PackageItem) → Request
  install_device_packages_method : Incoming InstallPackageRequest → Request
  lte_reset_modem_method : Incoming String → Request
  fetch_bgp_stats_method : Incoming String → Request
  lte_fetch_stats_method : Request
  fetch_dhcp_leases_method : Incoming LeaseRequest → Request

module _ (env : Env) (net : Net) (contains : Contains) (sort_by_network : SortByNetwork)
    (texts : Texts) (cli : String) (st : InitState) where
  -- `getWebsocketRoutes`.
  abbrev pub handler_of : Request → Action Job
  handler_of (command_method i) = exec_command i
  handler_of (update_all_configs_method i) = update_all_configs i
  handler_of (update_wg_peer_method i) = update_wg_peer i
  handler_of fetch_ports_method = fetch_ports net
  handler_of fetch_port_configs_method = fetch_port_configs net
  handler_of fetch_tunnel_states_method = fetch_tunnel_states
  handler_of (isb_update_config_method i) = update_isb_config i
  handler_of (trunk_update_config_method i) = update_trunk_config i
  handler_of (init_device_method i) = handle_init_device env st i
  handler_of (list_flow_routes_method i) = get_flow_routes cli i
  handler_of (list_fw_flow_rules_method i) = get_fw_flow_rules cli i
  handler_of (l3_update_config_method i) = update_l3_config i
  handler_of (service_update_config_method i) = update_service_config i
  handler_of (port_flush_method i) = handle_flush_port i
  handler_of (port_renew_dhcp_lease_method i) = handle_renew_dhcp_lease i
  handler_of (exec_device_action_method i) = exec_device_action i
  handler_of (flush_macs_method i) = flush_macs i
  handler_of get_agent_state_method = get_active_state
  handler_of get_packages_versions_method = get_packages_versions
  handler_of (reset_bgp_peer_method i) = reset_bgp_peer i
  handler_of (setup_ovs_manager_method i) = handle_setup_ovs_manager i
  handler_of (download_device_packages_method i) = download_device_packages i
  handler_of (install_device_packages_method i) = install_device_packages i
  handler_of (lte_reset_modem_method i) = handle_reset_modem i
  handler_of (fetch_bgp_stats_method i) = fetch_bgp_stats sort_by_network i
  handler_of lte_fetch_stats_method = fetch_stats texts
  handler_of (fetch_dhcp_leases_method i) = fetch_dhcp_leases contains i

-- What the loop of `run` receives: a request with the handler of its method, if there is one, a
-- change of the connection's state, to closed or not, an unhandled error, or a tick.
pub data Received : Type 0 where
  got_request : Option (Action Job) → Received
  state_changed : Bool → Received
  unhandled_error tick : Received

-- One round of the loop, with the goroutine that it starts. A handler's error is only logged.
abbrev pub run_round : Received → Action (Option (Action Job))
run_round (got_request none) = do call_logged publish_not_allowed; ret none
run_round (got_request (some handler)) = ret (some handler)
run_round (state_changed true) = tell (dump_stats "websocket connection closed") (ret none)
run_round (state_changed false) = ret none
run_round unhandled_error = ret none
run_round tick =
    ask publisher_active
      (λ active. if active then (do call_logged ping_websocket; ret none) else ret none)

abbrev pub add_job : Option (Action Job) → List (Action Job) → List (Action Job)
add_job none jobs = jobs
add_job (some job) jobs = job ∷ jobs

-- The loop, over what it receives in turn, with the goroutines that it starts. It has no end: at the
-- end of a list it waits.
abbrev pub run_rounds : List Received → Action (List (Action Job))
run_rounds [] = ret []
run_rounds (event ∷ events) = do
  job ← run_round event
  jobs ← run_rounds events
  ret (add_job job jobs)

-- `run`, with its subscriptions.
abbrev pub run_loop : List Received → Action (List (Action Job))
run_loop events = tell subscribe_state (tell subscribe_errors (run_rounds events))
