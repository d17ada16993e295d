-- ===== src/Requests/Answered.antt =====
-- Each websocket request gets one reply: the handlers that `getWebsocketRoutes` of cmd/app/routes.go
-- lists, with their deferred functions.
use sdwan_agent.Prelude.{refl, String, some, [], ◌∷◌, map}
use sdwan_agent.Entities.{on_update_config}
use sdwan_agent.Objects.Ports.{Net, device_ports_to_dto, convert_ports_to_dto}
use sdwan_agent.Objects.Bodies.{
  empty_body, output, device_ports, port_configs, active_state, package_versions, lease_table,
  bgp_stats, lte_stats,
}
use sdwan_agent.Config.{no_config}
use sdwan_agent.Requests.{respond_and, respond}
use sdwan_agent.Requests.Commands.{
  build_list_flow_routes_command, build_list_flow_rules_command, exec_action, setup_ovs_manager,
  reset_modem,
}
use sdwan_agent.Requests.States.{all_tunnel_states, get_versions, download}
use sdwan_agent.Requests.Ports.{
  get_port_runtime_data, get_port_config_data, flush_port, renew_dhcp_lease,
}
use sdwan_agent.Action.{ask, lift, call, query, ◌>>=◌, ◌>>◌}
use sdwan_agent.Action.Calls.{
  config, perform, current_state, command_output, text, run_command, reset_peer, update_config_now,
  lease_lines,
}
use sdwan_agent.Handlers.Interface.{Env}
use sdwan_agent.DeviceInit.{InitState}
use sdwan_agent.DeviceInit.Handler.{check_and_respond}
use sdwan_agent.Machine.{Agent, Services, run}
use sdwan_agent.Machine.Laws.{TransactionLaws}
use sdwan_agent.Machine.Views.{Ensures, Holds, view, run-Ensures}
use sdwan_agent.Requests.Leases.{Contains, format_output}
use sdwan_agent.Requests.Configs.{found_peer, update_peers, update_all, config_of_services}
use sdwan_agent.Requests.Routes.{
  Request, handler_of, command_method, update_all_configs_method, update_wg_peer_method,
  fetch_ports_method, fetch_port_configs_method, fetch_tunnel_states_method,
  isb_update_config_method, trunk_update_config_method, init_device_method, list_flow_routes_method,
  list_fw_flow_rules_method, l3_update_config_method, service_update_config_method,
  port_flush_method, port_renew_dhcp_lease_method, exec_device_action_method, flush_macs_method,
  get_agent_state_method, get_packages_versions_method, reset_bgp_peer_method,
  setup_ovs_manager_method, download_device_packages_method, install_device_packages_method,
  lte_reset_modem_method, fetch_bgp_stats_method, lte_fetch_stats_method, fetch_dhcp_leases_method,
}
use sdwan_agent.Requests.Replies.{
  Sent, nothing_sent, replies, Answered, Silent-lift, Replies-after, respond_and-Replies,
  with_error_response-Answered,
}
use sdwan_agent.Requests.Endings.{valid_then, decoded_then, plain_respond, value_then}
use sdwan_agent.DeviceInit.Silent.{check_and_respond-Replies}
use sdwan_agent.Requests.Bgp.{SortByNetwork, collect_bgp_stats}
use sdwan_agent.Requests.Modems.{Texts, collect_stats}
use sdwan_agent.Requests.Collected.{collect_bgp_stats-Silent, collect_stats-Silent}
use sdwan_agent.Requests.Silences.{
  exec_action-Silent, setup_ovs_manager-Silent, reset_modem-Silent, update_all-Silent,
  download-Silent, get_versions-Silent, get_port_runtime_data-Silent, get_port_config_data-Silent,
  renew_dhcp_lease-Silent, format_output-Silent,
}

-- The requests that are not for an installation.
abbrev pub IsPlain : Request → Type 0
IsPlain (install_device_packages_method i) = ⊥
IsPlain _ = Unit

module _ (env : Env) (net : Net) (contains : Contains) (sort_by_network : SortByNetwork)
    (texts : Texts) (cli : String) (st : InitState) (n : Sent) where
  -- The view of each route.
  pub handler_of-Ensures :
      (r : Request)
      → IsPlain r
      → Ensures replies (handler_of env net contains sort_by_network texts cli st r) (Answered n) n
  handler_of-Ensures (command_method i) _ =
      decoded_then i n
        (λ r. do
          result ← query (command_output (text r.command ∷ map text r.args))
          respond (output result))
        (λ r. (λ x. plain_respond (output x) n, λ e. refl))
  handler_of-Ensures (update_all_configs_method i) _ =
      decoded_then i n (λ r. respond_and empty_body (update_all r))
        (λ r. respond_and-Replies empty_body (update_all r) n (update_all-Silent r))
  handler_of-Ensures (update_wg_peer_method i) _ =
      decoded_then i n
        (λ peer. do
          cfg ← query config
          configs ← lift (found_peer peer cfg.wireguard)
          update_peers configs)
        (λ peer. (
          λ cfg.
              Replies-after (lift (found_peer peer cfg.wireguard)) update_peers n
                (Silent-lift (found_peer peer cfg.wireguard))
                (λ configs. (plain_respond empty_body n, λ e. refl)),
          λ e. refl,
        ))
  handler_of-Ensures fetch_ports_method _ =
      value_then (get_port_runtime_data net) (λ ports. device_ports (device_ports_to_dto ports)) n
        (get_port_runtime_data-Silent net)
  handler_of-Ensures fetch_port_configs_method _ =
      value_then (get_port_config_data net) (λ configs. port_configs (convert_ports_to_dto configs))
        n (get_port_config_data-Silent net)
  handler_of-Ensures fetch_tunnel_states_method _ =
      with_error_response-Answered
        (do cfg ← query config; body ← lift (all_tunnel_states cfg.pony); respond body) n
        (
          λ cfg.
              Replies-after (lift (all_tunnel_states cfg.pony)) respond n
                (Silent-lift (all_tunnel_states cfg.pony)) (λ body. plain_respond body n),
          λ e. refl,
        )
  handler_of-Ensures (isb_update_config_method i) _ =
      decoded_then i n
        (λ isb. do
          call (update_config_now (record no_config { isb = some isb }))
          respond empty_body)
        (λ _. (plain_respond empty_body n, λ e. refl))
  handler_of-Ensures (trunk_update_config_method i) _ =
      decoded_then i n
        (λ trunk. do
          call (update_config_now (record no_config { trunk = some trunk }))
          respond empty_body)
        (λ _. (plain_respond empty_body n, λ e. refl))
  handler_of-Ensures (init_device_method i) _ =
      decoded_then i n (check_and_respond env st) (λ init. check_and_respond-Replies env st init n)
  handler_of-Ensures (list_flow_routes_method i) _ =
      valid_then i n
        (λ r. do
          result ← query (command_output (build_list_flow_routes_command cli r))
          respond (output result))
        (λ r. (λ x. plain_respond (output x) n, λ e. refl))
  handler_of-Ensures (list_fw_flow_rules_method i) _ =
      valid_then i n
        (λ r. do
          result ← query (command_output (build_list_flow_rules_command cli r))
          respond (output result))
        (λ r. (λ x. plain_respond (output x) n, λ e. refl))
  handler_of-Ensures (l3_update_config_method i) _ =
      valid_then i n
        (λ l3. do
          call (perform (on_update_config (record no_config { l3 = some l3 })))
          respond empty_body)
        (λ _. (plain_respond empty_body n, λ e. refl))
  handler_of-Ensures (service_update_config_method i) _ =
      valid_then i n
        (λ m. do call (perform (on_update_config (config_of_services m))); respond empty_body)
        (λ _. (plain_respond empty_body n, λ e. refl))
  handler_of-Ensures (port_flush_method i) _ =
      valid_then i n (λ name. do flush_port name; respond empty_body)
        (λ _. (plain_respond empty_body n, λ e. refl))
  handler_of-Ensures (port_renew_dhcp_lease_method i) _ =
      valid_then i n (λ name. do renew_dhcp_lease name; respond empty_body)
        (λ name.
          Replies-after (renew_dhcp_lease name) (λ _. respond empty_body) n
            (renew_dhcp_lease-Silent name) (λ _. plain_respond empty_body n))
  handler_of-Ensures (exec_device_action_method i) _ =
      valid_then i n (λ action. respond_and empty_body (exec_action action))
        (λ action.
          respond_and-Replies empty_body (exec_action action) n (exec_action-Silent action))
  handler_of-Ensures (flush_macs_method i) _ =
      valid_then i n
        (λ bridge. do
          call (run_command (text "ovs-appctl" ∷ text "fdb/flush" ∷ text bridge ∷ []))
          respond empty_body)
        (λ _. (plain_respond empty_body n, λ e. refl))
  handler_of-Ensures get_agent_state_method _ =
      with_error_response-Answered (ask current_state (λ state. respond (active_state state))) n
        (λ state. plain_respond (active_state state) n)
  handler_of-Ensures get_packages_versions_method _ =
      value_then get_versions package_versions n get_versions-Silent
  handler_of-Ensures (reset_bgp_peer_method i) _ =
      valid_then i n (λ r. do call (reset_peer r.remote_ip r.mode); respond empty_body)
        (λ _. (plain_respond empty_body n, λ e. refl))
  handler_of-Ensures (setup_ovs_manager_method i) _ =
      valid_then i n (λ address. do setup_ovs_manager address; respond empty_body)
        (λ address.
          Replies-after (setup_ovs_manager address) (λ _. respond empty_body) n
            (setup_ovs_manager-Silent address) (λ _. plain_respond empty_body n))
  handler_of-Ensures (download_device_packages_method i) _ =
      valid_then i n (λ r. do download r; respond empty_body)
        (λ r.
          Replies-after (download r) (λ _. respond empty_body) n (download-Silent r)
            (λ _. plain_respond empty_body n))
  handler_of-Ensures (install_device_packages_method i) h = absurd h
  handler_of-Ensures (lte_reset_modem_method i) _ =
      valid_then i n (λ path. do reset_modem path; respond empty_body)
        (λ path.
          Replies-after (reset_modem path) (λ _. respond empty_body) n (reset_modem-Silent path)
            (λ _. plain_respond empty_body n))
  handler_of-Ensures (fetch_bgp_stats_method i) _ =
      valid_then i n
        (λ neighbor. do info ← collect_bgp_stats sort_by_network neighbor; respond (bgp_stats info))
        (λ neighbor.
          Replies-after (collect_bgp_stats sort_by_network neighbor)
            (λ info. respond (bgp_stats info)) n (collect_bgp_stats-Silent sort_by_network neighbor)
            (λ info. plain_respond (bgp_stats info) n))
  handler_of-Ensures lte_fetch_stats_method _ =
      value_then (collect_stats texts) lte_stats n (collect_stats-Silent texts)
  handler_of-Ensures (fetch_dhcp_leases_method i) _ =
      valid_then i n
        (λ r. do
          lines ← query (lease_lines r.vrf_name)
          rows ← format_output contains r.filter_link_ip lines
          respond (lease_table (map (λ row. row.values) rows)))
        (λ r. (
          λ lines.
              Replies-after (format_output contains r.filter_link_ip lines)
                (λ rows. respond (lease_table (map (λ row. row.values) rows))) n
                (format_output-Silent contains r.filter_link_ip lines)
                (λ rows. plain_respond (lease_table (map (λ row. row.values) rows)) n),
          λ e. refl,
        ))

module _ (env : Env) (net : Net) (contains : Contains) (sort_by_network : SortByNetwork)
    (texts : Texts) (cli : String) (st : InitState) (s : Services) (laws : TransactionLaws s) where
  -- If the transactions follow their laws, a request on any route but that for an
  -- installation gets exactly one reply from a handler that succeeds, a response and no error response, and
  -- the goroutine that the handler starts sends none. A handler that fails has sent one reply, an error
  -- response, or none, and then it panicked or its error joins that of sending the error response.
  pub handler_of-Answered :
      (r : Request) (g : Agent)
      → IsPlain r
      → Holds replies nothing_sent
          (Answered (view replies nothing_sent g.trace))
          (run s (handler_of env net contains sort_by_network texts cli st r) g)
  handler_of-Answered r g h =
      run-Ensures replies nothing_sent s laws
        (handler_of env net contains sort_by_network texts cli st r)
        (Answered (view replies nothing_sent g.trace)) g
        (handler_of-Ensures env net contains sort_by_network texts cli st
          (view replies nothing_sent g.trace) r h)
