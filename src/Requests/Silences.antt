-- ===== src/Requests/Silences.antt =====
-- The parts of the handlers that send no reply: the services' operations, and the goroutines.
use sdwan_agent.Prelude.{
  String, ℕ, zero, suc, true, false, ◌||◌, Option, none, some, List, [], ◌∷◌, str_eq, is_empty,
  refl, if◌then◌else◌,
}
use sdwan_agent.Entities.{PackageItem}
use sdwan_agent.Objects.Ports.{DevicePort, Net, new_device_ports}
use sdwan_agent.Errors.{Error, ok, err}
use sdwan_agent.Action.{ret, ask, done, call_logged, lift, or_return, query, catch, ◌>>=◌, ◌>>◌}
use sdwan_agent.Action.Calls.{
  config, search_gateway_in_tables, search_dns, perform, text, command_output,
}
use sdwan_agent.Entities.{on_reset}
use sdwan_agent.Requests.Commands.{exec_action, setup_ovs_manager, reset_modem}
use sdwan_agent.Requests.Leases.{Contains, format_leases, format_output}
use sdwan_agent.Requests.Configs.{AllConfigs, send_update_config_finished, update_all}
use sdwan_agent.Requests.States.{download, get_versions}
use sdwan_agent.Requests.Ports.{
  fill_port, fill_gateways_and_dns, configs_in, configs_of, get_port_runtime_data,
  get_port_config_data, renew_dhcp_lease,
}
use sdwan_agent.Requests.Replies.{Silent, Silent-bind, Silent-lift, Silent-or_return, Silent-if}

pub exec_action-Silent : (action : String) → Silent (exec_action action)
exec_action-Silent action =
    Silent-if (str_eq action "reset") (call_logged (perform on_reset)) _ (λ n. (refl, λ e. refl))
      (Silent-if (str_eq action "reboot" || str_eq action "poweroff")
        (catch (query (command_output (text action ∷ []))) (λ _. done)) done
        (λ n. (λ x. refl, λ e. refl)) (λ n. refl))

pub setup_ovs_manager-Silent : (address : List String) → Silent (setup_ovs_manager address)
setup_ovs_manager-Silent [] n = refl
setup_ovs_manager-Silent (_ ∷ []) n = refl
setup_ovs_manager-Silent (_ ∷ port ∷ _) n = (refl, λ e. refl)

pub reset_modem-Silent : (path : String) → Silent (reset_modem path)
reset_modem-Silent path n = (λ v. (λ p. (refl, λ e. refl), λ e. refl), λ e. refl)

pub send_update_config_finished-Silent :
    (o : Option Error) (attempts : ℕ) → Silent (send_update_config_finished o attempts)
send_update_config_finished-Silent o zero n = refl
send_update_config_finished-Silent o (suc attempts) n = (
  elim [ none ↦ refl | some (_, e) ↦ send_update_config_finished-Silent o attempts n ],
  λ e. send_update_config_finished-Silent o attempts n,
)

pub update_all-Silent : (r : AllConfigs) → Silent (update_all r)
update_all-Silent r n = (
  send_update_config_finished-Silent none 5 n,
  λ e. send_update_config_finished-Silent (some e) 5 n,
)

pub download-Silent : (request : List PackageItem) → Silent (download request)
download-Silent request n = (elim [ ok none ↦ refl | ok (some e) ↦ refl | err e ↦ refl ], λ e. refl)

pub get_versions-Silent : Silent get_versions
get_versions-Silent n =
    (elim [ ok (none, vs) ↦ refl | ok (some e, vs) ↦ refl | err e ↦ refl ], λ e. refl)

fill_port-Silent : (p : DevicePort) → Silent (fill_port p)
fill_port-Silent p =
    elim (is_empty p.ips)
      as (λ b. Silent (
        if b
        then ret p
        else ask (search_gateway_in_tables p.name)
            (λ g. ask (search_dns p.name) (λ d. ret (record p { gateway = g.0; dns = d.0 }))))) [
              | true ↦ λ n. refl
              | false ↦ λ n g d. refl
            ]

pub fill_gateways_and_dns-Silent : (ps : List DevicePort) → Silent (fill_gateways_and_dns ps)
fill_gateways_and_dns-Silent [] n = refl
fill_gateways_and_dns-Silent (p ∷ ps) n =
    Silent-bind (fill_port p) (λ filled. do rest ← fill_gateways_and_dns ps; ret (filled ∷ rest))
      (fill_port-Silent p)
      (λ filled.
        Silent-bind (fill_gateways_and_dns ps) (λ rest. ret (filled ∷ rest))
          (fill_gateways_and_dns-Silent ps) (λ rest n'. refl))
      n

module _ (net : Net) where
  pub get_port_runtime_data-Silent : Silent (get_port_runtime_data net)
  get_port_runtime_data-Silent n =
      (λ is. fill_gateways_and_dns-Silent (new_device_ports net is) n, λ e. refl)

  pub get_port_config_data-Silent : Silent (get_port_config_data net)
  get_port_config_data-Silent =
      Silent-bind (get_port_runtime_data net)
        (λ ports. do cfg ← query config; lift (configs_of (configs_in cfg) ports))
        get_port_runtime_data-Silent
        (λ ports n. (λ cfg. Silent-lift (configs_of (configs_in cfg) ports) n, λ e. refl))

pub renew_dhcp_lease-Silent : (name : String) → Silent (renew_dhcp_lease name)
renew_dhcp_lease-Silent name n = (((refl, λ e. refl), λ e. (refl, λ e'. refl)), λ e. refl)

pub format_output-Silent :
    (contains : Contains) (filter : Option String) (lines : List (List String) × Option Error)
    → Silent (format_output contains filter lines)
format_output-Silent contains filter (lines, e) =
    Silent-bind (lift (format_leases contains filter 1 lines)) (λ rows. do or_return e; ret rows)
      (Silent-lift (format_leases contains filter 1 lines))
      (λ rows. Silent-bind (or_return e) (λ _. ret rows) (Silent-or_return e) (λ _ n. refl))
