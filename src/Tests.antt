-- ===== src/Tests.antt =====
-- Concrete services and agents, on which the modules below run the model.
pub mod Service
pub mod Handlers
pub mod Discovery
pub mod Texts
pub mod System
pub mod Packages
pub mod Hosts
pub mod Requests
pub mod Wiring
pub mod Statistics
use sdwan_agent.Prelude.{◌≡◌, refl, String, ℕ, Bool, true, false, Option, none, some, List, [], ◌∷◌}
use sdwan_agent.Config.{Config, AppSection, PortConfig, PortSection, no_config, empty_port_section}
use sdwan_agent.Errors.{Error, Result, ok, err}
use sdwan_agent.Objects.Bgp.{NeighborOutput}
use sdwan_agent.Entities.{AppState, boot, init, active}
use sdwan_agent.Action.Calls.{
  Call, Query, Answer, Subject, Effect, activate, activate_handler, deactivate_handler,
  websocket_start, websocket_stop, config, publisher_closed, port_section, add_check_point,
  stat_env, read_env, install_request, subscribe, install_finished, publish_install_finished,
  any_tunnel_up, append_command, current_state, is_initializing, publisher_active, command_output,
  publish_request, linux_interfaces, search_gateway_in_tables, search_dns, search_ip_addr_and_mask,
  search_gateway, all_ports, download_request, versions_request, modem_vendor, modem_product,
  finish_transaction, discovery_hosts, fetch_primary_of, dial, lease_lines, config_dir_exists,
  stat_config, read_config, render_config, lookup_ip, stat_hosts, read_hosts, neighbor_output,
  neighbor_adv, neighbor_text, unix_time, modem_list, modem_info, interface_lines, dump_lines,
  dump_interfaces, hostname_output, first_port_file, log_file_exists, heap_profile, message,
}
use sdwan_agent.Handlers.Interface.{Env}
use sdwan_agent.Handlers.Init.{init_subjects}
use sdwan_agent.Handlers.Active.{active_subjects}
use sdwan_agent.Machine.{Agent, Services, Func, Event, effect, enter, restore, did, finished, run}
use sdwan_agent.Machine.Laws.{TransactionLaws, run_func, keep_rollback, roll_back}

abbrev pub wan_port : PortConfig
wan_port = record {
  name = "wan1";
  port_type = "wan";
  is_tag = false;
  tag_parent = none;
  table_ids = 100 ∷ [];
  wan = some (record {
    mode = "static";
    ip_addr = "10.0.0.2";
    subnet_mask = "255.255.255.0";
    gateway = "10.0.0.1";
    dns = "";
    stealth_icmp_mode = none;
  });
  lte = none;
}

-- The configuration of a device with a port and no setup yet.
abbrev pub first_config : Config
first_config = record no_config {
  app_state = some "";
  app = some (record {
    serial_number = "";
    orchestrator_addrs = [];
    orchestrator_tunnel_addr = "";
    active_orchestrator_addr = "";
  });
  port = some (record { port_configs = wan_port ∷ []; port_mtus = "" });
}

abbrev a_neighbor : NeighborOutput
a_neighbor = record {
  conf = record { local_asn = 1; remote_address = ""; remote_as = 2 };
  session_state = 6;
  timers_config = record { holdtime = 90; keepalive = 30 };
  timers_state = record { downtime = none; uptime = some 5; holdtime = 90; keepalive = 30 };
  local_address = "";
}

abbrev pub answer : (q : Query) → Answer q
answer config = first_config
answer publisher_closed = true
answer port_section = "ports"
answer add_check_point = "checkpoint"
answer stat_env = 420
answer read_env = []
answer (install_request _) = ok none
answer subscribe = tt
answer install_finished = message none (ok "")
answer (publish_install_finished _) = none
answer (any_tunnel_up _) = true
answer (append_command command) = command ∷ []
answer current_state = active
answer is_initializing = false
answer publisher_active = true
answer (command_output _) = ""
answer (publish_request _ _) = none
answer linux_interfaces = []
answer (search_gateway_in_tables _) = ("", none)
answer (search_dns _) = ("10.0.0.1" ∷ [], none)
answer (search_ip_addr_and_mask _) = ("10.0.0.2", "255.255.255.0")
answer (search_gateway _) = "10.0.0.1"
answer all_ports = []
answer (download_request _) = ok none
answer versions_request = ok (none, [])
answer (modem_vendor _) = "1"
answer (modem_product _) = "2"
answer discovery_hosts = "http://host" ∷ []
answer (fetch_primary_of _) = ("http://host", none)
answer (dial _ _ _) = tt
answer (lease_lines _) = ([], none)
answer config_dir_exists = true
answer stat_config = none
answer read_config = ""
answer (render_config _ _) = "config"
answer (lookup_ip _) = "10.0.0.9" ∷ []
answer stat_hosts = 420
answer read_hosts = ([], none)
answer (neighbor_output _) = ok a_neighbor
answer (neighbor_adv _ _) = ok ([])
answer (neighbor_text _) = ""
answer unix_time = 1000
answer modem_list = ok []
answer (modem_info _ before) = ok before
answer (interface_lines _) = ([], none)
answer (dump_lines _) = ("default via 10.0.0.1" ∷ [], none)
answer (dump_interfaces _) = ok []
answer hostname_output = "device"
answer first_port_file = ""
answer (log_file_exists _) = true
answer heap_profile = ""
answer (finish_transaction e) = e

-- All calls succeed.
abbrev without_transactions : Services
without_transactions = record {
  attempt = λ _ _. none;
  fetch = λ _ q. ok (answer q);
  ask = λ _ q. answer q;
  first_init = λ _. finished none;
  execute_func = λ _ _ g. (none, g);
  start_transaction = λ _. none;
  finish_transaction = λ r g. (r, g);
}

abbrev finish_with : Services → Option Error → Agent → Option Error × Agent
finish_with s none g = (none, record g { rollbacks = [] })
finish_with s (some e) g = (some e, record (roll_back s g.rollbacks g) { rollbacks = [] })

unfoldable pub plain : Services
unfolding run_func roll_back run
plain = record without_transactions {
  execute_func = λ fn rl g. keep_rollback rl (run_func without_transactions fn g);
  finish_transaction = finish_with without_transactions;
}

run_func-plain : (f : Func) (g : Agent) → run_func without_transactions f g ≡ run_func plain f g
unfolding plain run_func run
run_func-plain (effect (activate_handler s)) g = refl
run_func-plain (effect (deactivate_handler s)) g = refl
run_func-plain (effect websocket_start) g = refl
run_func-plain (effect websocket_stop) g = refl
run_func-plain (enter a) g = refl
run_func-plain (restore a) g = refl

roll_back-plain :
    (fs : List Func) (g : Agent) → roll_back without_transactions fs g ≡ roll_back plain fs g
unfolding roll_back
roll_back-plain [] g = refl
roll_back-plain (f ∷ fs) g = rw (run_func-plain f g) (roll_back-plain fs (run_func plain f g).1)

pub plain_laws : TransactionLaws plain
unfolding plain
plain_laws = record {
  execute_lem = λ fn rl g. rw (run_func-plain fn g) refl;
  commit_lem = λ g. refl;
  commit_trace = λ g. refl;
  abort_lem = λ e g. rw (roll_back-plain g.rollbacks g) refl;
  abort_error = λ e g. refl;
}

abbrev environment : String → Env
environment device_type = record {
  device_type = device_type;
  device_id = "";
  end_point = "";
  cli_ext = "cli";
  empty_config = no_config;
  port_compare = λ _ _. true;
  admin_state_compare = λ _ _. true;
  app_compare = λ _ _. true;
  ip_mask_to_int = λ _. ok 24;
}

abbrev pub cpe : Env
cpe = environment "cpe"

abbrev pub hub : Env
hub = environment "hub"

abbrev switches : List Subject → List Event
switches [] = []
switches (x ∷ xs) = did (activate x) true ∷ switches xs

abbrev agent_in : AppState → List Subject → Agent
agent_in state subjects = record {
  active_state = state;
  rollbacks = [];
  trace = switches subjects;
  first_init_waiting = false;
}

abbrev pub booting : Agent
booting = agent_in boot []

abbrev pub waiting : Agent
waiting = agent_in init init_subjects

abbrev pub serving : Agent
serving = agent_in active active_subjects
