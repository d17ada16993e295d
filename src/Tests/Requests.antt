-- ===== src/Tests/Requests.antt =====
-- Runs of the request handlers on concrete requests.
use sdwan_agent.Prelude.{
  ◌≡◌, refl, String, true, false, str_eq, if◌then◌else◌, none, some, List, [], ◌∷◌,
}
use sdwan_agent.Config.{WgPeer, WgConfig}
use sdwan_agent.Errors.{ok, err, external}
use sdwan_agent.Objects.Ports.{DevicePort, Net}
use sdwan_agent.Machine.{run}
use sdwan_agent.Machine.Views.{Holds}
use sdwan_agent.DeviceInit.{InitConfig, init_device}
use sdwan_agent.DeviceInit.Handler.{send_init_device_finished}
use sdwan_agent.DeviceInit.{check_websocket_connection}
use sdwan_agent.DeviceInit.Settles.{Marks, marks, Settled, idle, init_device-Settled}
use sdwan_agent.DeviceInit.Phases.{
  wait_first, initialize, resting, Refines, run_operations, run_operations-Refines,
}
use sdwan_agent.Requests.{Incoming}
use sdwan_agent.Requests.Bgp.{SortByNetwork}
use sdwan_agent.Requests.Modems.{Texts}
use sdwan_agent.Requests.Configs.{replace_in_configs, send_update_config_finished}
use sdwan_agent.Requests.Ports.{configs_of}
use sdwan_agent.Requests.Routes.{handler_of, exec_device_action_method}
use sdwan_agent.Requests.Replies.{nothing_sent as no_replies, replies, Answered}
use sdwan_agent.Requests.Answered.{handler_of-Answered}
use sdwan_agent.Requests.Attempts.{
  Sent, sent, Reported, Tried, AcceptedOr, polls, Polled, send_init_device_finished-Reported,
  send_update_config_finished-Tried, check_websocket_connection-Polled,
}
use sdwan_agent.Requests.Peers.{Updated, replace_in_configs-Updated}
use sdwan_agent.Requests.Chosen.{Listed, configs_of-Listed}
use sdwan_agent.Queue.{reply_to, hub_set_port_subject}
use sdwan_agent.Queue.Performed.{performed, Replied, Wanted}
use sdwan_agent.Queue.Replied.{reply_to-Replied}
use sdwan_agent.Tests.{plain, plain_laws, cpe, hub, serving, waiting, wan_port}

abbrev pub received : String → Incoming String
received name = record { decoded = ok name; invalid = λ _. none }

abbrev pub dotted : Net
dotted = record { is_ipv4 = λ _. true; netmask_to_string = λ _. "255.255.255.0" }

abbrev pub unsorted : SortByNetwork
unsorted advs = advs

abbrev pub ascii : Texts
ascii = record {
  trim_space = λ t. t;
  cut =
      λ t _. if str_eq t "GENERAL.MTU:1500" then ("GENERAL.MTU", "1500", true) else (t, "", false);
  split = λ t _. t ∷ [];
  atoi = λ t. if str_eq t "1500" then ok 1500 else err (external "atoi");
}

handler_of-Answered_example : Holds replies no_replies (Answered no_replies) (
    run plain
      (handler_of cpe dotted
        (λ _ _. ok true)
        unsorted
        ascii
        "cli"
        idle
        (exec_device_action_method (received "reboot")))
      serving)
handler_of-Answered_example =
    handler_of-Answered cpe dotted (λ _ _. ok true) unsorted ascii "cli" idle plain plain_laws
      (exec_device_action_method (received "reboot")) serving tt

abbrev first_init : InitConfig
first_init = record {
  of_controller_host = "10.0.0.1";
  wireguard = [];
  net_init = record {
    loopback_addresses = [];
    port_names = [];
    allowed_ports = "";
    ip_rules = "";
    port_configs = wan_port ∷ [];
    port_mtus = "";
    admin_state_ports = "";
  };
  pony = record { clusters = [] };
  services = record { trunk = ""; l3 = ""; isb = ""; bridge = ""; p2p = ""; fw = "" };
  apt_source = "http://apt";
  orchestrator_addrs = [];
}

abbrev unmarked : Marks
unmarked = record { paused = false; opened = false; woken = false }

init_device-Settled_example : Holds marks unmarked (Settled true) (
    run plain
      (init_device cpe first_init (record { first_init = true; initializing = false }))
      serving)
init_device-Settled_example =
    init_device-Settled cpe first_init plain plain_laws true false serving refl

abbrev nothing_sent : Sent
nothing_sent = record { requests = 0; reconnected = false }

send_init_device_finished-Reported_example :
    Holds sent nothing_sent
      (Reported false 0 5)
      (run plain (send_init_device_finished (some (external "down")) 4) serving)
send_init_device_finished-Reported_example =
    send_init_device_finished-Reported plain plain_laws (some (external "down")) nothing_sent
      serving

send_update_config_finished-Tried_example :
    Holds sent nothing_sent
      (Tried false 0 5)
      (run plain (send_update_config_finished (some (external "down")) 5) serving)
    × AcceptedOr plain
        (some (external "down"))
        nothing_sent
        (run plain (send_update_config_finished (some (external "down")) 5) serving)
send_update_config_finished-Tried_example =
    send_update_config_finished-Tried plain plain_laws (some (external "down")) nothing_sent serving

check_websocket_connection-Polled_example :
    Holds polls 0 (Polled 0 10) (run plain (check_websocket_connection 10) serving)
check_websocket_connection-Polled_example =
    check_websocket_connection-Polled plain plain_laws 0 serving

abbrev peer : String → String → WgPeer
peer key settings = record { public_key = key; settings = settings }

abbrev two_configs : List WgConfig
two_configs =
    record { peers = peer "a" "1" ∷ []; settings = "" }
    ∷ record { peers = peer "b" "2" ∷ peer "b" "3" ∷ []; settings = "" }
    ∷ []

replace_in_configs-Updated_example :
    Updated (peer "b" "4") two_configs (replace_in_configs (peer "b" "4") two_configs)
replace_in_configs-Updated_example = replace_in_configs-Updated (peer "b" "4") two_configs

-- The second configuration is found, and only its first peer is replaced.
replaced_second :
    replace_in_configs (peer "b" "4") two_configs
    ≡ some (
        record { peers = peer "a" "1" ∷ []; settings = "" }
        ∷ record { peers = peer "b" "4" ∷ peer "b" "3" ∷ []; settings = "" }
        ∷ [])
unfolding replace_in_configs
replaced_second = refl

abbrev lan_port : DevicePort
lan_port = record {
  name = "lan1";
  state = "UP";
  mac = "";
  mtu = 1500;
  ips = [];
  subnet_mask = "";
  gateway = "";
  dns = [];
}

configs_of-Listed_example :
    Listed (wan_port ∷ []) (lan_port ∷ []) (configs_of (wan_port ∷ []) (lan_port ∷ []))
configs_of-Listed_example = configs_of-Listed (wan_port ∷ []) (lan_port ∷ [])

reply_to-Replied_example :
    Holds performed []
      (Replied (Wanted hub (hub_set_port_subject (received "wan1"))) [])
      (run plain (reply_to hub (hub_set_port_subject (received "wan1"))) waiting)
reply_to-Replied_example =
    reply_to-Replied hub plain plain_laws (hub_set_port_subject (received "wan1")) [] waiting

run_operations-Refines_example :
    Refines plain cpe resting
      (run_operations plain cpe (wait_first ∷ initialize first_init ∷ []) idle serving)
run_operations-Refines_example =
    run_operations-Refines plain cpe plain_laws (wait_first ∷ initialize first_init ∷ []) resting
      serving
