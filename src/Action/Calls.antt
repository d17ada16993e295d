-- ===== src/Action/Calls.antt =====
-- The calls that the state handlers make through their interfaces (the interfaces of
-- internal/domains/appstate/handlers/init.go), and the functions that they hand to a transaction.
use sdwan_agent.Prelude.{String, Bool, Option, List, ℕ}
use sdwan_agent.Objects.Ports.{LinuxInterface}
use sdwan_agent.Objects.Bodies.{Body, PackageVersion}
use sdwan_agent.Objects.Bgp.{Int64, NeighborOutput, NeighborAdvOutput}
use sdwan_agent.Objects.Dump.{DumpCommand, DumpInterface}
use sdwan_agent.Objects.Lte.{ModemInfo}
use sdwan_agent.Config.{Config, Section}
use sdwan_agent.Entities.{AppState, Transition, PackageItem, InstallPackageRequest}
use sdwan_agent.Errors.{Error, Result}

-- The message queue subjects that the states switch on and off (internal/constants/mq.go).
pub data Subject : Type 0 where
  ztp_first_setup ztp_set_port ztp_del_port : Subject
  hub_set_port hub_del_port hub_init : Subject
  agent_reset rebuild_services : Subject

-- internal/constants/service.go.
pub data Daemon : Type 0 where
  agent_starter update_manager isc_dhcp : Daemon

-- The shell commands that the handlers build.
pub data Command : Type 0 where
  enable disable start stop : Daemon → Command
  reboot : Command

-- A piece of a text that is built by `fmt.Sprintf`.
pub data Piece : Type 0 where
  text : String → Piece
  number : ℕ → Piece

-- The subjects that the start switches on and no state switches off.
pub data AlwaysSubject : Type 0 where
  agent_get_config agent_hub_list_ports agent_debug_dump_heap : AlwaysSubject

-- The services that the start runs, each in a goroutine.
pub data Background : Type 0 where
  websocket_loop command_buffer pony pony_events app_state discovery_monitoring : Background

pub data Call : Type 0 where
  -- `UpdateConfigWithTx`, and with `NewSkipGeneratorsOption(true)`
  update_config : Config → Call
  update_config_skip_generators : Config → Call
  -- `UpdateHostnameWithTx`, `SetupStaticWithTx`, `ClearStatic`
  update_hostname : String → Call
  setup_static clear_static : Call
  -- `ActivateHandler`, `DeactivateHandler`
  activate deactivate : Subject → Call
  -- the publisher's `Start`, `Stop` and `Reconnect`
  publisher_start publisher_stop publisher_reconnect : Call
  -- `TryStartServiceWithTx`, `TryStopServiceWithTx`, and `TryStopService`
  try_start_service try_stop_service : Daemon → Call
  try_stop_service_now : Daemon → Call
  -- `Exec`, `ExecuteActivity` of a command with its undo, and of a saved section
  exec : Command → Call
  exec_activity : Command → Command → Call
  save_section : List (List Piece) → Section → Call
  -- `DeleteCheckPoint`
  delete_check_point : String → Call
  -- the database's `Close`, `os.RemoveAll` of the configuration folder, `os.WriteFile`
  close_db remove_config : Call
  write_env : List ℕ → ℕ → Call
  -- the installation script with the new and the current version
  install_script : String → String → Call
  -- the pony service's `Pause` and `Resume`, `SyncHosts`
  pony_pause pony_resume sync_hosts : Call
  -- `Unsubscribe`
  unsubscribe : Call
  -- the publisher's `PublishResponse`, and `PublishErrorResponse` with the status 500 or 405
  publish_response : Body → Call
  publish_error_response : Error → Call
  publish_not_allowed : Call
  -- the state service's `Perform`
  perform : Transition → Call
  -- `UpdateConfig` outside a transaction
  update_config_now : Config → Call
  -- a command of which only the error matters
  run_command : List Piece → Call
  -- `os.Remove` of the lease file of a port
  remove_lease : String → Call
  -- the BGP service's `ResetPeer`
  reset_peer : String → String → Call
  -- `ConfigureAgent` of the grafana service
  configure_agent : String → Call
  -- `initStarted.Emit` and `initFinished.Emit`
  emit_started : Call
  emit_finished : Option Error → Call
  -- a send on `waitFirstInitChan`, which has no buffer: an error if it is never received
  signal_first_init : Option Error → Call
  -- the activity service's `StartTransaction`
  start_transaction : Call
  -- `DumpStats` and `PublishControl` with a ping
  dump_stats : String → Call
  ping_websocket : Call
  -- `os.WriteFile` of the hosts file, as the words of its lines, with its permission bits
  write_hosts : List (List String) → ℕ → Call
  -- `os.MkdirAll` of the grafana folder, and `os.WriteFile` of the configuration there
  make_config_dir : Call
  write_config : String → ℕ → Call
  -- the steps of the start: `SetRoutes`, `RegisterHandlers`, `Connect`,
  -- `TryRollbackDanglingTransactions`, `ReloadCache`, `ActivateHandler`, `BuildAppStateService`, a
  -- service's goroutine; and `Close` of the message queue
  set_routes register_handlers connect_broker rollback_dangling reload_cache : Call
  activate_always : AlwaysSubject → Call
  build_app_state : Call
  go_run : Background → Call
  close_broker : Call
  -- `badger.Open`, `SetLogLevel`, `os.MkdirAll` and `os.OpenFile` of the log file, with the
  -- permission bits, and the wait for a signal
  open_db : Call
  set_log_level : String → Call
  make_log_dir create_log_file : String → ℕ → Call
  wait_for_signal : Call
  -- `ExecuteActivity` of a command with its undo, and of the update of the first port's file, with
  -- the new content and the old one
  exec_text_activity : List Piece → List Piece → Call
  update_first_port : ℕ → String → String → Call
  -- `Subscribe` for the state of the connection, and for errors that are not handled
  subscribe_state subscribe_errors : Call
  -- `Subscribe` and `Unsubscribe` for the tunnels that fail
  subscribe_tunnels unsubscribe_tunnels : Call
  -- a goroutine that is started
  go_deactivate_starter go_reboot : Call

-- What comes back on the channel of an installation: a message, or the timeout. A message has the
-- error of responding to it, and the decoded text of its error.
pub data InstallSignal : Type 0 where
  message : Option Error → Result String → InstallSignal
  timeout : InstallSignal

-- The channel of `WaitFirstInit`: a fresh one, or one that holds an error already.
pub data InitChannel : Type 0 where
  fresh refused : InitChannel

-- The requests that the agent sends to the orchestrator (internal/constants/websocket.go).
pub data Method : Type 0 where
  init_device_finished update_all_configs_finished uplink_state_changed : Method

-- Advertised to the device, or by it.
pub data Direction : Type 0 where
  adv_in adv_out : Direction

pub data Query : Type 0 where
  -- `GetConfig`
  config : Query
  -- the publisher's `IsClosed`
  publisher_closed : Query
  -- `GetSection` of the port configuration
  port_section : Query
  -- `AddCheckPoint`
  add_check_point : Query
  -- `os.Stat` and `os.ReadFile` of the environment file
  stat_env read_env : Query
  -- the installation request to the update manager
  install_request : InstallPackageRequest → Query
  -- `ChanSubscribe`, and the `select` on the channel
  subscribe : Query
  install_finished : Query
  -- `PublishRequest` of the installation's outcome
  publish_install_finished : Option Error → Query
  -- `checkHubTunnels` of the monitored addresses: is one of them up in time
  any_tunnel_up : List String → Query
  -- `AppendCommand` to a new section
  append_command : List Piece → Query
  -- `ActiveState`, `IsInitializing` and the publisher's `IsActive`
  current_state is_initializing publisher_active : Query
  -- the output of a command
  command_output : List Piece → Query
  -- `PublishRequest` with the error that is reported, if any
  publish_request : Method → Option Error → Query
  -- `ip --json address show`
  linux_interfaces : Query
  -- `SearchGatewayInTables` and `SearchDNS` of a port
  search_gateway_in_tables search_dns : String → Query
  -- `SearchIPAddrAndMask` and `SearchGateway` of a port, and `GetAllPorts`
  search_ip_addr_and_mask search_gateway : String → Query
  all_ports : Query
  -- the requests to the update manager
  download_request : List PackageItem → Query
  versions_request : Query
  -- the files `idVendor` and `idProduct` of a modem
  modem_vendor modem_product : String → Query
  -- the discovery service's `GetHosts` and `FetchPrimary`
  discovery_hosts : Query
  fetch_primary_of : List String → Query
  -- the websocket library's dialer, with the scheme, the host and the device
  dial : String → String → String → Query
  -- the words of the lines that list the leases of a server, with the scanner's error
  lease_lines : String → Query
  -- `os.Stat` of the grafana folder and of the configuration there, and `os.ReadFile`
  config_dir_exists stat_config read_config : Query
  -- the template with two addresses
  render_config : String → String → Query
  -- `LookupIP`, and `os.Stat` and `os.ReadFile` of the hosts file
  lookup_ip : String → Query
  stat_hosts read_hosts : Query
  -- the commands that list a BGP neighbour and its advertisements, decoded, and the neighbour's as
  -- its encoded text; the clock
  neighbor_output : String → Query
  neighbor_adv : Direction → String → Query
  neighbor_text : String → Query
  unix_time : Query
  -- the commands that list the modems and, decoded into a variable, a modem; the lines of a port's
  modem_list : Query
  modem_info : String → ModemInfo → Query
  interface_lines : String → Query
  -- the lines that a command prints, and the addresses of a port, decoded
  dump_lines : DumpCommand → Query
  dump_interfaces : String → Query
  -- the command that prints the hostname, and the file of the first port
  hostname_output first_port_file : Query
  -- `os.Stat` of the log file: does it exist
  log_file_exists : String → Query
  -- `pprof.WriteHeapProfile`
  heap_profile : Query
  -- `FinishTransaction`
  finish_transaction : Option Error → Query

abbrev pub Answer : Query → Type 0
Answer config = Config
Answer publisher_closed = Bool
Answer port_section = Section
Answer add_check_point = String
-- the file's permission bits
Answer stat_env = ℕ
Answer read_env = List ℕ
-- the decoded response, with its own error
Answer (install_request _) = Result (Option Error)
Answer subscribe = Unit {0}
Answer install_finished = InstallSignal
Answer (publish_install_finished _) = Option Error
Answer (any_tunnel_up _) = Bool
Answer (append_command _) = List (List Piece)
Answer current_state = AppState
Answer is_initializing = Bool
Answer publisher_active = Bool
Answer (command_output _) = String
-- the error of an error response, with its status
Answer (publish_request _ _) = Option (ℕ × Error)
Answer linux_interfaces = List LinuxInterface
-- the value is used whether there is an error or not
Answer (search_gateway_in_tables _) = String × Option Error
Answer (search_dns _) = List String × Option Error
Answer (search_ip_addr_and_mask _) = String × String
Answer (search_gateway _) = String
Answer all_ports = List LinuxInterface
Answer (download_request _) = Result (Option Error)
Answer versions_request = Result (Option Error × List PackageVersion)
Answer (modem_vendor _) = String
Answer (modem_product _) = String
Answer discovery_hosts = List String
-- the host is returned with the error of a split brain too
Answer (fetch_primary_of _) = String × Option Error
Answer (dial _ _ _) = Unit {0}
Answer (lease_lines _) = List (List String) × Option Error
Answer config_dir_exists = Bool
-- the permission bits of a file that exists
Answer stat_config = Option ℕ
Answer read_config = String
Answer (render_config _ _) = String
Answer (lookup_ip _) = List String
Answer stat_hosts = ℕ
-- the words of the trimmed lines, with the scanner's error
Answer read_hosts = List (List String) × Option Error
Answer (neighbor_output _) = Result NeighborOutput
-- the values of the decoded map, in the order of an iteration
Answer (neighbor_adv _ _) = Result (List (List NeighborAdvOutput))
Answer (neighbor_text _) = String
Answer unix_time = Int64
Answer modem_list = Result (List String)
-- what the variable holds afterwards
Answer (modem_info _ _) = Result ModemInfo
-- with the scanner's error
Answer (interface_lines _) = List String × Option Error
-- with the scanner's error
Answer (dump_lines _) = List String × Option Error
Answer (dump_interfaces _) = Result (List DumpInterface)
Answer hostname_output = String
Answer first_port_file = String
Answer (log_file_exists _) = Bool
Answer heap_profile = String
Answer (finish_transaction _) = Option Error

-- The functions that the handlers give to `ExecuteFunc`.
pub data Effect : Type 0 where
  activate_handler deactivate_handler : Subject → Effect
  websocket_start websocket_stop : Effect
