-- ===== src/Requests/Commands.antt =====
-- The handlers that run commands: internal/domains/cmd/handler.go, internal/domains/fw/handler.go,
-- `GetFlowRoutes` and `ResetBGPPeer` of internal/domains/l3/handler.go, internal/domains/ovs, the
-- LTE modem's reset of internal/domains/lte and internal/domains/deviceaction/handler.go.
use sdwan_agent.Prelude.{String, List, [], ◌∷◌, map, str_eq, ◌||◌, if◌then◌else◌}
use sdwan_agent.Errors.{index_out_of_range}
use sdwan_agent.Entities.{on_reset}
use sdwan_agent.Objects.Bodies.{empty_body, output}
use sdwan_agent.Action.{Action, fail, done, call, call_logged, query, catch, ◌>>=◌, ◌>>◌}
use sdwan_agent.Action.Calls.{
  Piece, text, run_command, command_output, modem_vendor, modem_product, reset_peer, perform,
}
use sdwan_agent.Requests.{
  Incoming, Job, unmarshal, unmarshal_valid, respond, respond_and, with_error_response,
}

-- The request of `ExecCommand`. The words of a command stand for its line.
pub record CommandRequest : Type 0 where
  pub command : String
  pub args : List String

-- `ExecCommand`.
abbrev pub exec_command : Incoming CommandRequest → Action Job
exec_command i = with_error_response (do
  request ← unmarshal i
  result ← query (command_output (text request.command ∷ map text request.args))
  respond (output result))

-- `FlushMACs`; the request is the bridge.
abbrev pub flush_macs : Incoming String → Action Job
flush_macs i = with_error_response (do
  bridge ← unmarshal_valid i
  call (run_command (text "ovs-appctl" ∷ text "fdb/flush" ∷ text bridge ∷ []))
  respond empty_body)

-- The request for flows; its numbers are given as `%d` prints them.
pub record FlowRequest : Type 0 where
  pub service_id : String
  pub table : String

-- `buildListFlowRoutesCommand` of the firewall, and that of L3.
abbrev pub build_list_flow_rules_command : String → FlowRequest → List Piece
build_list_flow_rules_command cli r =
    text cli ∷ text " fw flow ls -i " ∷ text r.service_id ∷ text " -t " ∷ text r.table ∷ []

abbrev pub build_list_flow_routes_command : String → FlowRequest → List Piece
build_list_flow_routes_command cli r =
    text cli ∷ text " l3 flow route ls -i " ∷ text r.service_id ∷ text " -t " ∷ text r.table ∷ []

-- `GetFWFlowRules` and `GetFlowRoutes`.
abbrev pub get_fw_flow_rules : String → Incoming FlowRequest → Action Job
get_fw_flow_rules cli i = with_error_response (do
  request ← unmarshal_valid i
  result ← query (command_output (build_list_flow_rules_command cli request))
  respond (output result))

abbrev pub get_flow_routes : String → Incoming FlowRequest → Action Job
get_flow_routes cli i = with_error_response (do
  request ← unmarshal_valid i
  result ← query (command_output (build_list_flow_routes_command cli request))
  respond (output result))

pub record ResetPeerRequest : Type 0 where
  pub remote_ip : String
  pub mode : String

-- `ResetBGPPeer`.
abbrev pub reset_bgp_peer : Incoming ResetPeerRequest → Action Job
reset_bgp_peer i = with_error_response (do
  request ← unmarshal_valid i
  call (reset_peer request.remote_ip request.mode)
  respond empty_body)

-- `SetupOVSManager` of the service, for an address that is split at its colons.
abbrev pub setup_ovs_manager : List String → Action (Unit {0})
setup_ovs_manager (_ ∷ port ∷ _) =
    call (run_command (text "ovs-vsctl" ∷ text "set-manager" ∷ text "ptcp:" ∷ text port ∷ []))
setup_ovs_manager _ = fail index_out_of_range

-- `SetupOVSManager` of the handler.
abbrev pub handle_setup_ovs_manager : Incoming (List String) → Action Job
handle_setup_ovs_manager i =
    with_error_response
      (do address ← unmarshal_valid i; setup_ovs_manager address; respond empty_body)

-- `ResetModem` of the service; the contents of the two files are trimmed.
abbrev pub reset_modem : String → Action (Unit {0})
reset_modem path = do
  vendor ← query (modem_vendor path)
  product ← query (modem_product path)
  call (run_command (text "usbreset " ∷ text vendor ∷ text ":" ∷ text product ∷ []))

-- `ResetModem` of the handler.
abbrev pub handle_reset_modem : Incoming String → Action Job
handle_reset_modem i =
    with_error_response (do path ← unmarshal_valid i; reset_modem path; respond empty_body)

-- `execAction`: an error is only logged.
abbrev pub exec_action : String → Job
exec_action action =
    if str_eq action "reset"
    then call_logged (perform on_reset)
    else if str_eq action "reboot" || str_eq action "poweroff"
    then catch (query (command_output (text action ∷ []))) (λ _. done)
    else done

-- `ExecDeviceAction`.
abbrev pub exec_device_action : Incoming String → Action Job
exec_device_action i =
    with_error_response (do action ← unmarshal_valid i; respond_and empty_body (exec_action action))
