-- ===== src/Queue.antt =====
-- The handlers of message queue requests: internal/domains/ztp/mq_handler.go,
-- internal/domains/hub/mq_handler.go, internal/domains/config/mq_handler.go,
-- internal/domains/deviceaction/mq_handler.go and internal/domains/debug/mq_handler.go. A handler returns the reply.
pub mod Hub
pub mod Performed
pub mod Replied
use sdwan_agent.Prelude.{String, Option, none, some, List, [], ◌∷◌, if◌then◌else◌}
use sdwan_agent.Config.{Config, PortConfig, no_config, empty_port_section}
use sdwan_agent.Entities.{
  Transition, on_ztp_setup_config, on_first_setup, on_rebuild_services, on_reset,
}
use sdwan_agent.Errors.{Error, Result, ok, err, is_panic}
use sdwan_agent.Objects.Ports.{HubPort}
use sdwan_agent.Action.{Action, ret, fail, call, query, catch, ◌>>=◌}
use sdwan_agent.Action.Calls.{perform, config, heap_profile}
use sdwan_agent.Handlers.Interface.{Env}
use sdwan_agent.Requests.{Incoming}
use Hub.{set_port, delete_port, init, list_ports}

pub data Reply : Type 0 where
  bad_request internal_error : Error → Reply
  ok_reply : Reply
  hub_ports_reply : List HubPort → Reply
  config_reply : Config → Reply
  heap_reply : String → Reply

-- The two checks of a request.
abbrev pub checked : {T : Type 0} → T → Option Error → (T → Action Reply) → Action Reply
checked request (some e) f = ret (bad_request e)
checked request none f = f request

abbrev pub decoded_or_bad :
    {T : Type 0} → Result T → (T → Option Error) → (T → Action Reply) → Action Reply
decoded_or_bad (err e) invalid f = ret (bad_request e)
decoded_or_bad (ok request) invalid f = checked request (invalid request) f

abbrev pub or_bad_request : {T : Type 0} → Incoming T → (T → Action Reply) → Action Reply
or_bad_request i f = decoded_or_bad i.decoded i.invalid f

-- An error is replied as an internal error; a panic has no reply.
abbrev pub error_reply : Error → Action Reply
error_reply e = if is_panic e then fail e else ret (internal_error e)

abbrev pub reply_with : {A : Type 0} → (A → Reply) → Result A → Action Reply
reply_with f (ok a) = ret (f a)
reply_with f (err e) = error_reply e

abbrev pub or_internal_error : Action (Unit {0}) → Action Reply
or_internal_error m = catch m (reply_with (λ _. ok_reply))

abbrev pub perform_and_reply : Transition → Action Reply
perform_and_reply t = or_internal_error (call (perform t))

pub record FirstSetupRequest : Type 0 where
  pub serial_number : String
  pub orchestrator_addrs : List String

-- `SetPort`, `DeletePort` and `RunFirstSetup` of the ZTP handler.
abbrev pub ztp_set_port : Incoming PortConfig → Action Reply
ztp_set_port i = or_bad_request i (λ port. perform_and_reply (
    on_ztp_setup_config
      (record no_config { port = some (record { port_configs = port ∷ []; port_mtus = "" }) })))

abbrev pub ztp_delete_port : Action Reply
ztp_delete_port =
    perform_and_reply (on_ztp_setup_config (record no_config { port = some empty_port_section }))

abbrev pub run_first_setup : Incoming FirstSetupRequest → Action Reply
run_first_setup i =
    or_bad_request i (λ r. perform_and_reply (on_first_setup r.serial_number r.orchestrator_addrs))

-- `RebuildServices` and `GetConfig` of the configuration handler, `Reset` of the device actions.
abbrev pub rebuild_services : Action Reply
rebuild_services = perform_and_reply on_rebuild_services

abbrev pub get_config : Action Reply
get_config = catch (query config) (reply_with config_reply)

abbrev pub reset : Action Reply
reset = perform_and_reply on_reset

-- `SetPort`, `DeletePort`, `ListPorts` and `Init` of the hub handler.
abbrev pub hub_set_port : Env → Incoming String → Action Reply
hub_set_port env i = or_bad_request i (λ name. or_internal_error (set_port env name))

abbrev pub hub_delete_port : Env → Incoming String → Action Reply
hub_delete_port env i = or_bad_request i (λ name. or_internal_error (delete_port env name))

abbrev pub hub_list_ports : Env → Action Reply
hub_list_ports env = catch (list_ports env) (reply_with hub_ports_reply)

abbrev pub hub_init : Env → Incoming FirstSetupRequest → Action Reply
hub_init env i =
    or_bad_request i (λ r. or_internal_error (init env r.serial_number r.orchestrator_addrs))

-- `DumpHeap` of internal/domains/debug/mq_handler.go.
abbrev pub dump_heap : Action Reply
dump_heap = catch (query heap_profile) (reply_with heap_reply)

-- `getMQRoutes` of cmd/app/routes.go.
pub data QueueRequest : Type 0 where
  ztp_first_setup_subject hub_init_subject : Incoming FirstSetupRequest → QueueRequest
  ztp_set_port_subject : Incoming PortConfig → QueueRequest
  ztp_del_port_subject get_config_subject rebuild_services_subject reset_subject : QueueRequest
  hub_set_port_subject hub_del_port_subject : Incoming String → QueueRequest
  hub_list_ports_subject dump_heap_subject : QueueRequest

abbrev pub reply_to : Env → QueueRequest → Action Reply
reply_to env (ztp_first_setup_subject i) = run_first_setup i
reply_to env (ztp_set_port_subject i) = ztp_set_port i
reply_to env ztp_del_port_subject = ztp_delete_port
reply_to env get_config_subject = get_config
reply_to env rebuild_services_subject = rebuild_services
reply_to env reset_subject = reset
reply_to env (hub_set_port_subject i) = hub_set_port env i
reply_to env (hub_del_port_subject i) = hub_delete_port env i
reply_to env hub_list_ports_subject = hub_list_ports env
reply_to env dump_heap_subject = dump_heap
reply_to env (hub_init_subject i) = hub_init env i
