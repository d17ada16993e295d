-- ===== src/Handlers/Active.antt =====
-- internal/domains/appstate/handlers/active.go: the state in which the device serves the
-- orchestrator.
pub mod FirstSetup
use sdwan_agent.Prelude.{
  String, Bool, true, false, not, ◌||◌, Option, none, some, List, [], ◌∷◌, is_empty, has_prefix,
  contains_by, if◌then◌else◌,
}
use sdwan_agent.Config.{AppSection, PortSection, no_config}
use sdwan_agent.Errors.{
  Error, invalid_transition_type, wan_port_not_configured, address_without_schema, nil_dereference,
}
use sdwan_agent.Entities.{
  AppState, Transition, active, on_after_boot, on_first_setup, on_migrate_from_old_version,
  on_fallback, on_update_config_finished, on_update_device_finished,
}
use sdwan_agent.Action.{
  Action, ret, fail, tell, register, receive, done, call, call_logged, query, execute_func,
  or_return, ◌>>=◌, ◌>>◌,
}
use sdwan_agent.Action.Calls.{
  Subject, agent_reset, rebuild_services, update_manager, agent_starter, isc_dhcp, enable, disable,
  start, stop, config, update_config, exec_activity, try_start_service, try_stop_service,
  try_stop_service_now, clear_static, go_deactivate_starter, websocket_start, websocket_stop,
}
use sdwan_agent.Websocket
use sdwan_agent.Handlers.Interface.{StateHandler, Env, is_hub, activate_each, deactivate_each}

-- `mqSubjects` of the active handler.
abbrev pub active_subjects : List Subject
active_subjects = agent_reset ∷ rebuild_services ∷ []

abbrev pub subscribe_queue_subjects : Action (Unit {0})
subscribe_queue_subjects = activate_each active_subjects

abbrev pub unsubscribe_queue_subjects : Action (Unit {0})
unsubscribe_queue_subjects = deactivate_each active_subjects

-- `ValidateTransition`: every state may go to active.
abbrev pub validate_transition : AppState → Option Error
validate_transition _ = none

-- `cfg.Port == nil || len(cfg.Port.PortConfigs) == 0`
abbrev pub no_wan_port : Option PortSection → Bool
no_wan_port none = true
no_wan_port (some port) = is_empty port.port_configs

abbrev pub has_schema : String → Bool
has_schema address = has_prefix address "http://" || has_prefix address "https://"

-- The section that `runFirstSetup` writes.
abbrev pub setup_app : String → List String → AppSection
setup_app serial addresses = record {
  serial_number = serial;
  orchestrator_addrs = addresses;
  orchestrator_tunnel_addr = "";
  active_orchestrator_addr = "";
}

-- `activateServices`.
abbrev pub activate_services : Action (Unit {0})
activate_services = call (try_start_service update_manager)

-- `deactivateStarter`, which `runFirstSetup` leaves to a goroutine.
abbrev pub deactivate_starter : Action (Unit {0})
deactivate_starter = do call_logged (try_stop_service_now agent_starter); call_logged clear_static

-- The section that `migrateFromOldVersion` writes, from the one that it read.
abbrev pub migrated_app : String → String → Option AppSection → Action AppSection
migrated_app serial address none = fail nil_dereference
migrated_app serial address (some app) =
    ret (record app { serial_number = serial; orchestrator_addrs = address ∷ [] })

-- `migrateFromOldVersion` up to the subscriptions.
abbrev pub write_migration : String → String → Action (Unit {0})
write_migration serial address = do
  cfg ← query config
  app ← migrated_app serial address cfg.app
  call (update_config (record no_config { app = some app }))
  activate_services
  execute_func websocket_start websocket_stop

-- `migrateFromOldVersion`.
abbrev pub migrate_from_old_version : String → String → Action (Unit {0})
migrate_from_old_version serial address = do
  write_migration serial address
  subscribe_queue_subjects

abbrev pub start_unless : Bool → Action (Unit {0})
start_unless true = done
start_unless false = execute_func websocket_start websocket_stop

-- `restoreActiveState` up to the subscriptions.
abbrev pub restore_services : Action (Unit {0})
restore_services = do
  activate_services
  call (try_stop_service agent_starter)
  started ← Websocket.is_started
  start_unless started

-- `restoreActiveState`.
abbrev pub restore_active_state : Action (Unit {0})
restore_active_state = do restore_services; subscribe_queue_subjects

module _ (env : Env) where
  abbrev pub unless_hub : Action (Unit {0}) → Action (Unit {0})
  unless_hub m = if is_hub env then done else m

  -- `runFirstSetup` between its checks and the subscriptions.
  abbrev pub apply_first_setup : String → List String → Action (Unit {0})
  apply_first_setup serial addresses = do
    call (update_config (record no_config { app = some (setup_app serial addresses) }))
    call (exec_activity (enable update_manager) (disable update_manager))
    call (exec_activity (start update_manager) (stop update_manager))
    channel ← register ret
    execute_func websocket_start websocket_stop
    receive channel or_return
    unless_hub (call (try_stop_service isc_dhcp))

  -- The checks of `runFirstSetup`: a configured port, and a schema in each address.
  abbrev pub check_first_setup : List String → Action (Unit {0})
  check_first_setup addresses = do
    cfg ← query config
    if no_wan_port cfg.port
        then fail wan_port_not_configured
        else if contains_by (λ a. not (has_schema a)) addresses
        then fail address_without_schema
        else done

  -- `runFirstSetup`.
  abbrev pub run_first_setup : String → List String → Action (Unit {0})
  run_first_setup serial addresses = do
    check_first_setup addresses
    apply_first_setup serial addresses
    subscribe_queue_subjects
    unless_hub (tell go_deactivate_starter done)

  -- `Handle`.
  abbrev pub handle : Transition → Action (Option Transition)
  handle (on_after_boot _) = do restore_active_state; ret none
  handle (on_first_setup serial addresses) = do run_first_setup serial addresses; ret none
  handle (on_migrate_from_old_version serial address) = do
    migrate_from_old_version serial address
    ret none
  handle on_fallback = do restore_active_state; ret none
  handle on_update_config_finished = do subscribe_queue_subjects; ret none
  handle (on_update_device_finished _) = do subscribe_queue_subjects; activate_services; ret none
  handle _ = fail invalid_transition_type

  -- `OnExit`.
  abbrev pub on_exit : Transition → Action (Unit {0})
  on_exit _ = unsubscribe_queue_subjects

  abbrev pub active_handler : StateHandler
  active_handler = record {
    state_id = active;
    validate_transition = validate_transition;
    handle = handle;
    on_exit = on_exit;
  }
