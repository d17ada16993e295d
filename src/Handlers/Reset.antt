-- ===== src/Handlers/Reset.antt =====
-- internal/domains/appstate/handlers/reset.go: the device is set back to its initial state.
pub mod EnvFile
use sdwan_agent.Prelude.{
  String, ℕ, Bool, true, false, Option, none, some, List, is_blank, if◌then◌else◌,
}
use sdwan_agent.Config.{Config, AppSection}
use sdwan_agent.Errors.{
  Error, Result, ok, err, invalid_transition_type, transition_not_supported, nil_dereference,
  external,
}
use sdwan_agent.Entities.{
  AppState, Transition, boot, init, active, reset, on_after_boot, on_reset, on_init_fallback,
  on_fallback, on_hub_reset_finished,
}
use sdwan_agent.Action.{
  Action, ret, fail, attempt, tell, done, call, call_logged, query, execute_func, catch, ◌>>=◌,
  ◌>>◌,
}
use sdwan_agent.Action.Calls.{
  update_manager, agent_starter, isc_dhcp, enable, disable, config, update_config, update_hostname,
  setup_static, exec_activity, try_stop_service, add_check_point, delete_check_point, close_db,
  remove_config, go_reboot, stat_env, read_env, write_env, websocket_start, websocket_stop,
}
use sdwan_agent.Websocket
use sdwan_agent.Handlers.Interface.{StateHandler, Env, is_hub}
use EnvFile.{reset_env_text, scan_fits}

-- `ValidateTransition`.
abbrev pub validate_transition : AppState → Option Error
validate_transition boot = none
validate_transition init = none
validate_transition active = none
validate_transition _ = some transition_not_supported

abbrev pub default_hostname : String
default_hostname = "cpe-default"

-- `tryResetEnv`: the file keeps its permission bits. The scanner fails on a line that does not fit
-- its buffer.
abbrev pub try_reset_env : Action (Unit {0})
try_reset_env = do
  permissions ← query stat_env
  old ← query read_env
  if scan_fits old
      then call (write_env (reset_env_text old) permissions)
      else fail (external "bufio.Scanner: token too long")

abbrev pub stop_if : Bool → Action (Unit {0})
stop_if true = execute_func websocket_stop websocket_start
stop_if false = done

-- The websocket is stopped if it runs, and started again on rollback.
abbrev pub stop_websocket : Action (Unit {0})
stop_websocket = do started ← Websocket.is_started; stop_if started

-- `serial` is empty: the device was never set up. A missing section is a nil pointer.
abbrev pub serial_is_empty : Option AppSection → Action Bool
serial_is_empty none = fail nil_dereference
serial_is_empty (some app) = ret (is_blank app.serial_number)

-- `wasInitState`.
abbrev pub was_init_state : Action Bool
was_init_state = do cfg ← query config; serial_is_empty cfg.app

-- The database is closed; if that fails, the checkpoint is deleted and the error returned.
abbrev pub close_or_undo : String → Option Error → Action (Unit {0})
close_or_undo checkpoint none = done
close_or_undo checkpoint (some e) = attempt (delete_check_point checkpoint) (λ _. fail e)

module _ (env : Env) where
  -- `reset`, for a device that is no hub: it ends with a reboot.
  abbrev pub reset_device : Action (Unit {0})
  reset_device = do
    stop_websocket
    call (update_hostname default_hostname)
    call (update_config env.empty_config)
    call setup_static
    call (exec_activity (enable agent_starter) (disable agent_starter))
    call (exec_activity (enable isc_dhcp) (disable isc_dhcp))
    call (try_stop_service update_manager)
    checkpoint ← query add_check_point
    catch try_reset_env (λ _. done)
    attempt close_db (close_or_undo checkpoint)
    call_logged remove_config
    tell go_reboot done

  -- `resetHub`: the port section is kept.
  abbrev pub reset_hub : Action (Unit {0})
  reset_hub = do
    old ← query config
    stop_websocket
    call (update_hostname default_hostname)
    let kept : Config = record (env.empty_config) { port = old.port }
    call (update_config kept)
    call (try_stop_service update_manager)
    catch try_reset_env (λ _. done)

  -- `Handle`.
  abbrev pub handle : Transition → Action (Option Transition)
  handle (on_after_boot _) = do
    was_init ← was_init_state
    ret (some (if was_init then on_init_fallback else on_fallback))
  handle on_reset =
      if is_hub env
      then (do reset_hub; ret (some on_hub_reset_finished))
      else (do reset_device; ret none)
  handle _ = fail invalid_transition_type

  abbrev pub on_exit : Transition → Action (Unit {0})
  on_exit _ = done

  abbrev pub reset_handler : StateHandler
  reset_handler = record {
    state_id = reset;
    validate_transition = validate_transition;
    handle = handle;
    on_exit = on_exit;
  }
