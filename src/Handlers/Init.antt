-- ===== src/Handlers/Init.antt =====
-- internal/domains/appstate/handlers/init.go: the state in which the device waits for its setup.
use Prim.Native.String.{String}
use Prim.Native.Char.{code}
use sdwan_agent.Prelude.{
  ℕ, Bool, false, not, ◌||◌, Option, none, some, List, [], ◌∷◌, ◌==◌, is_blank, contains_by,
  if◌then◌else◌,
}
use sdwan_agent.Errors.{Error, invalid_transition_type, transition_not_supported}
use sdwan_agent.Entities.{
  AppState, Transition, boot, init, ztp_setup, reset, on_after_boot, on_init_fallback,
  on_ztp_setup_interrupted, on_ztp_setup_finished, on_hub_reset_finished,
  on_migrate_from_old_version,
}
use sdwan_agent.Action.{Action, ret, fail, done, call, call_logged, ◌>>◌}
use sdwan_agent.Action.Calls.{
  Subject, ztp_first_setup, ztp_set_port, ztp_del_port, hub_set_port, hub_del_port, hub_init,
  agent_reset, update_manager, agent_starter, isc_dhcp, disable, stop, exec, try_start_service,
}
use sdwan_agent.Handlers.Interface.{StateHandler, Env, is_hub, activate_each, deactivate_each}

-- `mqSubjects` of the init handler.
abbrev pub init_subjects : List Subject
init_subjects =
    ztp_first_setup ∷ ztp_set_port ∷ ztp_del_port ∷ hub_set_port ∷ hub_del_port ∷ hub_init
    ∷ agent_reset ∷ []

abbrev pub subscribe_queue_subjects : Action (Unit {0})
subscribe_queue_subjects = activate_each init_subjects

abbrev pub unsubscribe_queue_subjects : Action (Unit {0})
unsubscribe_queue_subjects = deactivate_each init_subjects

-- `ValidateTransition`.
abbrev pub validate_transition : AppState → Option Error
validate_transition boot = none
validate_transition ztp_setup = none
validate_transition reset = none
validate_transition _ = some transition_not_supported

abbrev codes : String → List ℕ
codes String.[] = []
codes (String.◌∷◌ c s) = code c ∷ codes s

-- `checkMigrateFromOldVersion`: a device id that is set and has no `x` or `X` in it.
unfoldable pub check_migrate_from_old_version : String → Bool
check_migrate_from_old_version device_id =
    if is_blank device_id
    then false
    else not (contains_by (λ c. c == b'x' || c == b'X') (codes device_id))

module _ (env : Env) where
  -- The part of `restoreInitState` behind the subscriptions: the update manager rests, and the
  -- daemons that a device offers its setup with are started, unless it is a hub.
  abbrev pub restore_daemons : Action (Unit {0})
  restore_daemons = do
    call_logged (exec (disable update_manager))
    call_logged (exec (stop update_manager))
    if is_hub env
        then done
        else do call (try_start_service agent_starter); call (try_start_service isc_dhcp)

  -- `restoreInitState`.
  abbrev pub restore_init_state : Action (Unit {0})
  restore_init_state = do subscribe_queue_subjects; restore_daemons

  -- `Handle`.
  abbrev pub handle : Transition → Action (Option Transition)
  handle (on_after_boot _) =
      if check_migrate_from_old_version env.device_id
      then ret (some (on_migrate_from_old_version env.device_id (env.end_point)))
      else (do restore_init_state; ret none)
  handle on_init_fallback = do restore_init_state; ret none
  handle on_ztp_setup_interrupted = do restore_init_state; ret none
  handle on_ztp_setup_finished = do subscribe_queue_subjects; ret none
  handle on_hub_reset_finished = do subscribe_queue_subjects; ret none
  handle _ = fail invalid_transition_type

  -- `OnExit`: before the migration the subjects were not switched on.
  abbrev pub on_exit : Transition → Action (Unit {0})
  on_exit (on_migrate_from_old_version _ _) = done
  on_exit _ = unsubscribe_queue_subjects

  abbrev pub init_handler : StateHandler
  init_handler = record {
    state_id = init;
    validate_transition = validate_transition;
    handle = handle;
    on_exit = on_exit;
  }
