-- ===== src/Handlers/Maintenance.antt =====
-- internal/domains/appstate/handlers/maintenance.go: packages are installed.
pub mod Finishes
use sdwan_agent.Prelude.{
  String, Bool, ◌||◌, Option, none, some, [], ◌∷◌, str_eq, is_blank, contains_by, if◌then◌else◌,
}
use sdwan_agent.Config.{Config, no_config, empty_section}
use sdwan_agent.Errors.{
  Error, Result, ok, err, invalid_transition_type, transition_not_supported, install_timeout,
  reported, joined,
}
use sdwan_agent.Entities.{
  AppState, Transition, PackageItem, InstallPackageRequest, boot, active, maintenance,
  on_after_boot, on_update_device, on_update_device_finished,
}
use sdwan_agent.Action.{
  Action, ret, fail, attempt, fetch, ask, tell, done, call, call_logged, query, lift, or_return,
  catch, error_of, ◌>>=◌, ◌>>◌,
}
use sdwan_agent.Action.Calls.{
  InstallSignal, message, timeout, update_config, install_script, install_request, subscribe,
  install_finished, unsubscribe, publish_install_finished, publisher_reconnect, add_check_point,
  delete_check_point,
}
use sdwan_agent.Websocket
use sdwan_agent.Handlers.Interface.{StateHandler}

-- `ValidateTransition`.
abbrev pub validate_transition : AppState → Option Error
validate_transition active = none
validate_transition boot = none
validate_transition _ = some transition_not_supported

-- The packages of internal/constants/constants.go.
abbrev pub is_update_manager : PackageItem → Bool
is_update_manager item = str_eq item.name "sdwan-update-manager"

abbrev pub is_agent : PackageItem → Bool
is_agent item = str_eq item.name "sdwan-agent"

abbrev pub needs_rebuild : PackageItem → Bool
needs_rebuild item =
    is_agent item || str_eq item.name "sdwan-bgp-adapter" || str_eq item.name "sdwan-bgpd"

-- `lo.Find` and `slices.DeleteFunc` by the update manager's name.
unfoldable pub find_update_manager : InstallPackageRequest → Option PackageItem
find_update_manager [] = none
find_update_manager (item ∷ items) =
    if is_update_manager item then some item else find_update_manager items

unfoldable pub delete_update_manager : InstallPackageRequest → InstallPackageRequest
delete_update_manager [] = []
delete_update_manager (item ∷ items) =
    let rest = delete_update_manager items in if is_update_manager item then rest else item ∷ rest

-- `installUpdateManager`.
abbrev pub install_found : InstallPackageRequest → Option PackageItem → Action InstallPackageRequest
install_found request none = ret request
install_found request (some item) = do
  call (install_script item.version item.previous_version)
  ret (delete_update_manager request)

abbrev pub install_update_manager : InstallPackageRequest → Action InstallPackageRequest
install_update_manager request = install_found request (find_update_manager request)

-- The services that `deleteServices` empties.
abbrev pub deleted_services : Config
deleted_services = record no_config {
  trunk = some empty_section;
  p2p = some empty_section;
  bridge = some empty_section;
  isb = some empty_section;
  l3 = some empty_section;
  fw = some empty_section;
}

-- `deleteServices`.
abbrev pub delete_services : Action (Unit {0})
delete_services = call (update_config deleted_services)

-- The result of the `select` on the installation's channel.
abbrev pub signal_error : InstallSignal → Option Error
signal_error (message (some e) _) = some e
signal_error (message none (err e)) = some e
signal_error (message none (ok text)) = if is_blank text then none else some (reported text)
signal_error timeout = some install_timeout

-- `waitInstallFinished`: the subscription ends on every path.
abbrev pub wait_install_finished : Action (Unit {0})
wait_install_finished = do
  query subscribe
  signal ← ask install_finished ret
  call_logged unsubscribe
  or_return (signal_error signal)

-- `waitInstallFinishedAfterBoot`.
abbrev pub wait_install_finished_after_boot : Action (Unit {0})
wait_install_finished_after_boot = do Websocket.start; wait_install_finished

abbrev pub response_error : Result (Option Error) → Action (Unit {0})
response_error (err e) = fail e
response_error (ok r) = or_return r

-- The part of `updateDevice` from the installation request on.
abbrev pub request_install : InstallPackageRequest → Action (Unit {0})
request_install request = do
  response ← query (install_request request)
  response_error response
  wait_install_finished

-- The deferred clean-up of the checkpoint.
abbrev pub cleanup_checkpoint : String → Result (Unit {0}) → Action (Unit {0})
cleanup_checkpoint checkpoint (ok _) = done
cleanup_checkpoint checkpoint (err e) = attempt (delete_check_point checkpoint) (λ _. fail e)

-- An update of the agent itself restarts it, so the transaction is saved before.
abbrev pub install_with_checkpoint : InstallPackageRequest → Action (Unit {0})
install_with_checkpoint request = do
  checkpoint ← query add_check_point
  catch (request_install request) (cleanup_checkpoint checkpoint)

-- `updateDevice`.
abbrev pub update_device : InstallPackageRequest → Action (Unit {0})
update_device request = do
  rest ← install_update_manager request
  if contains_by needs_rebuild rest then delete_services else done
  if contains_by is_agent rest then install_with_checkpoint rest else request_install rest

-- `sendInstallFinished`: the publisher reconnects on every path.
abbrev pub send_install_finished : Option Error → Action (Unit {0})
send_install_finished upd_err =
    fetch (publish_install_finished upd_err) λ r. tell publisher_reconnect (lift r >>= or_return)

-- `errors.Join(updErr, sErr)`.
abbrev pub join_errors : Option Error → Option Error → Option Error
join_errors none s = s
join_errors (some e) none = some e
join_errors (some e) (some s) = some (joined e s)

-- The orchestrator is told of the outcome, and the state is left whatever the outcome is.
abbrev pub report : Result (Unit {0}) → Action (Option Transition)
report r =
    catch (send_install_finished (error_of r))
      λ sent. ret (some (on_update_device_finished (join_errors (error_of r) (error_of sent))))

-- `Handle`.
abbrev pub handle : Transition → Action (Option Transition)
handle (on_after_boot _) = catch wait_install_finished_after_boot report
handle (on_update_device request) = catch (update_device request) report
handle _ = fail invalid_transition_type

abbrev pub on_exit : Transition → Action (Unit {0})
on_exit _ = done

abbrev pub maintenance_handler : StateHandler
maintenance_handler = record {
  state_id = maintenance;
  validate_transition = validate_transition;
  handle = handle;
  on_exit = on_exit;
}
