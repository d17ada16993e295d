-- ===== src/StateService/Subjects/Parts.antt =====
-- The parts of the handlers that switch no message queue subject on or off: all but the loops over
-- the handlers' subjects.
use sdwan_agent.Prelude.{
  String, Bool, true, false, not, Option, none, some, List, [], ◌∷◌, arith, contains_by,
  if◌then◌else◌,
}
use sdwan_agent.Config.{Config, AppSection, PonySection, PortConfig}
use sdwan_agent.Errors.{Error, Result, ok, err}
use sdwan_agent.Entities.{InstallPackageRequest, PackageItem}
use sdwan_agent.Action.{Action, fail, done, call, query, lift, or_return, catch}
use sdwan_agent.Action.Calls.{InitChannel, config, install_request, try_stop_service, isc_dhcp}
use sdwan_agent.Websocket
use sdwan_agent.Handlers.Interface.{Env, is_hub, is_cpe}
use sdwan_agent.Handlers.Init
use sdwan_agent.Handlers.Active
use sdwan_agent.Handlers.Maintenance
use sdwan_agent.Handlers.UpdateConfig
use sdwan_agent.Handlers.ZtpSetup
use sdwan_agent.Handlers.Reset
use sdwan_agent.Handlers.Reset.EnvFile.{scan_fits}
use sdwan_agent.Machine.Quiet.{IsQuiet, IsQuiet-bind, IsQuiet-catch, IsQuiet-if}

pub start_unless-IsQuiet : (b : Bool) → IsQuiet (Active.start_unless b)
start_unless-IsQuiet true = tt
start_unless-IsQuiet false = omega arith

pub restore_services-IsQuiet : IsQuiet Active.restore_services
restore_services-IsQuiet =
    (tt, (tt, λ closed. start_unless-IsQuiet (not closed), omega arith), omega arith)

pub stop_if-IsQuiet : (b : Bool) → IsQuiet (Reset.stop_if b)
stop_if-IsQuiet true = omega arith
stop_if-IsQuiet false = tt

pub stop_websocket-IsQuiet : IsQuiet Reset.stop_websocket
stop_websocket-IsQuiet closed = stop_if-IsQuiet (not closed)

pub start-IsQuiet : IsQuiet Websocket.start
start-IsQuiet true = omega arith
start-IsQuiet false = omega arith

pub start_logged-IsQuiet : IsQuiet UpdateConfig.start_logged
start_logged-IsQuiet true = omega arith
start_logged-IsQuiet false = omega arith

pub stop_logged-IsQuiet : IsQuiet UpdateConfig.stop_logged
stop_logged-IsQuiet true = omega arith
stop_logged-IsQuiet false = omega arith

pub check_hub_tunnels-IsQuiet : (pony : PonySection) → IsQuiet (UpdateConfig.check_hub_tunnels pony)
check_hub_tunnels-IsQuiet pony =
    elim pony.clusters as (λ cs. IsQuiet (UpdateConfig.check_clusters cs)) [
      | [] ↦ tt
      | c ∷ cs ↦ λ up. IsQuiet-if up _ _ tt tt
    ]

pub or_return-IsQuiet : (r : Option Error) → IsQuiet (or_return r)
or_return-IsQuiet none = tt
or_return-IsQuiet (some e) = tt

pub wait_install_finished-IsQuiet : IsQuiet Maintenance.wait_install_finished
wait_install_finished-IsQuiet = (
  λ _ signal. let q = or_return-IsQuiet (Maintenance.signal_error signal) in (tt, q, λ _. q),
  omega arith,
)

pub request_install-IsQuiet :
    (request : InstallPackageRequest) → IsQuiet (Maintenance.request_install request)
request_install-IsQuiet request =
    IsQuiet-bind (query (install_request request)) _ (omega arith) (λ response.
      IsQuiet-bind (Maintenance.response_error response) _ (answered response)
        (λ _. wait_install_finished-IsQuiet))
  where
    answered : (r : Result (Option Error)) → IsQuiet (Maintenance.response_error r)
    answered (ok r) = or_return-IsQuiet r
    answered (err e) = tt

pub install_found-IsQuiet :
    (request : InstallPackageRequest) (found : Option PackageItem)
    → IsQuiet (Maintenance.install_found request found)
install_found-IsQuiet request none = tt
install_found-IsQuiet request (some item) = omega arith

pub cleanup-IsQuiet :
    (checkpoint : String) (r : Result (Unit {0}))
    → IsQuiet (Maintenance.cleanup_checkpoint checkpoint r)
cleanup-IsQuiet checkpoint (ok r) = tt
cleanup-IsQuiet checkpoint (err e) = omega arith

pub install_with_checkpoint-IsQuiet :
    (request : InstallPackageRequest) → IsQuiet (Maintenance.install_with_checkpoint request)
install_with_checkpoint-IsQuiet request = (
  λ checkpoint.
      IsQuiet-catch (Maintenance.request_install request)
        (Maintenance.cleanup_checkpoint checkpoint) (request_install-IsQuiet request)
        (cleanup-IsQuiet checkpoint),
  omega arith,
)

pub update_device-IsQuiet :
    (request : InstallPackageRequest) → IsQuiet (Maintenance.update_device request)
update_device-IsQuiet request =
    IsQuiet-bind (Maintenance.install_update_manager request) _
      (install_found-IsQuiet request (Maintenance.find_update_manager request))
      (λ rest.
        IsQuiet-bind
          (if contains_by Maintenance.needs_rebuild rest then Maintenance.delete_services else done)
          _ (IsQuiet-if (contains_by Maintenance.needs_rebuild rest) _ _ (omega arith) tt)
          (λ _.
            IsQuiet-if (contains_by Maintenance.is_agent rest) _ _
              (install_with_checkpoint-IsQuiet rest) (request_install-IsQuiet rest)))

pub after_boot-IsQuiet : IsQuiet Maintenance.wait_install_finished_after_boot
after_boot-IsQuiet =
    IsQuiet-bind Websocket.start _ start-IsQuiet (λ _. wait_install_finished-IsQuiet)

pub send_install_finished-IsQuiet :
    (r : Option Error) → IsQuiet (Maintenance.send_install_finished r)
send_install_finished-IsQuiet r = (λ answer. (tt, or_return-IsQuiet answer), λ _. (tt, tt))

module _ (env : Env) where
  pub restore_daemons-IsQuiet : IsQuiet (Init.restore_daemons env)
  restore_daemons-IsQuiet =
      let daemons = IsQuiet-if (is_hub env) _ _ tt (omega arith) in
      (tt, (tt, daemons, λ _. daemons), λ _. (tt, daemons, λ _. daemons))

  pub unless_hub-IsQuiet : (m : Action (Unit {0})) → IsQuiet m → IsQuiet (Active.unless_hub env m)
  unless_hub-IsQuiet m h = IsQuiet-if (is_hub env) done m tt h

  pub check_first_setup-IsQuiet :
      (addresses : List String) → IsQuiet (Active.check_first_setup env addresses)
  check_first_setup-IsQuiet addresses = (
    λ cfg.
        IsQuiet-if (Active.no_wan_port cfg.port) _ _ tt
          (IsQuiet-if (contains_by (λ a. not (Active.has_schema a)) addresses) _ _ tt tt),
    omega arith,
  )

  pub apply_first_setup-IsQuiet :
      (serial : String) (addresses : List String)
      → IsQuiet (Active.apply_first_setup env serial addresses)
  apply_first_setup-IsQuiet serial addresses =
      let stop_dhcp = unless_hub-IsQuiet (call (try_stop_service isc_dhcp)) (omega arith) in
      let waits : (c : InitChannel) → _ = λ c. (tt, (stop_dhcp, λ _. tt), λ _. tt) in
      (tt, (tt, (tt, waits, λ _. tt), λ _. tt), λ _. tt)

  pub migration-IsQuiet :
      (serial address : String) → IsQuiet (Active.write_migration serial address)
  migration-IsQuiet serial address = IsQuiet-bind (query config) _ (omega arith) (λ cfg.
      IsQuiet-bind (Active.migrated_app serial address cfg.app) _ (migrated cfg.app)
        (λ _. omega arith))
    where
      migrated : (app : Option AppSection) → IsQuiet (Active.migrated_app serial address app)
      migrated none = tt
      migrated (some app) = tt

  env_reset-IsQuiet : IsQuiet (catch Reset.try_reset_env (λ _. done))
  env_reset-IsQuiet =
      IsQuiet-catch Reset.try_reset_env _
        (λ permissions. (λ old. IsQuiet-if (scan_fits old) _ _ (omega arith) tt, λ e. tt), λ e. tt)
        (λ r. tt)

  pub reset_hub-IsQuiet : IsQuiet (Reset.reset_hub env)
  reset_hub-IsQuiet = (
    λ old closed.
        IsQuiet-bind (Reset.stop_if (not closed)) _ (stop_if-IsQuiet (not closed))
          (λ _. (tt, (tt, (tt, env_reset-IsQuiet, λ e. tt), λ e. tt), λ e. tt)),
    omega arith,
  )

  pub close_or_undo-IsQuiet :
      (checkpoint : String) (r : Option Error) → IsQuiet (Reset.close_or_undo checkpoint r)
  close_or_undo-IsQuiet checkpoint none = tt
  close_or_undo-IsQuiet checkpoint (some e) = omega arith

  pub reset_device-IsQuiet : IsQuiet (Reset.reset_device env)
  reset_device-IsQuiet closed =
      IsQuiet-bind (Reset.stop_if (not closed)) _ (stop_if-IsQuiet (not closed)) (λ _. (
        tt,
        (
          tt,
          (
            tt,
            (
              tt,
              (
                tt,
                (
                  tt,
                  (
                    λ checkpoint.
                        IsQuiet-bind (catch Reset.try_reset_env (λ _. done)) _ env_reset-IsQuiet
                          (λ _. omega arith),
                    λ e. tt,
                  ),
                  λ e. tt,
                ),
                λ e. tt,
              ),
              λ e. tt,
            ),
            λ e. tt,
          ),
          λ e. tt,
        ),
        λ e. tt,
      ))

  pub was_init_state-IsQuiet : IsQuiet Reset.was_init_state
  was_init_state-IsQuiet = IsQuiet-bind (query config) _ (omega arith) (λ cfg. found cfg.app)
    where
      found : (app : Option AppSection) → IsQuiet (Reset.serial_is_empty app)
      found none = tt
      found (some app) = tt

  pub pause_if-IsQuiet : (b : Bool) → IsQuiet (UpdateConfig.pause_if env b)
  pause_if-IsQuiet true = (tt, stop_logged-IsQuiet)
  pause_if-IsQuiet false = tt

  pub write_or_resume-IsQuiet :
      (b : Bool) (new : Config) → IsQuiet (UpdateConfig.write_or_resume env b new)
  write_or_resume-IsQuiet false new = omega arith
  write_or_resume-IsQuiet true new = (
    tt,
    tt,
    λ e. (tt, IsQuiet-bind UpdateConfig.start_logged (λ _. fail e) start_logged-IsQuiet (λ _. tt)),
  )

  pub sync_hosts_if-IsQuiet : (b : Bool) → IsQuiet (UpdateConfig.sync_hosts_if env b)
  sync_hosts_if-IsQuiet true = omega arith
  sync_hosts_if-IsQuiet false = tt

  pub check_tunnels_if-IsQuiet :
      (b : Bool) (pony : Option PonySection) → IsQuiet (UpdateConfig.check_tunnels_if env b pony)
  check_tunnels_if-IsQuiet false pony = tt
  check_tunnels_if-IsQuiet true none = tt
  check_tunnels_if-IsQuiet true (some pony) = check_hub_tunnels-IsQuiet pony

  pub lift-IsQuiet : {A : Type 0} (r : Result A) → IsQuiet (lift r)
  lift-IsQuiet (ok a) = tt
  lift-IsQuiet (err e) = tt

  pub resume_if-IsQuiet : (b : Bool) (new : Config) → IsQuiet (UpdateConfig.resume_if env b new)
  resume_if-IsQuiet false new = tt
  resume_if-IsQuiet true new = (
    tt,
    IsQuiet-catch (UpdateConfig.check_tunnels_if env (is_cpe env) new.pony) _
        (check_tunnels_if-IsQuiet (is_cpe env) new.pony)
        (λ r. IsQuiet-bind UpdateConfig.start_logged _ start_logged-IsQuiet (λ _. lift-IsQuiet r)),
  )

  pub update_config_from-IsQuiet :
      (new : Config) → IsQuiet (UpdateConfig.update_config_from env new)
  update_config_from-IsQuiet new = IsQuiet-bind (query config) _ (omega arith) (λ old.
      let b = UpdateConfig.is_port_configuration_changed env old new in
      IsQuiet-bind (UpdateConfig.pause_if env b) _ (pause_if-IsQuiet b) (λ _.
        IsQuiet-bind (UpdateConfig.write_or_resume env b new) _ (write_or_resume-IsQuiet b new)
          (λ _.
            IsQuiet-bind (UpdateConfig.sync_hosts_if env _) _ (sync_hosts_if-IsQuiet _)
              (λ _. resume_if-IsQuiet b new))))

  pub set_hub_port-IsQuiet : (port : PortConfig) → IsQuiet (ZtpSetup.set_hub_port env port)
  set_hub_port-IsQuiet port = (
    λ old. (
      tt,
      IsQuiet-bind (lift (ZtpSetup.port_command env port)) (ZtpSetup.save_port_section env old)
          (lift-IsQuiet (ZtpSetup.port_command env port)) (λ _. omega arith),
      omega arith,
    ),
    omega arith,
  )
