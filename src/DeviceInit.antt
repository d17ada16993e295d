-- ===== src/DeviceInit.antt =====
-- internal/domains/deviceinit/service.go: a device is set up with a configuration that the
-- orchestrator sends, within the transaction of a first setup that waits for it or one of its own.
pub mod Handler
pub mod Settles
pub mod Phases
pub mod Silent
use sdwan_agent.Prelude.{
  String, ℕ, zero, suc, Bool, true, false, ◌||◌, Option, none, some, List, [], ◌∷◌, map, is_empty,
  if◌then◌else◌,
}
use sdwan_agent.Config.{
  Section, AppSection, PonySection, WgConfig, Config, Cluster, Uplink, no_config,
}
use sdwan_agent.Errors.{
  Error, Result, ok, err, nil_dereference, never_received, reason, all_tunnels_down, is_panic,
}
use sdwan_agent.Action.{
  Action, ret, fail, attempt, ask, tell, done, call, query, lift, catch, ◌>>=◌, ◌>>◌,
}
use sdwan_agent.Action.Calls.{
  config, update_config, update_hostname, configure_agent, any_tunnel_up, publisher_active,
  pony_pause, pony_resume, emit_started, emit_finished, signal_first_init, start_transaction,
  finish_transaction,
}
use sdwan_agent.Handlers.Interface.{Env, is_cpe, is_hub}
use sdwan_agent.Requests.Configs.{NetInitConfig, net_config}
use sdwan_agent.Requests.States.{set_apt_source}

-- `InitConfig` and `DeviceInitServiceConfig` of internal/entities/init.go; the controller's address
-- is cut at its first colon.
pub record InitServices : Type 0 where
  pub trunk : Section
  pub l3 : Section
  pub isb : Section
  pub bridge : Section
  pub p2p : Section
  pub fw : Section

pub record InitConfig : Type 0 where
  pub of_controller_host : String
  pub wireguard : List WgConfig
  pub net_init : NetInitConfig
  pub pony : PonySection
  pub services : InitServices
  pub apt_source : String
  pub orchestrator_addrs : List String

-- What the service keeps: is `firstInitData` set, and `isInitializing`.
pub record InitState : Type 0 where
  pub first_init : Bool
  pub initializing : Bool

-- `defineNewAddrs`.
abbrev pub define_new_addrs : List String → List String → List String
define_new_addrs new_addrs old_addrs = if is_empty new_addrs then old_addrs else new_addrs

-- `checkHubTunnels`: one of the first cluster's tunnels answers in time.
abbrev pub monitor_addrs : Cluster → List String
monitor_addrs c = map (λ (u : Uplink). u.monitor_addr) c.uplinks

abbrev pub check_hub_tunnels : List Cluster → Action (Unit {0})
check_hub_tunnels [] = done
check_hub_tunnels (c ∷ _) =
    ask (any_tunnel_up (monitor_addrs c)) (λ up. if up then done else fail all_tunnels_down)

-- `checkWebsocketConnection` with the polls that are left; its context is never done.
abbrev pub check_websocket_connection : ℕ → Action (Unit {0})
check_websocket_connection zero =
    fail (reason "checkWebsocketConnection: websocket connection is not available")
check_websocket_connection (suc attempts) =
    ask publisher_active (elim [ true ↦ done | false ↦ check_websocket_connection attempts ])

abbrev pub new_app : InitConfig → AppSection → AppSection
new_app init app = record app {
  orchestrator_tunnel_addr = init.of_controller_host;
  orchestrator_addrs = define_new_addrs init.orchestrator_addrs app.orchestrator_addrs;
}

abbrev pub service_config : InitServices → Config
service_config services = record no_config {
  trunk = some services.trunk;
  l3 = some services.l3;
  isb = some services.isb;
  bridge = some services.bridge;
  p2p = some services.p2p;
  fw = some services.fw;
}

-- The application section, to which the source follows the pointer unchecked.
abbrev pub app_of : Config → Result AppSection
app_of cfg = elim cfg.app [ none ↦ err nil_dereference | some app ↦ ok app ]

-- The error that a deferred function sees: none of a panic.
abbrev pub deferred_error : Result (Unit {0}) → Option Error
deferred_error (ok _) = none
deferred_error (err e) = if is_panic e then none else some e

abbrev pub check_tunnels : Bool → PonySection → Action (Unit {0})
check_tunnels cpe pony = if cpe then check_hub_tunnels pony.clusters else done

abbrev pub check_connection : Bool → Action (Unit {0})
check_connection wanted = if wanted then check_websocket_connection 10 else done

module _ (env : Env) (init : InitConfig) where
  -- `InitDevice` from the check of the tunnels on.
  abbrev pub check_and_install : Action (Unit {0})
  check_and_install = do
    check_tunnels (is_cpe env) init.pony
    check_connection (is_cpe env || is_hub env)
    call (update_config (service_config init.services))

  -- `InitDevice` from the first write of the configuration on.
  abbrev pub set_up_app : AppSection → Action (Unit {0})
  set_up_app app = do
    call (update_config (record no_config { app = some (new_app init app) }))
    call (update_hostname app.serial_number)
    set_apt_source env.cli_ext init.apt_source
    call (update_config (net_config init.wireguard init.net_init init.pony))
    call (configure_agent init.of_controller_host)
    check_and_install

  -- `InitDevice` from the reading of the configuration on.
  abbrev pub set_up : Action (Unit {0})
  set_up = do old ← query config; app ← lift (app_of old); set_up_app app

  -- With the pony service paused, and with the two events round it.
  abbrev pub set_up_paused : Action (Unit {0})
  set_up_paused = tell pony_pause (catch set_up (λ r. tell pony_resume (lift r)))

  abbrev pub set_up_announced : Action (Unit {0})
  set_up_announced =
      tell emit_started
        (catch set_up_paused (λ r. tell (emit_finished (deferred_error r)) (lift r)))

  -- The result, and the flag that a deferred function takes back. A panic goes on to the deferred
  -- functions that are left, and then ends the process.
  abbrev pub cleared : InitState → Result (Unit {0}) → Action (Option Error × InitState)
  cleared st (ok _) = ret (none, record st { initializing = false })
  cleared st (err e) =
      if is_panic e then fail e else ret (some e, record st { initializing = false })

  -- The guard on `isInitializing`.
  abbrev pub init_unless : Bool → InitState → Action (Option Error × InitState)
  init_unless true st = ret (some (reason "InitDevice: device already initializing"), st)
  init_unless false st = catch set_up_announced (cleared st)

  -- The send to a first setup. If nobody receives it, the goroutine stays here with the lock.
  abbrev pub send_first_init :
      Option Error → Action (Option Error × InitState) → Action (Option Error × InitState)
  send_first_init e next =
      attempt (signal_first_init e) (elim [ none ↦ next | some _ ↦ fail never_received ])

  -- The deferred function that wakes a first setup; a panic runs it with no error.
  abbrev pub wake_first_init : Result (Option Error × InitState) → Action (Option Error × InitState)
  wake_first_init (ok (e, st)) = send_first_init e (ret (e, record st { first_init = false }))
  wake_first_init (err p) = send_first_init none (fail p)

  -- A transaction of its own is finished last; a panic finishes it with no error.
  abbrev pub finish : Result (Option Error × InitState) → Action (Option Error × InitState)
  finish (ok (e, st)) = ask (finish_transaction e) (λ e'. ret (e', st))
  finish (err p) = ask (finish_transaction none) (λ _. fail p)

  abbrev pub start_and_init : InitState → Action (Option Error × InitState)
  start_and_init st =
      attempt start_transaction
        (elim [ some e ↦ ret (some e, st) | none ↦ catch (init_unless st.initializing st) finish ])

  abbrev pub init_in : Bool → InitState → Action (Option Error × InitState)
  init_in true st = catch (init_unless st.initializing st) wake_first_init
  init_in false st = start_and_init st

  -- `InitDevice`: its error, and what the service keeps afterwards.
  abbrev pub init_device : InitState → Action (Option Error × InitState)
  init_device st = init_in st.first_init st
