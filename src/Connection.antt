-- ===== src/Connection.antt =====
-- internal/domains/connection and internal/domains/discovery/monitoring: the websocket connection is
-- built to the primary orchestrator, and built again when another one becomes primary.
pub mod Follows
use sdwan_agent.Prelude.{
  String, Bool, true, false, not, ◌&&◌, Option, none, some, List, [], is_blank, is_empty, str_eq,
  has_prefix, if◌then◌else◌, ◌∷◌,
}
use sdwan_agent.Config.{Config, AppSection, no_config}
use sdwan_agent.Errors.{Error, Result, ok, err, nil_dereference, reason, split_brain}
use sdwan_agent.Action.{
  Action, ret, fail, fetch, ask, tell, done, call, query, lift, or_return, ◌>>=◌, ◌>>◌,
}
use sdwan_agent.Action.Calls.{
  config, fetch_primary_of, discovery_hosts, dial, update_config_now, publisher_active,
  publisher_reconnect, publish_request, uplink_state_changed,
}
use sdwan_agent.NsLookup.{Texts}
use sdwan_agent.Requests.Configs.{sent_error}
use sdwan_agent.DeviceInit.{app_of}

-- `lo.IsEmpty` of a text is an error, and so is a section that is missing.
abbrev pub required : String → String → Result String
required message found = if is_blank found then err (reason message) else ok found

abbrev pub app_required : Config → Result AppSection
app_required cfg = elim cfg.app [
  | none ↦ err (reason "device app configuration is missing")
  | some app ↦ ok app
]

-- `SenderID`.
abbrev pub sender_id : Action String
sender_id = do
  cfg ← query config
  app ← lift (app_required cfg)
  lift (required "SenderID: serial number for device is not set" app.serial_number)

abbrev pub scheme : String → String
scheme addr = if has_prefix addr "https" then "wss" else "ws"

-- `BuildConn` after the connection is built: the address is stored. The source follows the pointer to
-- the section unchecked.
abbrev pub store_active : String → Action (Unit {0})
store_active addr = do
  old ← query config
  app ← lift (app_of old)
  call (
      update_config_now
        (record no_config { app = some (record app { active_orchestrator_addr = addr }) }))

module _ (texts : Texts) where
  abbrev pub connect : AppSection → String → Action (Unit {0})
  connect app primary_host = do
    device_id ← lift (required "BuildConn: serial number is not set" app.serial_number)
    addr ← lift (required "BuildConn: orchestrator address is not set" primary_host)
    query (dial (scheme addr) (texts.strip_schemas addr) device_id)
    store_active addr

  -- `BuildConn`.
  abbrev pub build_conn : Action (Unit {0})
  build_conn = do
    cfg ← query config
    app ← lift (app_required cfg)
    ask (fetch_primary_of app.orchestrator_addrs)
        (λ found. do or_return found.1; connect app found.0)

-- `IsConnectionAlive`, `OnTunnelStateChanged` and `Reconnect` of the connection service.
abbrev pub is_connection_alive : Action Bool
is_connection_alive = ask publisher_active ret

abbrev pub on_tunnel_state_changed : Action (Unit {0})
on_tunnel_state_changed =
    fetch (publish_request uplink_state_changed none) (λ r. or_return (sent_error r))

abbrev pub reconnect : Action (Unit {0})
reconnect = tell publisher_reconnect done

-- `errors.Is(err, errs.ErrSplitBrain)`.
abbrev pub is_split_brain : Error → Bool
is_split_brain split_brain = true
is_split_brain _ = false

-- A tick of the monitoring service, from the answer about the primary on.
abbrev pub reconnect_if : Bool → Action (Unit {0})
reconnect_if b = if b then reconnect else done

abbrev pub on_primary : String → String × Option Error → Action (Unit {0})
on_primary active_addr (primary, some e) = reconnect_if (is_split_brain e)
on_primary active_addr (primary, none) =
    if str_eq primary active_addr then done else ask publisher_active reconnect_if

abbrev pub check_hosts : String → List String → Action (Unit {0})
check_hosts active_addr hosts =
    if is_empty hosts then done else ask (fetch_primary_of hosts) (on_primary active_addr)

abbrev pub check_app : AppSection → Action (Unit {0})
check_app app =
    if is_blank app.active_orchestrator_addr
    then done
    else ask discovery_hosts (check_hosts app.active_orchestrator_addr)

-- A tick; an error of the configuration is only logged, and the source follows the pointer to the
-- section unchecked.
abbrev pub check_config : Result Config → Action (Unit {0})
check_config (err e) = done
check_config (ok cfg) = lift (app_of cfg) >>= check_app

abbrev pub monitor : Action (Unit {0})
monitor = fetch config check_config

-- What the `select` of the monitoring's loop receives.
pub data Monitored : Type 0 where
  cancelled tick : Monitored

-- The loop of `Start`, over what it receives in turn; at the end of a list it waits.
abbrev pub start_monitoring : List Monitored → Action (Unit {0})
start_monitoring [] = done
start_monitoring (cancelled ∷ received) = done
start_monitoring (tick ∷ received) = do monitor; start_monitoring received
