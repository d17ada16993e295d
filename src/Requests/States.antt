-- ===== src/Requests/States.antt =====
-- The handlers that report states and packages: internal/domains/updatemanager, `GetActiveState` of
-- internal/domains/appstate/ws_handler.go and internal/domains/pony/handler.go.
use sdwan_agent.Prelude.{
  String, Bool, false, Option, none, some, List, [], ◌∷◌, map, str_eq, if◌then◌else◌,
}
use sdwan_agent.Config.{PonySection, Cluster, Uplink}
use sdwan_agent.Errors.{Result, ok, err, reason}
use sdwan_agent.Entities.{PackageItem, InstallPackageRequest, on_update_device}
use sdwan_agent.Objects.Bodies.{
  Body, TunnelState, ClusterStates, PackageVersion, empty_body, active_state, tunnel_states,
  package_versions,
}
use sdwan_agent.Action.{Action, ret, ask, done, call, query, lift, or_return, ◌>>=◌, ◌>>◌}
use sdwan_agent.Action.Calls.{
  config, current_state, download_request, versions_request, perform, publish_response, run_command,
  text,
}
use sdwan_agent.Requests.{Incoming, Job, unmarshal_valid, respond, with_error_response}

-- `SetAptSource`.
abbrev pub set_apt_source : String → String → Action (Unit {0})
set_apt_source cli source = call (
    run_command
      (text cli ∷ text "update-manager" ∷ text "set-apt-source" ∷ text "-s" ∷ text source ∷ []))

-- `Download`: the response is decoded, and may be an error itself.
abbrev pub download : List PackageItem → Action (Unit {0})
download request = do response ← query (download_request request); e ← lift response; or_return e

-- `Install`.
abbrev pub install : InstallPackageRequest → Action (Unit {0})
install request = call (perform (on_update_device request))

-- `GetVersions`.
abbrev pub get_versions : Action (List PackageVersion)
get_versions = do
  response ← query versions_request
  decoded ← lift response
  or_return decoded.0
  ret decoded.1

-- `DownloadDevicePackages`, `InstallDevicePackages` and `GetPackagesVersions`.
abbrev pub download_device_packages : Incoming (List PackageItem) → Action Job
download_device_packages i =
    with_error_response (do request ← unmarshal_valid i; download request; respond empty_body)

-- The installation begins after the response, in the handler itself.
abbrev pub install_device_packages : Incoming InstallPackageRequest → Action Job
install_device_packages i =
    with_error_response (do
      request ← unmarshal_valid i
      call (publish_response empty_body)
      install request
      ret done)

abbrev pub get_packages_versions : Action Job
get_packages_versions =
    with_error_response (do versions ← get_versions; respond (package_versions versions))

-- `GetActiveState`.
abbrev pub get_active_state : Action Job
get_active_state = with_error_response (ask current_state (λ state. respond (active_state state)))

-- The look-up in the map `LocalStates`: false without an entry.
abbrev pub local_state : List (String × Bool) → String → Bool
local_state [] addr = false
local_state ((a, b) ∷ states) addr = if str_eq a addr then b else local_state states addr

-- The loops of `FetchTunnelStates`.
abbrev pub tunnel_state : Cluster → Uplink → TunnelState
tunnel_state c uplink = record {
  tunnel = uplink.monitor_addr;
  is_active = local_state c.local_states uplink.monitor_addr;
  hub_serial = uplink.hub_serial;
  table_id = uplink.table_id;
}

abbrev pub cluster_states : Cluster → ClusterStates
cluster_states c = record { network = c.network; states = map (tunnel_state c) c.uplinks }

abbrev pub all_tunnel_states : Option PonySection → Result Body
all_tunnel_states none = err (reason "FetchTunnelStates: pony configuration not set")
all_tunnel_states (some pony) = ok (tunnel_states (map cluster_states pony.clusters))

-- `FetchTunnelStates`.
abbrev pub fetch_tunnel_states : Action Job
fetch_tunnel_states =
    with_error_response
      (do cfg ← query config; body ← lift (all_tunnel_states cfg.pony); respond body)
