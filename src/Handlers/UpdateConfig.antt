-- ===== src/Handlers/UpdateConfig.antt =====
-- internal/domains/appstate/handlers/update_config.go: a new configuration is applied.
pub mod Resumes
use sdwan_agent.Prelude.{
  Bool, true, false, not, ◌||◌, Option, none, some, List, [], ◌∷◌, map, if◌then◌else◌,
}
use sdwan_agent.Config.{Config, Cluster, PonySection, no_config, empty_section}
use sdwan_agent.Errors.{
  Error, ok, err, invalid_transition_type, transition_not_supported, all_tunnels_down,
}
use sdwan_agent.Entities.{
  AppState, Transition, boot, active, update_config, on_after_boot, on_update_config,
  on_rebuild_services, on_fallback, on_update_config_finished,
}
use sdwan_agent.Action.{
  Action, ret, fail, ask, tell, done, call, call_logged, query, catch, ◌>>=◌, ◌>>◌, lift,
}
use sdwan_agent.Action.Calls.{
  config, update_config as update_config_with_tx, pony_pause, pony_resume, sync_hosts,
  any_tunnel_up,
}
use sdwan_agent.Websocket
use sdwan_agent.Handlers.Interface.{StateHandler, Env, is_cpe}

-- `ValidateTransition`.
abbrev pub validate_transition : AppState → Option Error
validate_transition active = none
validate_transition boot = none
validate_transition _ = some transition_not_supported

-- The error of a websocket call is only logged.
abbrev pub start_logged : Action (Unit {0})
start_logged = catch Websocket.start (λ _. done)

abbrev pub stop_logged : Action (Unit {0})
stop_logged = catch Websocket.stop (λ _. done)

-- The services of a configuration, which `rebuildServices` empties and writes again.
abbrev pub services_of : Config → Config
services_of cfg = record no_config {
  trunk = cfg.trunk;
  p2p = cfg.p2p;
  bridge = cfg.bridge;
  isb = cfg.isb;
  l3 = cfg.l3;
  fw = cfg.fw;
}

abbrev pub emptied_services : Config
emptied_services = record no_config {
  trunk = some empty_section;
  p2p = some empty_section;
  bridge = some empty_section;
  isb = some empty_section;
  l3 = some empty_section;
  fw = some empty_section;
}

-- `rebuildServices`.
abbrev pub rebuild_services : Action (Unit {0})
rebuild_services = do
  cfg ← query config
  call (update_config_with_tx emptied_services)
  call (update_config_with_tx (services_of cfg))

-- `checkHubTunnels`: the first cluster's uplinks are pinged; with no cluster nothing is checked.
abbrev pub check_clusters : List Cluster → Action (Unit {0})
check_clusters [] = done
check_clusters (cluster ∷ _) =
    ask (any_tunnel_up (map (λ u. u.monitor_addr) cluster.uplinks))
      (λ up. if up then done else fail all_tunnels_down)

abbrev pub check_hub_tunnels : PonySection → Action (Unit {0})
check_hub_tunnels pony = check_clusters pony.clusters

abbrev pub changed : {A : Type 0} → (Option A → A → Bool) → Option A → Option A → Bool
changed compare old none = false
changed compare old (some new) = not (compare old new)

module _ (env : Env) where
  -- `isPortConfigurationChanged`.
  abbrev pub is_port_configuration_changed : Config → Config → Bool
  is_port_configuration_changed old new =
      changed env.port_compare old.port new.port
      || changed env.admin_state_compare old.admin_state new.admin_state

  -- The publisher and the pony service rest while ports change.
  abbrev pub pause_if : Bool → Action (Unit {0})
  pause_if false = done
  pause_if true = tell pony_pause stop_logged

  -- The configuration is written; if that fails, what was paused goes on.
  abbrev pub write_or_resume : Bool → Config → Action (Unit {0})
  write_or_resume false new = call (update_config_with_tx new)
  write_or_resume true new =
      catch (call (update_config_with_tx new))
        (elim [ ok _ ↦ done | err e ↦ tell pony_resume (do start_logged; fail e) ])

  abbrev pub sync_hosts_if : Bool → Action (Unit {0})
  sync_hosts_if false = done
  sync_hosts_if true = call_logged sync_hosts

  abbrev pub check_tunnels_if : Bool → Option PonySection → Action (Unit {0})
  check_tunnels_if false _ = done
  check_tunnels_if true none = done
  check_tunnels_if true (some pony) = check_hub_tunnels pony

  -- The end of `updateConfig` after a change of ports; the deferred start comes last on each path.
  abbrev pub resume_if : Bool → Config → Action (Unit {0})
  resume_if false new = done
  resume_if true new =
      tell pony_resume
        (catch (check_tunnels_if (is_cpe env) new.pony) (λ r. do start_logged; lift r))

  -- `updateConfig`.
  abbrev pub update_config_from : Config → Action (Unit {0})
  update_config_from new = do
    old ← query config
    let ports_changed : Bool = is_port_configuration_changed old new
    pause_if ports_changed
    write_or_resume ports_changed new
    sync_hosts_if (changed env.app_compare old.app new.app)
    resume_if ports_changed new

  -- `Handle`.
  abbrev pub handle : Transition → Action (Option Transition)
  handle (on_after_boot _) = ret (some on_fallback)
  handle (on_update_config new) = do update_config_from new; ret (some on_update_config_finished)
  handle on_rebuild_services = do rebuild_services; ret (some on_update_config_finished)
  handle _ = fail invalid_transition_type

  abbrev pub on_exit : Transition → Action (Unit {0})
  on_exit _ = done

  abbrev pub update_config_handler : StateHandler
  update_config_handler = record {
    state_id = update_config;
    validate_transition = validate_transition;
    handle = handle;
    on_exit = on_exit;
  }
