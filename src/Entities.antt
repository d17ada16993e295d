-- ===== src/Entities.antt =====
-- internal/entities/app_state.go: the states of the agent and the transitions between them, with
-- the packages of internal/entities/maintenance.go.
use sdwan_agent.Prelude.{String, Bool, true, false, Option, List, str_eq, if◌then◌else◌}
use sdwan_agent.Config.{Config, PortConfig}
use sdwan_agent.Errors.{Error}

-- The source's `AppState` is a string with seven named values; `unknown` is any other text, which
-- only a stored configuration can bring in.
pub data AppState : Type 0 where
  boot init active update_config maintenance ztp_setup reset : AppState
  unknown : String → AppState

-- The model's own coding of a state as a text. In the source a state is its text, so `String()` and
-- the conversion `entities.AppState(s)` change nothing.
unfoldable pub to_string : AppState → String
to_string boot = "boot"
to_string init = "init"
to_string active = "active"
to_string update_config = "update_config"
to_string maintenance = "maintenance"
to_string ztp_setup = "ztp_setup"
to_string reset = "reset"
to_string (unknown s) = s

-- The decoding of a text.
unfoldable pub of_string : String → AppState
of_string s =
    if str_eq s "boot"
    then boot
    else if str_eq s "init"
    then init
    else if str_eq s "active"
    then active
    else if str_eq s "update_config"
    then update_config
    else if str_eq s "maintenance"
    then maintenance
    else if str_eq s "ztp_setup"
    then ztp_setup
    else if str_eq s "reset"
    then reset
    else unknown s

-- `==` on states.
abbrev pub same : AppState → AppState → Bool
same boot boot = true
same init init = true
same active active = true
same update_config update_config = true
same maintenance maintenance = true
same ztp_setup ztp_setup = true
same reset reset = true
same (unknown s) (unknown t) = str_eq s t
same _ _ = false

-- internal/entities/maintenance.go: `PackageItem`, and the list of an `InstallPackageRequest`.
pub record PackageItem : Type 0 where
  pub name : String
  pub version : String
  pub previous_version : String
  pub is_new : Bool

abbrev pub InstallPackageRequest : Type 0
InstallPackageRequest = List PackageItem

-- The types that implement `IStateTransition`, with their data.
pub data Transition : Type 0 where
  on_after_boot : AppState → Transition
  on_first_setup : String → List String → Transition
  on_migrate_from_old_version : String → String → Transition
  on_fallback : Transition
  on_update_config_finished : Transition
  on_update_device_finished : Option Error → Transition
  on_update_config : Config → Transition
  on_rebuild_services : Transition
  on_update_device : InstallPackageRequest → Transition
  on_reset : Transition
  on_ztp_setup_finished : Transition
  on_ztp_setup_interrupted : Transition
  on_init_fallback : Transition
  on_hub_reset_finished : Transition
  on_ztp_setup_config : Config → Transition
  on_hub_set_port : PortConfig → Transition
  on_hub_delete_port : String → Transition

-- The `ToState` method of each.
abbrev pub to_state : Transition → AppState
to_state (on_after_boot s) = s
to_state (on_first_setup _ _) = active
to_state (on_migrate_from_old_version _ _) = active
to_state on_fallback = active
to_state on_update_config_finished = active
to_state (on_update_device_finished _) = active
to_state (on_update_config _) = update_config
to_state on_rebuild_services = update_config
to_state (on_update_device _) = maintenance
to_state on_reset = reset
to_state on_ztp_setup_finished = init
to_state on_ztp_setup_interrupted = init
to_state on_init_fallback = init
to_state on_hub_reset_finished = init
to_state (on_ztp_setup_config _) = ztp_setup
to_state (on_hub_set_port _) = ztp_setup
to_state (on_hub_delete_port _) = ztp_setup
