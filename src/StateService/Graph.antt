-- ===== src/StateService/Graph.antt =====
-- The transition diagram of the agent: the edges that the handlers' `ValidateTransition` accept.
use sdwan_agent.Prelude.{◌≡◌, refl, Option, none, some}
use sdwan_agent.Entities.{
  AppState, boot, init, active, update_config, maintenance, ztp_setup, reset, unknown,
}
use sdwan_agent.Handlers.Interface.{StateHandler, Env}
use sdwan_agent.StateService.{find_handler}
use sdwan_agent.StateService.Wiring.{agent_handlers}

-- `Allowed from to`
pub data Allowed : AppState → AppState → Type 0 where
  any_boot : {s : AppState} → Allowed s boot
  any_active : {s : AppState} → Allowed s active
  boot_init : Allowed boot init
  ztp_setup_init : Allowed ztp_setup init
  reset_init : Allowed reset init
  boot_update_config : Allowed boot update_config
  active_update_config : Allowed active update_config
  boot_maintenance : Allowed boot maintenance
  active_maintenance : Allowed active maintenance
  boot_ztp_setup : Allowed boot ztp_setup
  init_ztp_setup : Allowed init ztp_setup
  boot_reset : Allowed boot reset
  init_reset : Allowed init reset
  active_reset : Allowed active reset

-- The found handler accepts the state that is left.
abbrev pub Accepts : Option StateHandler → AppState → Type 0
Accepts none from = ⊥
Accepts (some h) from = h.validate_transition from ≡ none

module _ (env : Env) where
  abbrev found_handler : AppState → Option StateHandler
  found_handler to = find_handler to (agent_handlers env)

  pub Accepts-Allowed : (to from : AppState) → Accepts (found_handler to) from → Allowed from to
  unfolding find_handler agent_handlers
  Accepts-Allowed boot from h = any_boot
  Accepts-Allowed active from h = any_active
  Accepts-Allowed init boot h = boot_init
  Accepts-Allowed init ztp_setup h = ztp_setup_init
  Accepts-Allowed init reset h = reset_init
  Accepts-Allowed update_config boot h = boot_update_config
  Accepts-Allowed update_config active h = active_update_config
  Accepts-Allowed maintenance boot h = boot_maintenance
  Accepts-Allowed maintenance active h = active_maintenance
  Accepts-Allowed ztp_setup boot h = boot_ztp_setup
  Accepts-Allowed ztp_setup init h = init_ztp_setup
  Accepts-Allowed reset boot h = boot_reset
  Accepts-Allowed reset init h = init_reset
  Accepts-Allowed reset active h = active_reset
  Accepts-Allowed (unknown u) from h = absurd h
  Accepts-Allowed _ _ h = cc

  pub Allowed-Accepts : {from to : AppState} → Allowed from to → Accepts (found_handler to) from
  unfolding find_handler agent_handlers
  Allowed-Accepts any_boot = refl
  Allowed-Accepts any_active = refl
  Allowed-Accepts _ = refl
