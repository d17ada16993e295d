-- ===== src/StateService/Wiring.antt =====
-- infrastructure/services.go, `BuildAppStateService`: the handlers of the agent.
use sdwan_agent.Prelude.{List, [], ◌∷◌}
use sdwan_agent.Handlers.Interface.{StateHandler, Env}
use sdwan_agent.Handlers.Boot.{boot_handler}
use sdwan_agent.Handlers.Init.{init_handler}
use sdwan_agent.Handlers.Active.{active_handler}
use sdwan_agent.Handlers.UpdateConfig.{update_config_handler}
use sdwan_agent.Handlers.Maintenance.{maintenance_handler}
use sdwan_agent.Handlers.ZtpSetup.{ztp_setup_handler}
use sdwan_agent.Handlers.Reset.{reset_handler}

unfoldable pub agent_handlers : Env → List StateHandler
agent_handlers env =
    boot_handler
    ∷ init_handler env
    ∷ active_handler env
    ∷ update_config_handler env
    ∷ maintenance_handler
    ∷ ztp_setup_handler env
    ∷ reset_handler env
    ∷ []
