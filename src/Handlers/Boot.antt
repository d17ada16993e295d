-- ===== src/Handlers/Boot.antt =====
-- internal/domains/appstate/handlers/boot.go.
use sdwan_agent.Prelude.{none}
use sdwan_agent.Entities.{boot}
use sdwan_agent.Action.{ret, done}
use sdwan_agent.Handlers.Interface.{StateHandler}

-- The boot state accepts every transition and does nothing.
abbrev pub boot_handler : StateHandler
boot_handler = record {
  state_id = boot;
  validate_transition = λ _. none;
  handle = λ _. ret none;
  on_exit = λ _. done;
}
