-- ===== src/StateService/Crashes.antt =====
-- When a transition ends the process: a panic in `Run` of internal/domains/appstate/service.go.
use sdwan_agent.Prelude.{◌≡◌, ℕ, true, none, some, List, []}
use sdwan_agent.Errors.{Error, err, is_panic}
use sdwan_agent.Entities.{Transition}
use sdwan_agent.Handlers.Interface.{StateHandler}
use sdwan_agent.Machine.{Agent, Services}
use sdwan_agent.StateService.{run_chain}

module _ (s : Services) (handlers : List StateHandler) where
  -- The transaction was started, and a step of the chain panicked with an error and an agent.
  abbrev pub Panicked : ℕ → Transition → Agent → Error → Agent → Type 0
  Panicked fuel t g e g' =
      (s.start_transaction g.trace ≡ none)
      × (run_chain s handlers fuel t (record g { rollbacks = [] }) ≡ some (err e, g'))
      × (is_panic e ≡ true)
