-- ===== src/Machine/Laws.antt =====
-- What the agent relies on of the transactions of the activity service.
use sdwan_agent.Prelude.{◌≡◌, Option, none, some, List, [], ◌∷◌, if◌then◌else◌}
use sdwan_agent.Errors.{Error, Result}
use sdwan_agent.Entities.{same, boot}
use sdwan_agent.Action.{Action, call, error_of}
use sdwan_agent.Action.Calls.{
  Effect, activate, deactivate, activate_handler, deactivate_handler, websocket_start,
  websocket_stop,
}
use sdwan_agent.Websocket
use sdwan_agent.Machine.{Agent, Services, Func, effect, enter, restore, run}

-- The bodies of the functions that the handlers hand to `ExecuteFunc`.
abbrev pub effect_body : Effect → Action (Unit {0})
effect_body (activate_handler s) = call (activate s)
effect_body (deactivate_handler s) = call (deactivate s)
effect_body websocket_start = Websocket.start
effect_body websocket_stop = Websocket.stop

abbrev pub returned : {A : Type 0} → Result A × Agent → Option Error × Agent
returned (r, g) = (error_of r, g)

-- Running a function of a transaction. `restore` is the undo function of `updateAppState`, which
-- never goes back to the boot state.
unfoldable pub run_func : Services → Func → Agent → Option Error × Agent
unfolding run
run_func s (effect e) g = returned (run s (effect_body e) g)
run_func s (enter new) g = (none, record g { active_state = new })
run_func s (restore old) g = (none, if same old boot then g else record g { active_state = old })

abbrev pub keep_rollback : Func → Option Error × Agent → Option Error × Agent
keep_rollback rl (none, g) = (none, record g { rollbacks = rl ∷ g.rollbacks })
keep_rollback rl (some e, g) = (some e, g)

-- All undo functions run, the last one first, whatever they return (the strategy "skip on fail").
unfoldable pub roll_back : Services → List Func → Agent → Agent
roll_back s [] g = g
roll_back s (f ∷ fs) g = roll_back s fs (run_func s f g).1

-- `ExecuteFunc` runs its first function and, if that succeeds, keeps the second for the rollback.
-- `FinishTransaction` keeps what was done if it is given no error, and otherwise rolls back and
-- returns the error.
pub record TransactionLaws (s : Services) : Type 0 where
  pub execute_lem :
      (fn rl : Func) (g : Agent) → s.execute_func fn rl g ≡ keep_rollback rl (run_func s fn g)
  pub commit_lem : (g : Agent) → (s.finish_transaction none g).1.active_state ≡ g.active_state
  pub commit_trace : (g : Agent) → (s.finish_transaction none g).1.trace ≡ g.trace
  pub abort_lem :
      (e : Error) (g : Agent)
      → (s.finish_transaction (some e) g).1.active_state ≡ (roll_back s g.rollbacks g).active_state
  pub abort_error : (e : Error) (g : Agent) → (s.finish_transaction (some e) g).0 ≡ some e
