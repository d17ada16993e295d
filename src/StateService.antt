-- ===== src/StateService.antt =====
-- internal/domains/appstate/service.go: the state service. A transaction's start and end, and the
-- loop of `Run` over one received transition.
pub mod Wiring
pub mod Registration
pub mod Graph
pub mod Steps
pub mod Chain
pub mod Subjects
pub mod Guards
pub mod Runs
pub mod Rollback
pub mod Perform
pub mod Boot
pub mod Received
pub mod Crashes
use sdwan_agent.Prelude.{
  String, Bool, true, false, not, ℕ, zero, suc, Option, none, some, List, [], ◌∷◌, is_blank,
  if◌then◌else◌,
}
use sdwan_agent.Config.{Config, no_config}
use sdwan_agent.Errors.{
  Error, Result, ok, err, already_in_state, handler_not_found, duplicate_handler,
  boot_handler_missing, nil_dereference, is_panic,
}
use sdwan_agent.Entities.{
  AppState, Transition, boot, to_string, of_string, same, to_state, on_after_boot,
}
use sdwan_agent.Action.{Action, call, query}
use sdwan_agent.Action.Calls.{config, update_config}
use sdwan_agent.Handlers.Interface.{StateHandler}
use sdwan_agent.Machine.{Agent, Services, Func, enter, restore, run}
use sdwan_agent.Machine.Op.{Op, ◌>>=◌, ◌>>◌, raise, pure, check}

-- How a transition ends: with an answer, which is an error or none, or with a panic, which ends the
-- process without an answer.
pub data Finish : Type 0 where
  answered : Option Error → Finish
  crashed : Error → Finish

-- A lookup in `stateHandlers`.
unfoldable pub find_handler : AppState → List StateHandler → Option StateHandler
find_handler id [] = none
find_handler id (h ∷ hs) = if same h.state_id id then some h else find_handler id hs

abbrev pub is_some : {A : Type 0} → Option A → Bool
is_some none = false
is_some (some _) = true

-- The loop of `SetStateHandlers`; the process ends on a duplicate.
unfoldable pub register_handlers :
    List StateHandler → List StateHandler → Result (List StateHandler)
register_handlers registered [] = ok registered
register_handlers registered (h ∷ hs) =
    let rest = register_handlers (h ∷ registered) hs in
    if is_some (find_handler h.state_id registered) then err duplicate_handler else rest

abbrev require_state : AppState → Result (List StateHandler) → Result (List StateHandler)
require_state id (err e) = err e
require_state id (ok hs) = if is_some (find_handler id hs) then ok hs else err boot_handler_missing

-- `SetStateHandlers`; the active state is the boot state then.
unfoldable pub set_state_handlers : AppState → List StateHandler → Result (List StateHandler)
unfolding register_handlers find_handler
set_state_handlers active_state hs =
    require_state boot (require_state active_state (register_handlers [] hs))

module _ (s : Services) where
  abbrev pub execute_func : Func → Func → Op (Unit {0})
  execute_func fn rl g = let (r, g') = s.execute_func fn rl g in check r g'

  -- The configuration that `updateAppState` writes.
  abbrev pub stored_state : AppState → Config
  stored_state new = record no_config { app_state = some (to_string new) }

  -- `updateAppState`: the state is stored, then made active.
  unfoldable pub update_app_state : AppState → Op (Unit {0})
  update_app_state new = do
    run s (call (update_config (stored_state new)))
    λ g. execute_func (enter new) (restore g.active_state) g

  -- The active handler's `OnExit`; with no such handler the source only logs.
  unfoldable pub exit_active : Option StateHandler → Transition → Op (Unit {0})
  exit_active none t = pure tt
  exit_active (some h) t = run s (h.on_exit t)

  module _ (handlers : List StateHandler) where
    -- `performTransition` once the target's handler is found.
    unfoldable pub enter_state : StateHandler → Transition → Op (Option Transition)
    unfolding find_handler
    enter_state h t = do
      λ g. check (h.validate_transition g.active_state) g
      λ g. exit_active (find_handler g.active_state handlers) t g
      update_app_state (to_state t)
      run s (h.handle t)

    abbrev pub enter_found : Option StateHandler → Transition → Op (Option Transition)
    enter_found none t = raise handler_not_found
    enter_found (some h) t = enter_state h t

    -- `performTransition`.
    unfoldable pub perform_transition : Transition → Op (Option Transition)
    unfolding find_handler
    perform_transition t g =
        if same g.active_state (to_state t)
        then raise already_in_state g
        else enter_found (find_handler (to_state t) handlers) t g

    abbrev pub Outcome : Type 0
    Outcome = Option (Result (Unit {0}) × Agent)

    abbrev pub follow :
        (Transition → Agent → Outcome) → Result (Option Transition) × Agent → Outcome
    follow next (err e, g) = some (err e, g)
    follow next (ok none, g) = some (ok tt, g)
    follow next (ok (some t), g) = next t g

    -- The inner loop of `Run`: a handler may ask for a further transition. `none` means that the
    -- fuel ran out.
    unfoldable pub run_chain : ℕ → Transition → Agent → Outcome
    run_chain zero t g = none
    run_chain (suc fuel) t g = follow (run_chain fuel) (perform_transition t g)

    abbrev pub answer : Option Error × Agent → Finish × Agent
    answer q = (answered q.0, q.1)

    -- `Run` has no deferred function round a transition: a panic ends the process at once.
    abbrev pub finish_failed : Bool → Error → Agent → Finish × Agent
    finish_failed true e g = (crashed e, g)
    finish_failed false e g = answer (s.finish_transaction (some e) g)

    abbrev pub finish : Outcome → Option (Finish × Agent)
    finish none = none
    finish (some (ok _, g)) = some (answer (s.finish_transaction none g))
    finish (some (err e, g)) = some (finish_failed (is_panic e) e g)

    abbrev pub begin :
        (Outcome → Option (Finish × Agent))
        → (Agent → Outcome)
        → Option Error
        → Agent
        → Option (Finish × Agent)
    begin finish_with body (some e) g = some (answered (some e), g)
    begin finish_with body none g = finish_with (body (record g { rollbacks = [] }))

    -- What `Run` does with one received transition, and so what `Perform` returns.
    unfoldable pub perform : ℕ → Transition → Agent → Option (Finish × Agent)
    perform fuel t g = begin finish (run_chain fuel t) (s.start_transaction g.trace) g

    -- The state to go to from the boot state: the stored one, if there is any. The source follows
    -- the section's pointer unchecked.
    abbrev pub boot_target : AppState → Option String → Result AppState
    boot_target init_state none = err nil_dereference
    boot_target init_state (some text) = ok (if is_blank text then init_state else of_string text)

    abbrev pub boot_chain : ℕ → Result AppState × Agent → Outcome
    boot_chain fuel (err e, g) = some (err e, g)
    boot_chain fuel (ok target, g) = run_chain fuel (on_after_boot target) g

    unfoldable pub read_target : AppState → Op AppState
    read_target init_state = do
      cfg ← run s (query config)
      λ g. (boot_target init_state cfg.app_state, g)

    -- The deferred `FinishTransaction` runs on a panic too, and sees no error then.
    abbrev pub finish_boot_failed : Bool → Error → Agent → Finish × Agent
    finish_boot_failed true e g = (crashed e, (s.finish_transaction none g).1)
    finish_boot_failed false e g = answer (s.finish_transaction (some e) g)

    abbrev pub finish_boot : Outcome → Option (Finish × Agent)
    finish_boot none = none
    finish_boot (some (ok _, g)) = some (answer (s.finish_transaction none g))
    finish_boot (some (err e, g)) = some (finish_boot_failed (is_panic e) e g)

    -- `setActiveStateFromBoot`.
    unfoldable pub set_active_state_from_boot : ℕ → AppState → Agent → Option (Finish × Agent)
    set_active_state_from_boot fuel init_state g =
        begin finish_boot (λ g'. boot_chain fuel (read_target init_state g'))
          (s.start_transaction g.trace) g
