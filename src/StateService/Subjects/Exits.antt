-- ===== src/StateService/Subjects/Exits.antt =====
-- Leaving a state switches its subjects off.
use sdwan_agent.Prelude.{◌≡◌, refl, Bool, false, not, ◌&&◌, Option, none, some, arith}
use sdwan_agent.Errors.{Result, ok, err}
use sdwan_agent.Entities.{
  AppState, boot, init, active, update_config, maintenance, ztp_setup, reset, unknown, Transition,
  on_migrate_from_old_version,
}
use sdwan_agent.Action.Calls.{Subject}
use sdwan_agent.Handlers.Interface.{StateHandler, Env}
use sdwan_agent.Handlers.Init
use sdwan_agent.Handlers.Init.{init_subjects}
use sdwan_agent.Handlers.Active
use sdwan_agent.Handlers.Active.{active_subjects}
use sdwan_agent.Machine.Views.{Ensures}
use sdwan_agent.Machine.Quiet.{member, switch, Ensures-deactivate_each}
use sdwan_agent.StateService.{find_handler}
use sdwan_agent.StateService.Wiring.{agent_handlers}
use sdwan_agent.StateService.Subjects.Expected.{switched_on, expected}

not_and_self : (b : Bool) → not b && b ≡ false
not_and_self b = ground arith

and-false : (b : Bool) → b && false ≡ false
and-false b = ground arith

abbrev pub Off : Result (Unit {0}) → Bool → Type 0
Off (ok _) b = b ≡ false
Off (err e) b = Unit

module _ (x : Subject) where
  expected_off : (t : Transition) (a : AppState) → switched_on a x ≡ false → expected t a x ≡ false
  expected_off (on_migrate_from_old_version _ _) a h = refl
  expected_off _ a h = h

  abbrev pub Leaves : Transition → AppState → Option StateHandler → Type 0
  Leaves t a none = expected t a x ≡ false
  Leaves t a (some h) = Ensures (switch x) (h.on_exit t) Off (expected t a x)

  leaves_init :
      (env : Env) (t : Transition) → Ensures (switch x) (Init.on_exit env t) Off (expected t init x)
  leaves_init env (on_migrate_from_old_version _ _) = refl
  leaves_init env _ =
      Ensures-deactivate_each x init_subjects Off (member x init_subjects) (λ _ _. tt)
        (not_and_self (member x init_subjects))

  leaves_active :
      (env : Env) (t : Transition)
      → Ensures (switch x) (Active.on_exit env t) Off (expected t active x)
  leaves_active env (on_migrate_from_old_version _ _) =
      Ensures-deactivate_each x active_subjects Off false (λ _ _. tt)
        (and-false (not (member x active_subjects)))
  leaves_active env _ =
      Ensures-deactivate_each x active_subjects Off (member x active_subjects) (λ _ _. tt)
        (not_and_self (member x active_subjects))

  module _ (env : Env) where
    -- The subjects of a state are off when it is left.
    pub leaves : (t : Transition) (a : AppState) → Leaves t a (find_handler a (agent_handlers env))
    unfolding find_handler agent_handlers
    leaves t boot = expected_off t boot refl
    leaves t init = leaves_init env t
    leaves t active = leaves_active env t
    leaves t update_config = expected_off t update_config refl
    leaves t maintenance = expected_off t maintenance refl
    leaves t ztp_setup = expected_off t ztp_setup refl
    leaves t reset = expected_off t reset refl
    leaves t (unknown u) = expected_off t (unknown u) refl
