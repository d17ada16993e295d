-- ===== src/StateService/Chain.antt =====
-- The loop over follow-up transitions ends: a transition that a handler asks for asks for none.
use sdwan_agent.Prelude.{
  List, subst, ◌≤◌, ◌≡◌, refl, ℕ, zero, suc, ◌<◌, Bool, true, false, Option, none, some, arith,
  if◌then◌else◌,
}
use sdwan_agent.Errors.{Result, ok, err}
use sdwan_agent.Entities.{
  AppState, boot, init, active, update_config, maintenance, ztp_setup, reset, unknown, Transition,
  on_after_boot, on_first_setup, on_migrate_from_old_version, on_fallback,
  on_update_config_finished, on_update_device_finished, on_update_config, on_rebuild_services,
  on_update_device, on_reset, on_ztp_setup_finished, on_ztp_setup_interrupted, on_init_fallback,
  on_hub_reset_finished, on_ztp_setup_config, on_hub_set_port, on_hub_delete_port, to_state,
}
use sdwan_agent.Handlers.Interface.{StateHandler, Env, is_hub}
use sdwan_agent.Action.{Action, ret, error_of}
use sdwan_agent.Handlers.Init
use sdwan_agent.Handlers.Active
use sdwan_agent.Handlers.Maintenance
use sdwan_agent.Handlers.UpdateConfig
use sdwan_agent.Handlers.ZtpSetup
use sdwan_agent.Handlers.Reset
use sdwan_agent.Machine.Rules.{
  Bind, Ensures-Bind, Ensures-catch, Ensures-always, Ensures-then, Ensures-if,
}
use sdwan_agent.Machine.{Agent, Event, Services}
use sdwan_agent.Machine.Laws.{TransactionLaws}
use sdwan_agent.Machine.Views.{Ensures, Holds, run-Ensures}
use sdwan_agent.StateService.{find_handler, perform_transition, run_chain, follow}
use sdwan_agent.StateService.Wiring.{agent_handlers}
use sdwan_agent.StateService.Steps.{perform-Entered}

-- How many follow-up transitions may come after this one.
abbrev pub stage : Transition → ℕ
stage (on_after_boot _) = 1
stage (on_update_config _) = 1
stage on_rebuild_services = 1
stage (on_update_device _) = 1
stage on_reset = 1
stage (on_ztp_setup_config _) = 1
stage (on_hub_set_port _) = 1
stage (on_hub_delete_port _) = 1
stage _ = 0

-- The view that sees nothing.
abbrev pub no_view : Event → Unit {0} → Unit {0}
no_view _ _ = tt

-- Where a transition that asks for no other one may leave the agent: in its two working states; a
-- device that is no hub stays in the reset state until its reboot.
abbrev pub Rests : Env → Transition → AppState → Type 0
Rests env t init = Unit
Rests env t active = Unit
Rests env t reset = (t ≡ on_reset) × (is_hub env ≡ false)
Rests env t boot = t ≡ on_after_boot boot
Rests env t _ = ⊥

abbrev pub Lowers : Env → Transition → Result (Option Transition) → Unit {0} → Type 0
Lowers env t (err e) _ = Unit
Lowers env t (ok none) _ = Rests env t (to_state t)
Lowers env t (ok (some t')) _ = stage t' < stage t

abbrev Asks : Env → Transition → Option StateHandler → Type 0
Asks env t none = Unit
Asks env t (some h) = Ensures no_view (h.handle t) (Lowers env t) tt

-- The end of a maintenance asks for a transition of stage 0.
reports :
    (env : Env) (t : Transition) (r : Result (Unit {0}))
    → 0 < stage t
    → Ensures no_view (Maintenance.report r) (Lowers env t) tt
reports env t r h =
    Ensures-catch no_view (Maintenance.send_install_finished (error_of r)) _ _ tt
      (Ensures-always no_view (Maintenance.send_install_finished (error_of r)) _ tt (λ _ _. h))

abbrev fall_back : Bool → Action (Option Transition)
fall_back was_init = ret (some (if was_init then on_init_fallback else on_fallback))

falls :
    (env : Env) (r : Result Bool) (w : Unit {0})
    → Bind no_view fall_back (Lowers env (on_after_boot reset)) r w
falls env (ok true) w = omega arith
falls env (ok false) w = omega arith
falls env (err e) w = tt

module _ (env : Env) where
  asks : (t : Transition) → Asks env t (find_handler (to_state t) (agent_handlers env))
  unfolding find_handler agent_handlers
  asks (on_after_boot boot) = refl
  asks (on_after_boot init) =
      Ensures-if no_view (Init.check_migrate_from_old_version env.device_id) _ _ _ tt
        (λ _. omega arith)
        (λ _. Ensures-then no_view (Init.restore_init_state env) none _ tt (λ _. tt) (λ _ _. tt))
  asks (on_after_boot active) =
      Ensures-then no_view Active.restore_active_state none _ tt (λ _. tt) (λ _ _. tt)
  asks (on_after_boot update_config) = omega arith
  asks (on_after_boot maintenance) =
      Ensures-catch no_view Maintenance.wait_install_finished_after_boot Maintenance.report _ tt (
        Ensures-always no_view Maintenance.wait_install_finished_after_boot _ tt
          (λ r _. reports env (on_after_boot maintenance) r (omega arith)))
  asks (on_after_boot ztp_setup) = omega arith
  asks (on_after_boot reset) =
      Ensures-Bind no_view Reset.was_init_state fall_back _ tt
        (Ensures-always no_view Reset.was_init_state _ tt (falls env))
  asks (on_after_boot (unknown u)) = tt
  asks (on_first_setup serial addresses) =
      Ensures-then no_view (Active.run_first_setup env serial addresses) none _ tt (λ _. tt)
        (λ _ _. tt)
  asks (on_migrate_from_old_version serial address) =
      Ensures-then no_view (Active.migrate_from_old_version serial address) none _ tt (λ _. tt)
        (λ _ _. tt)
  asks on_fallback =
      Ensures-then no_view Active.restore_active_state none _ tt (λ _. tt) (λ _ _. tt)
  asks on_update_config_finished = omega arith
  asks (on_update_device_finished e) = omega arith
  asks (on_update_config cfg) =
      Ensures-then no_view (UpdateConfig.update_config_from env cfg) _ _ tt (λ _. omega arith)
        (λ _ _. tt)
  asks on_rebuild_services = omega arith
  asks (on_update_device request) =
      Ensures-catch no_view (Maintenance.update_device request) Maintenance.report _ tt (
        Ensures-always no_view (Maintenance.update_device request) _ tt
          (λ r _. reports env (on_update_device request) r (omega arith)))
  asks on_reset =
      Ensures-if no_view (is_hub env) _ _ _ tt
        (λ _. Ensures-then no_view (Reset.reset_hub env) _ _ tt (λ _. omega arith) (λ _ _. tt))
        (λ p. Ensures-then no_view (Reset.reset_device env) none _ tt (λ _. (refl, p)) (λ _ _. tt))
  asks on_ztp_setup_finished = omega arith
  asks on_ztp_setup_interrupted =
      Ensures-then no_view (Init.restore_init_state env) none _ tt (λ _. tt) (λ _ _. tt)
  asks on_init_fallback =
      Ensures-then no_view (Init.restore_init_state env) none _ tt (λ _. tt) (λ _ _. tt)
  asks on_hub_reset_finished = omega arith
  asks (on_ztp_setup_config cfg) = omega arith
  asks (on_hub_set_port port) =
      Ensures-then no_view (ZtpSetup.set_hub_port env port) _ _ tt (λ _. omega arith) (λ _ _. tt)
  asks (on_hub_delete_port name) = omega arith

  module _ (s : Services) (laws : TransactionLaws s) where
    abbrev hs : List StateHandler
    hs = agent_handlers env

    -- A transition that a handler asks for has a lower stage.
    pub stage-perform :
        (t t' : Transition) (g : Agent) {g' : Agent}
        → perform_transition s hs t g ≡ (ok (some t'), g')
        → stage t' < stage t
    stage-perform t t' g e =
        let (h, _, found, entered) = perform-Entered s hs t g e in
        subst (Holds no_view tt (Lowers env t)) entered.handled (
          run-Ensures no_view tt s laws (h.handle t) (Lowers env t) entered.updated
            (subst (Asks env t) found (asks t)))

    pub perform-Rests :
        (t : Transition) (g : Agent) {g' : Agent}
        → perform_transition s hs t g ≡ (ok none, g')
        → Rests env t (to_state t)
    perform-Rests t g e =
        let (h, _, found, entered) = perform-Entered s hs t g e in
        subst (Holds no_view tt (Lowers env t)) entered.handled (
          run-Ensures no_view tt s laws (h.handle t) (Lowers env t) entered.updated
            (subst (Asks env t) found (asks t)))

    -- The outcome of a chain, whatever fuel above the stage it is given.
    follow_total :
        (n : ℕ) (t : Transition) (g : Agent) (p : Result (Option Transition) × Agent)
        → perform_transition s hs t g ≡ p
        → stage t ≤ n
        → ((t' : Transition) (g' : Agent)
            → stage t' < n
            → (r : Result (Unit {0}) × Agent) × ((fuel : ℕ)
                → n ≤ fuel
                → run_chain s hs fuel t' g' ≡ some r))
        → (r : Result (Unit {0}) × Agent) × ((fuel : ℕ)
            → n ≤ fuel
            → follow s hs (run_chain s hs fuel) p ≡ some r)
    follow_total n t g (err x, g') e b ih = ((err x, g'), λ _ _. refl)
    follow_total n t g (ok none, g') e b ih = ((ok tt, g'), λ _ _. refl)
    follow_total n t g (ok (some t'), g') e b ih = ih t' g' (omega (arith, stage-perform t t' g e))

    pub run_chain-total :
        (n : ℕ) (t : Transition) (g : Agent)
        → stage t < n
        → (r : Result (Unit {0}) × Agent) × ((fuel : ℕ)
            → n ≤ fuel
            → run_chain s hs fuel t g ≡ some r)
    unfolding run_chain
    run_chain-total zero t g h = absurd (omega arith)
    run_chain-total (suc n) t g h =
        let (r, all) =
          follow_total n t g (perform_transition s hs t g) refl (omega arith)
            (λ t' g' h'. run_chain-total n t' g' h') in
        (r, elim [ zero ↦ λ le. absurd (omega arith) | suc fuel ↦ λ le. all fuel (omega arith) ])
