-- ===== src/StateService/Rollback.antt =====
-- A transition that fails leaves the agent in the state in which it was.
use sdwan_agent.Prelude.{
  ◌≡◌, ◌≢◌, refl, sym, ◌∙◌, subst, true, false, Option, none, some, List, if◌then◌else◌,
}
use sdwan_agent.Errors.{Error, Result, ok, err, already_in_state}
use sdwan_agent.Entities.{AppState, boot, same, Transition, to_state}
use sdwan_agent.Action.{Action}
use sdwan_agent.Action.Calls.{update_config as update_config_call}
use sdwan_agent.Handlers.Interface.{StateHandler}
use sdwan_agent.Machine.{Agent, Services, run}
use sdwan_agent.Machine.Op.{Op, continue, check}
use sdwan_agent.Machine.Laws.{TransactionLaws}
use sdwan_agent.Machine.Keeps.{undone, run-At}
use sdwan_agent.StateService.{
  find_handler, stored_state, exit_active, update_app_state, enter_state, enter_found,
  perform_transition,
}
use sdwan_agent.StateService.Steps.{stored, update_app_state_lem}

-- The rollback of what was done so far leads to `a0`.
abbrev pub LeadsTo : AppState → Agent → Type 0
LeadsTo a0 g = undone g.rollbacks g.active_state ≡ a0

-- The same, while `a` is active.
abbrev At : AppState → AppState → Agent → Type 0
At a0 a g = (g.active_state ≡ a) × (undone g.rollbacks g.active_state ≡ a0)

continue-keeps :
    {A B : Type 0} (P Q : Agent → Type 0) (p : Result A × Agent) (f : A → Op B)
    → P p.1
    → ((g : Agent) → P g → Q g)
    → ((a : A) (g : Agent) → P g → Q (f a g).1)
    → Q (continue p f).1
continue-keeps P Q (ok a, g) f h _ k = k a g h
continue-keeps P Q (err e, g) f h w _ = w g h

not_boot : (a : AppState) → a ≢ boot → same a boot ≡ false
not_boot boot h = absurd (h refl)
not_boot _ h = refl

module _ (s : Services) (laws : TransactionLaws s) (a0 : AppState) where
  run-Both :
      {A : Type 0} (a : AppState) (m : Action A) (g : Agent) → At a0 a g → At a0 a (run s m g).1
  run-Both a m g h = run-At (λ b rs. (b ≡ a) × (undone rs b ≡ a0)) (λ _ _ _ q. q) s laws m g h

  exit-Both :
      (a : AppState) (o : Option StateHandler) (t : Transition) (g : Agent)
      → At a0 a g
      → At a0 a (exit_active s o t g).1
  unfolding exit_active
  exit-Both a none t g h = h
  exit-Both a (some x) t g h = run-Both a (x.on_exit t) g h

  stored-LeadsTo :
      (new : AppState) (g : Agent) (r : Option Error)
      → g.active_state ≢ boot
      → LeadsTo a0 g
      → LeadsTo a0 (stored s new g r).1
  stored-LeadsTo new g none n h =
      subst (λ b. undone g.rollbacks (if b then new else g.active_state) ≡ a0)
        (sym (not_boot g.active_state n)) h
  stored-LeadsTo new g (some e) n h = h

  update-LeadsTo :
      (new : AppState) (g : Agent)
      → g.active_state ≢ boot
      → LeadsTo a0 g
      → LeadsTo a0 (update_app_state s new g).1
  update-LeadsTo new g n h =
      subst (λ p. LeadsTo a0 p.1) (sym (update_app_state_lem s laws new g))
        (stored-LeadsTo new g (s.attempt g.trace (update_config_call (stored_state s new))) n h)

  module _ (handlers : List StateHandler) where
    enter_state-LeadsTo :
        (h : StateHandler) (t : Transition) (g : Agent)
        → g.active_state ≢ boot
        → LeadsTo a0 g
        → LeadsTo a0 (enter_state s handlers h t g).1
    unfolding enter_state
    enter_state-LeadsTo h t g n l =
        continue-keeps (At a0 g.active_state) (LeadsTo a0)
          (check (h.validate_transition g.active_state) g) _
          (checked (h.validate_transition g.active_state)) (λ _ q. q.1)
          (λ _ g1 q1.
            continue-keeps (At a0 g.active_state) (LeadsTo a0)
              (exit_active s (find_handler g1.active_state handlers) t g1) _
              (exit-Both g.active_state (find_handler g1.active_state handlers) t g1 q1)
              (λ _ q. q.1)
              (λ _ g2 q2.
                continue-keeps (LeadsTo a0) (LeadsTo a0) (update_app_state s (to_state t) g2) _
                  (update-LeadsTo (to_state t) g2 (λ e. n (sym q2.0 ∙ e)) q2.1) (λ _ q. q)
                  (λ _ g3 q3.
                    run-At (λ b rs. undone rs b ≡ a0) (λ _ _ _ q. q) s laws (h.handle t) g3 q3)))
      where
        checked : (r : Option Error) → At a0 g.active_state (check r g).1
        checked none = (refl, l)
        checked (some e) = (refl, l)

    pub perform-LeadsTo :
        (t : Transition) (g : Agent)
        → g.active_state ≢ boot
        → LeadsTo a0 g
        → LeadsTo a0 (perform_transition s handlers t g).1
    unfolding perform_transition
    perform-LeadsTo t g n l =
        elim (same g.active_state (to_state t))
          as (λ b.
            LeadsTo a0
              (if b
                then (err already_in_state, g)
                else enter_found s handlers (find_handler (to_state t) handlers) t g).1) [
                  | true ↦ l
                  | false ↦ found (find_handler (to_state t) handlers)
                ]
      where
        found : (o : Option StateHandler) → LeadsTo a0 (enter_found s handlers o t g).1
        found none = l
        found (some h) = enter_state-LeadsTo h t g n l
