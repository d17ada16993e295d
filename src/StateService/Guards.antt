-- ===== src/StateService/Guards.antt =====
-- What `performTransition` lets through, and that it refuses anything else before it acts.
use sdwan_agent.Prelude.{
  ◌≡◌, refl, sym, subst, true, false, Option, none, some, List, Bool-cases, inl, inr, ◌⊎◌,
  if◌then◌else◌,
}
use sdwan_agent.Errors.{
  Error, Result, ok, err, already_in_state, handler_not_found, transition_not_supported,
}
use sdwan_agent.Entities.{
  AppState, boot, init, active, update_config, maintenance, ztp_setup, reset, unknown, same,
  Transition, to_state,
}
use sdwan_agent.Handlers.Interface.{StateHandler, Env}
use sdwan_agent.Machine.{Agent, Services}
use sdwan_agent.Machine.Laws.{TransactionLaws}
use sdwan_agent.StateService.{find_handler, perform_transition, enter_state, enter_found}
use sdwan_agent.StateService.Wiring.{agent_handlers}
use sdwan_agent.StateService.Graph.{Allowed, Accepts, Accepts-Allowed}
use sdwan_agent.StateService.Steps.{Entered-active_state, perform-Entered}

-- The error of a refused transition.
pub data IsRefusal : Error → Type 0 where
  same_state : IsRefusal already_in_state
  no_handler : IsRefusal handler_not_found
  no_edge : IsRefusal transition_not_supported

abbrev pub Refused : Transition → Agent → Result (Option Transition) × Agent → Type 0
Refused t g p = (e : Error) × IsRefusal e × (p ≡ (err e, g))

module _ (s : Services) (env : Env) where
  abbrev hs : List StateHandler
  hs = agent_handlers env

  -- If the transactions follow their laws, a transition that succeeds, whatever the other services
  -- answer, follows an edge of the diagram from the active state to another state, and that state
  -- is active afterwards.
  pub perform_transition-Allowed :
      (laws : TransactionLaws s) (t : Transition) (g : Agent) {r : Option Transition} {g' : Agent}
      → perform_transition s hs t g ≡ (ok r, g')
      → Allowed g.active_state (to_state t)
        × (same g.active_state (to_state t) ≡ false)
        × (g'.active_state ≡ to_state t)
  perform_transition-Allowed laws t g e =
      let (h, other, found, d) = perform-Entered s hs t g e in
      (
        Accepts-Allowed env (to_state t) g.active_state
            (subst (λ o. Accepts o g.active_state) (sym found) d.accepted),
        other,
        Entered-active_state s laws hs d,
      )

  -- The handlers refuse with one error only.
  abbrev RefusesWith : Option StateHandler → AppState → Type 0
  RefusesWith none from = Unit
  RefusesWith (some h) from =
      (h.validate_transition from ≡ none)
      ⊎ (h.validate_transition from ≡ some transition_not_supported)

  refuses_with : (to from : AppState) → RefusesWith (find_handler to hs) from
  unfolding find_handler agent_handlers
  refuses_with boot from = inl refl
  refuses_with active from = inl refl
  refuses_with init boot = inl refl
  refuses_with init ztp_setup = inl refl
  refuses_with init reset = inl refl
  refuses_with update_config boot = inl refl
  refuses_with update_config active = inl refl
  refuses_with maintenance boot = inl refl
  refuses_with maintenance active = inl refl
  refuses_with ztp_setup boot = inl refl
  refuses_with ztp_setup init = inl refl
  refuses_with reset boot = inl refl
  refuses_with reset init = inl refl
  refuses_with reset active = inl refl
  refuses_with (unknown u) from = tt
  refuses_with _ _ = inr refl

  refuse_found :
      (t : Transition) (g : Agent) (o : Option StateHandler)
      → RefusesWith o g.active_state
      → ¬ Accepts o g.active_state
      → Refused t g (enter_found s hs o t g)
  unfolding enter_state
  refuse_found t g none w n = (handler_not_found, no_handler, refl)
  refuse_found t g (some h) (inl p) n = absurd (n p)
  refuse_found t g (some h) (inr p) n = (transition_not_supported, no_edge, rw p refl)

  -- A transition to the state that is active, or against the diagram, is refused with one of the
  -- three errors of a refusal, and the agent stays as it was: no service is called.
  pub perform_transition-Refused :
      (t : Transition) (g : Agent)
      → (same g.active_state (to_state t) ≡ true) ⊎ ¬ Allowed g.active_state (to_state t)
      → Refused t g (perform_transition s hs t g)
  unfolding perform_transition
  perform_transition-Refused t g (inl p) = (already_in_state, same_state, rw p refl)
  perform_transition-Refused t g (inr n) = elim (Bool-cases (same g.active_state (to_state t))) [
    | inl p ↦ (already_in_state, same_state, rw p refl)
    | inr p ↦
        subst
          (λ b. Refused t g (
            if b
            then (err already_in_state, g)
            else enter_found s hs (find_handler (to_state t) hs) t g))
          (sym p)
          (refuse_found t g (find_handler (to_state t) hs)
            (refuses_with (to_state t) g.active_state)
            (λ a. n (Accepts-Allowed env (to_state t) g.active_state a)))
  ]
