-- ===== src/StateService/Steps.antt =====
-- A successful `performTransition` taken apart into its parts, and what the storing of the new
-- state does.
use sdwan_agent.Prelude.{
  ◌≡◌, refl, sym, ap, ◌∙◌, true, false, Option, none, some, List, ◌∷◌, Bool-cases, inl, inr,
}
use sdwan_agent.Errors.{Error, Result, ok, err}
use sdwan_agent.Entities.{AppState, Transition, same, to_state}
use sdwan_agent.Action.{or_return}
use sdwan_agent.Action.Calls.{Call, update_config}
use sdwan_agent.Handlers.Interface.{StateHandler}
use sdwan_agent.Machine.{Agent, Services, enter, restore, did, log, run, succeeded}
use sdwan_agent.Machine.Op.{Op, continue, check}
use sdwan_agent.Machine.Keeps.{active_state-run}
use sdwan_agent.Machine.Laws.{TransactionLaws, run_func}
use sdwan_agent.StateService.{
  find_handler, stored_state, update_app_state, exit_active, enter_state, perform_transition,
  execute_func, enter_found,
}

pub continue-eq-ok :
    {A B : Type 0} (p : Result A × Agent) (f : A → Op B) {b : B} {g : Agent}
    → continue p f ≡ (ok b, g)
    → (a : A) × (g' : Agent) × (p ≡ (ok a, g')) × (f a g' ≡ (ok b, g))
continue-eq-ok (ok a, g') f h = (a, g', refl, h)
continue-eq-ok (err e, g') f h = cc (ap (λ q. q.0) h)

check-eq-ok :
    {B : Type 0} (r : Option Error) (g : Agent) (f : Unit {0} → Op B) {b : B} {g' : Agent}
    → continue (check r g) f ≡ (ok b, g')
    → (r ≡ none) × (f tt g ≡ (ok b, g'))
check-eq-ok none g f h = (refl, h)
check-eq-ok (some e) g f h = cc (ap (λ q. q.0) h)

module _ (s : Services) where
  -- The outcome of `updateAppState`, from that of the write of the configuration.
  abbrev pub stored : AppState → Agent → Option Error → Result (Unit {0}) × Agent
  stored new g none = (
    ok tt,
    record g {
      active_state = new;
      rollbacks = restore g.active_state ∷ g.rollbacks;
      trace = did (update_config (stored_state s new)) true ∷ g.trace;
    },
  )
  stored new g (some e) = (err e, log (did (update_config (stored_state s new)) false) g)

  pub update_app_state_lem :
      TransactionLaws s
      → (new : AppState) (g : Agent)
      → update_app_state s new g
        ≡ stored new g (s.attempt g.trace (update_config (stored_state s new)))
  unfolding update_app_state run run_func
  update_app_state_lem laws new g =
      elim (s.attempt g.trace c)
        as (λ r.
          continue (run s (or_return r) (log (did c (succeeded r)) g))
            (λ _ g'. execute_func s (enter new) (restore g'.active_state) g')
          ≡ stored new g r) [
            | none ↦
                ap (λ p. check p.0 p.1)
                  (laws.execute_lem (enter new) (restore g.active_state) (log (did c true) g))
            | some e ↦ refl
          ]
    where
      c : Call
      c = update_config (stored_state s new)

module _ (s : Services) (handlers : List StateHandler) where
  -- The parts of a transition that succeeds: the handler accepts the old state, the old state is
  -- left, the new one stored, and its handler run.
  pub record Entered (h : StateHandler) (t : Transition) (g : Agent) (r : Option Transition)
      (g' : Agent) : Type 0 where
    pub accepted : h.validate_transition g.active_state ≡ none
    pub exited : Agent
    pub exit : exit_active s (find_handler g.active_state handlers) t g ≡ (ok tt, exited)
    pub updated : Agent
    pub update : update_app_state s (to_state t) exited ≡ (ok tt, updated)
    pub handled : run s (h.handle t) updated ≡ (ok r, g')

  enter_state-Entered :
      (h : StateHandler) (t : Transition) (g : Agent) {r : Option Transition} {g' : Agent}
      → enter_state s handlers h t g ≡ (ok r, g')
      → Entered h t g r g'
  unfolding enter_state
  enter_state-Entered h t g e =
      let (accepted, left) = check-eq-ok (h.validate_transition g.active_state) g _ e in
      let (_, exited, exit, rest) =
        continue-eq-ok (exit_active s (find_handler g.active_state handlers) t g) _ left in
      let (_, updated, update, handled) =
        continue-eq-ok (update_app_state s (to_state t) exited) _ rest in
      record {
        accepted = accepted;
        exited = exited;
        exit = exit;
        updated = updated;
        update = update;
        handled = handled;
      }

  enter_found-Entered :
      (o : Option StateHandler) (t : Transition) (g : Agent) {r : Option Transition} {g' : Agent}
      → enter_found s handlers o t g ≡ (ok r, g')
      → (h : StateHandler) × (o ≡ some h) × Entered h t g r g'
  enter_found-Entered none t g e = cc (ap (λ q. q.0) e)
  enter_found-Entered (some h) t g e = (h, refl, enter_state-Entered h t g e)

  -- A successful `performTransition` found a handler for another state, and entered it.
  pub perform-Entered :
      (t : Transition) (g : Agent) {r : Option Transition} {g' : Agent}
      → perform_transition s handlers t g ≡ (ok r, g')
      → (h : StateHandler) × (same g.active_state (to_state t) ≡ false)
        × (find_handler (to_state t) handlers ≡ some h)
        × Entered h t g r g'
  unfolding perform_transition
  perform-Entered t g e = elim (Bool-cases (same g.active_state (to_state t))) [
    | inl p ↦ cc (ap (λ q. q.0) (rw (p, perform_transition) at e))
    | inr p ↦
        let (h, found, entered) =
          enter_found-Entered (find_handler (to_state t) handlers) t g
            (rw (p, perform_transition) at e) in
        (h, p, found, entered)
  ]

module _ (s : Services) (laws : TransactionLaws s) where
  -- The agent after a state was stored.
  abbrev pub stored_agent : AppState → Agent → Agent
  stored_agent new g = (stored s new g none).1

  stored-eq-ok :
      (new : AppState) (g : Agent) (r : Option Error) {g' : Agent}
      → stored s new g r ≡ (ok tt, g')
      → g' ≡ stored_agent new g
  stored-eq-ok new g none e = sym (ap (λ q. q.1) e)
  stored-eq-ok new g (some x) e = cc (ap (λ q. q.0) e)

  pub update_app_state-eq-ok :
      (new : AppState) (g : Agent) {g' : Agent}
      → update_app_state s new g ≡ (ok tt, g')
      → g' ≡ stored_agent new g
  update_app_state-eq-ok new g e =
      stored-eq-ok new g (s.attempt g.trace (update_config (stored_state s new)))
        (sym (update_app_state_lem s laws new g) ∙ e)

  module _ (handlers : List StateHandler) where
    pub Entered-active_state :
        {h : StateHandler} {t : Transition} {g : Agent} {r : Option Transition} {g' : Agent}
        → Entered s handlers h t g r g'
        → g'.active_state ≡ to_state t
    Entered-active_state {h} {t} {g} {r} {g'} d =
        sym (ap (λ q. q.1.active_state) d.handled)
        ∙ active_state-run s laws (h.handle t) d.updated
        ∙ ap (λ q. q.active_state) (update_app_state-eq-ok (to_state t) d.exited d.update)
