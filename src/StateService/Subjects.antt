-- ===== src/StateService/Subjects.antt =====
-- Which message queue subjects are switched on, through all transitions: the subjects of the state
-- that the agent rests in.
pub mod Expected
pub mod Parts
mod Entries
mod Exits
use sdwan_agent.Prelude.{◌≡◌, sym, ap, ◌∙◌, subst, false, Option, none, some, List}
use sdwan_agent.Errors.{ok}
use sdwan_agent.Entities.{AppState, Transition, to_state}
use sdwan_agent.Action.Calls.{Subject}
use sdwan_agent.Handlers.Interface.{StateHandler, Env}
use sdwan_agent.Machine.{Agent, Services, run}
use sdwan_agent.Machine.Laws.{TransactionLaws}
use sdwan_agent.Machine.Views.{Ensures, Holds, run-Ensures}
use sdwan_agent.Machine.Quiet.{switch, listening}
use sdwan_agent.StateService.{find_handler, exit_active, perform_transition}
use sdwan_agent.StateService.Wiring.{agent_handlers}
use sdwan_agent.StateService.Steps.{
  Entered, Entered-active_state, perform-Entered, update_app_state-eq-ok,
}
use Expected.{switched_on, expected, HandlePost}
use Entries.{Handles, handles}
use Exits.{Off, Leaves, leaves}

-- Before transition `t` the subjects are those of the active state; those of the init state may be
-- off if the migration from an old version comes.
abbrev pub Ready : Transition → Agent → Type 0
Ready t g = (x : Subject) → listening x g.trace ≡ expected t g.active_state x

-- After a transition they fit the state, or the transition that comes next.
abbrev pub Left : Option Transition → Agent → Type 0
Left none g = (x : Subject) → listening x g.trace ≡ switched_on g.active_state x
Left (some t) g = Ready t g

module _ (s : Services) (laws : TransactionLaws s) (env : Env) where
  abbrev hs : List StateHandler
  hs = agent_handlers env

  exit-off :
      (x : Subject) (t : Transition) (g g' : Agent) (o : Option StateHandler)
      → Leaves x t g.active_state o
      → listening x g.trace ≡ expected t g.active_state x
      → exit_active s o t g ≡ (ok tt, g')
      → listening x g'.trace ≡ false
  unfolding exit_active
  exit-off x t g g' none l r e = sym (ap (λ q. listening x q.1.trace) e) ∙ r ∙ l
  exit-off x t g g' (some h) l r e =
      subst (Holds (switch x) false Off) e
        (run-Ensures (switch x) false s laws (h.on_exit t) Off g (rw r l))

  handle-Post :
      (x : Subject) (t : Transition) (h : StateHandler) (g g' : Agent) (r : Option Transition)
      → Handles x t (some h)
      → listening x g.trace ≡ false
      → run s (h.handle t) g ≡ (ok r, g')
      → HandlePost t x (ok r) (listening x g'.trace)
  handle-Post x t h g g' r l off e =
      subst (Holds (switch x) false (HandlePost t x)) e
        (run-Ensures (switch x) false s laws (h.handle t) (HandlePost t x) g (rw off l))

  Left-Post :
      (t : Transition) (r : Option Transition) (g : Agent)
      → g.active_state ≡ to_state t
      → ((x : Subject) → HandlePost t x (ok r) (listening x g.trace))
      → Left r g
  Left-Post t none g e h = λ x. h x ∙ ap (λ a. switched_on a x) (sym e)
  Left-Post t (some t') g e h = λ x. h x ∙ ap (λ a. expected t' a x) (sym e)

  pub perform-Left :
      (t : Transition) (g : Agent) {r : Option Transition} {g' : Agent}
      → Ready t g
      → perform_transition s hs t g ≡ (ok r, g')
      → Left r g'
  perform-Left t g {r} {g'} ready e =
      let (h, _, found, d) = perform-Entered s hs t g e in
      Left-Post t r g' (Entered-active_state s laws hs d) (λ x. after x h found d)
    where
      after :
          (x : Subject) (h : StateHandler)
          → find_handler (to_state t) hs ≡ some h
          → Entered s hs h t g r g'
          → HandlePost t x (ok r) (listening x g'.trace)
      after x h found d =
          handle-Post x t h d.updated g' r (subst (Handles x t) found (handles x env t))
            (ap (λ q. listening x q.trace)
                (update_app_state-eq-ok s laws (to_state t) d.exited d.update)
              ∙ exit-off x t g d.exited (find_handler g.active_state hs)
                  (leaves x env t g.active_state) (ready x) d.exit)
            d.handled
