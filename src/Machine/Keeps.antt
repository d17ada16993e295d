-- ===== src/Machine/Keeps.antt =====
-- What a handler cannot change: the active state, and where a rollback would lead.
use sdwan_agent.Prelude.{
  ◌≡◌, refl, sym, subst, true, false, not, Option, none, some, List, [], ◌∷◌, if◌then◌else◌,
}
use sdwan_agent.Errors.{Error, already_waiting_first_init}
use sdwan_agent.Entities.{AppState, boot, same}
use sdwan_agent.Action.{
  Action, ret, fail, attempt, fetch, ask, tell, execute, register, receive, or_return,
}
use sdwan_agent.Action.Calls.{
  Effect, activate, deactivate, activate_handler, deactivate_handler, websocket_start,
  websocket_stop, publisher_closed, fresh, refused,
}
use sdwan_agent.Websocket.{start_unless, stop_if}
use sdwan_agent.Machine.{
  Agent, Services, Func, effect, enter, restore, InitSignal, finished, timed_out, did, asked, log,
  run, succeeded, wait_first_init, take_signal,
}
use sdwan_agent.Machine.Laws.{TransactionLaws, run_func, keep_rollback, returned, roll_back}

-- A property of the active state and the undo functions that one more undo function of a handler
-- does not end.
module _ (P : AppState → List Func → Type 0)
    (push : (a : AppState) (rs : List Func) (rl : Effect) → P a rs → P a (effect rl ∷ rs)) where
  abbrev pub At : Agent → Type 0
  At g = P g.active_state g.rollbacks

  run_func-At : (s : Services) (fn : Effect) (g : Agent) → At g → At (run_func s (effect fn) g).1
  unfolding run_func run
  run_func-At s (activate_handler x) g h =
      elim (s.attempt g.trace (activate x))
        as (λ r. At (returned (run s (or_return r) (log (did (activate x) (succeeded r)) g))).1) [
          | none ↦ h
          | some e ↦ h
        ]
  run_func-At s (deactivate_handler x) g h =
      elim (s.attempt g.trace (deactivate x))
        as (λ r. At (returned (run s (or_return r) (log (did (deactivate x) (succeeded r)) g))).1) [
          | none ↦ h
          | some e ↦ h
        ]
  run_func-At s websocket_start g h =
      elim (s.ask g.trace publisher_closed)
        as (λ closed.
          At (returned (run s (start_unless (not closed)) (log (asked publisher_closed) g))).1) [
            | true ↦ h
            | false ↦ h
          ]
  run_func-At s websocket_stop g h =
      elim (s.ask g.trace publisher_closed)
        as (λ closed.
          At (returned (run s (stop_if (not closed)) (log (asked publisher_closed) g))).1) [
            | true ↦ h
            | false ↦ h
          ]

  keep_rollback-At :
      (rl : Effect) (p : Option Error × Agent) → At p.1 → At (keep_rollback (effect rl) p).1
  keep_rollback-At rl (none, g) h = push g.active_state g.rollbacks rl h
  keep_rollback-At rl (some e, g) h = h

  take_signal-At : (sig : InitSignal) (g : Agent) → At g → At (take_signal sig g).1
  take_signal-At (finished r) g h = h
  take_signal-At timed_out g h = h

  -- Whatever a handler does and however it ends, the property stays.
  pub run-At :
      {A : Type 0} (s : Services) (laws : TransactionLaws s) (m : Action A) (g : Agent)
      → At g
      → At (run s m g).1
  unfolding run
  run-At s laws (ret a) g h = h
  run-At s laws (fail e) g h = h
  run-At s laws (attempt c k) g h =
      run-At s laws (k (s.attempt g.trace c)) (log (did c (succeeded (s.attempt g.trace c))) g) h
  run-At s laws (fetch q k) g h = run-At s laws (k (s.fetch g.trace q)) (log (asked q) g) h
  run-At s laws (ask q k) g h = run-At s laws (k (s.ask g.trace q)) (log (asked q) g) h
  run-At s laws (tell c m) g h = run-At s laws m (log (did c true) g) h
  run-At s laws (execute fn rl k) g h =
      run-At s laws (k (s.execute_func (effect fn) (effect rl) g).0)
        (s.execute_func (effect fn) (effect rl) g).1
        (subst (λ p. At p.1) (sym (laws.execute_lem (effect fn) (effect rl) g))
          (keep_rollback-At rl (run_func s (effect fn) g) (run_func-At s fn g h)))
  run-At s laws (register k) g h = run-At s laws (k (wait_first_init g).0) (wait_first_init g).1 h
  run-At s laws (receive refused k) g h = run-At s laws (k (some already_waiting_first_init)) g h
  run-At s laws (receive fresh k) g h =
      run-At s laws (k (take_signal (s.first_init g.trace) g).0)
        (take_signal (s.first_init g.trace) g).1 (take_signal-At (s.first_init g.trace) g h)

-- Where a rollback of these undo functions leads from the active state.
abbrev pub undone : List Func → AppState → AppState
undone [] a = a
undone (effect _ ∷ fs) a = undone fs a
undone (enter new ∷ fs) a = undone fs new
undone (restore old ∷ fs) a = undone fs (if same old boot then a else old)

module _ {A : Type 0} (s : Services) (laws : TransactionLaws s) (m : Action A) (g : Agent) where
  pub active_state-run : (run s m g).1.active_state ≡ g.active_state
  active_state-run = run-At (λ a _. a ≡ g.active_state) (λ _ _ _ h. h) s laws m g refl

  pub undone-run :
      undone (run s m g).1.rollbacks (run s m g).1.active_state ≡ undone g.rollbacks g.active_state
  undone-run =
      run-At (λ a rs. undone rs a ≡ undone g.rollbacks g.active_state) (λ _ _ _ h. h) s laws m g
        refl

module _ (s : Services) where
  active_state-run_func :
      (fn : Effect) (g : Agent) → (run_func s (effect fn) g).1.active_state ≡ g.active_state
  active_state-run_func fn g = run_func-At (λ a _. a ≡ g.active_state) (λ _ _ _ h. h) s fn g refl

  -- A rollback leads where its undo functions say.
  pub active_state-roll_back :
      (fs : List Func) (g : Agent) → (roll_back s fs g).active_state ≡ undone fs g.active_state
  unfolding roll_back run_func
  active_state-roll_back [] g = refl
  active_state-roll_back (effect fn ∷ fs) g =
      subst (λ a. (roll_back s fs (run_func s (effect fn) g).1).active_state ≡ undone fs a)
        (active_state-run_func fn g) (active_state-roll_back fs (run_func s (effect fn) g).1)
  active_state-roll_back (enter new ∷ fs) g =
      active_state-roll_back fs (record g { active_state = new })
  active_state-roll_back (restore old ∷ fs) g =
      elim (same old boot)
        as (λ b.
          (roll_back s fs (if b then g else record g { active_state = old })).active_state
          ≡ undone fs (if b then g.active_state else old)) [
            | true ↦ active_state-roll_back fs g
            | false ↦ active_state-roll_back fs (record g { active_state = old })
          ]
