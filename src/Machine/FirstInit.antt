-- ===== src/Machine/FirstInit.antt =====
-- The device init service's `firstInitData` during a run: what an action comes to while another
-- first setup is still waited for.
use sdwan_agent.Prelude.{◌≡◌, refl, sym, subst, true, false, not, Option, none, some, if◌then◌else◌}
use sdwan_agent.Errors.{Error, Result, ok, err, already_waiting_first_init}
use sdwan_agent.Action.{
  Action, ret, fail, attempt, fetch, ask, tell, execute, register, receive, or_return,
}
use sdwan_agent.Action.Calls.{
  Answer, Effect, activate, deactivate, activate_handler, deactivate_handler, websocket_start,
  websocket_stop, publisher_closed, fresh, refused,
}
use sdwan_agent.Websocket.{start_unless, stop_if}
use sdwan_agent.Machine.{Agent, Services, Func, effect, did, asked, log, run, succeeded}
use sdwan_agent.Machine.Laws.{TransactionLaws, run_func, keep_rollback, returned}

-- Each way through the action ends with an error, if a first setup is waited for already.
abbrev pub IsBlocked : {A : Type 0} → Action A → Type 0
IsBlocked (ret a) = ⊥
IsBlocked (fail e) = Unit
IsBlocked (attempt c k) = IsBlocked (k none) × ((e : Error) → IsBlocked (k (some e)))
IsBlocked (fetch q k) =
    ((a : Answer q) → IsBlocked (k (ok a))) × ((e : Error) → IsBlocked (k (err e)))
IsBlocked (ask q k) = (x : Answer q) → IsBlocked (k x)
IsBlocked (tell c m) = IsBlocked m
IsBlocked (execute fn rl k) = IsBlocked (k none) × ((e : Error) → IsBlocked (k (some e)))
IsBlocked (register k) = IsBlocked (k refused)
IsBlocked (receive refused k) = IsBlocked (k (some already_waiting_first_init))
IsBlocked (receive fresh k) = ⊥

-- An error, and a first setup is waited for still.
abbrev pub Fails : {A : Type 0} → Result A × Agent → Type 0
Fails (r, g) = ((e : Error) × (r ≡ err e)) × (g.first_init_waiting ≡ true)

abbrev Waits : Option Error × Agent → Type 0
Waits p = p.1.first_init_waiting ≡ true

module _ (s : Services) where
  Waits-run_func :
      (fn : Effect) (g : Agent) → g.first_init_waiting ≡ true → Waits (run_func s (effect fn) g)
  unfolding run_func run
  Waits-run_func (activate_handler x) g h =
      elim (s.attempt g.trace (activate x))
        as (λ r. Waits (returned (run s (or_return r) (log (did (activate x) (succeeded r)) g)))) [
          | none ↦ h
          | some e ↦ h
        ]
  Waits-run_func (deactivate_handler x) g h =
      elim (s.attempt g.trace (deactivate x))
        as (λ r.
          Waits (returned (run s (or_return r) (log (did (deactivate x) (succeeded r)) g)))) [
            | none ↦ h
            | some e ↦ h
          ]
  Waits-run_func websocket_start g h =
      elim (s.ask g.trace publisher_closed)
        as (λ closed.
          Waits (returned (run s (start_unless (not closed)) (log (asked publisher_closed) g)))) [
            | true ↦ h
            | false ↦ h
          ]
  Waits-run_func websocket_stop g h =
      elim (s.ask g.trace publisher_closed)
        as (λ closed.
          Waits (returned (run s (stop_if (not closed)) (log (asked publisher_closed) g)))) [
            | true ↦ h
            | false ↦ h
          ]

  Waits-keep_rollback :
      (rl : Func) (p : Option Error × Agent) → Waits p → Waits (keep_rollback rl p)
  Waits-keep_rollback rl (none, g) h = h
  Waits-keep_rollback rl (some e, g) h = h

  module _ {A : Type 0} (k : Option Error → Action A)
      (go : (r : Option Error) (g : Agent)
        → g.first_init_waiting ≡ true
        → IsBlocked (k r)
        → Fails (run s (k r) g)) where
    resume_result :
        (r : Option Error) (g : Agent)
        → g.first_init_waiting ≡ true
        → IsBlocked (k none)
        → ((e : Error) → IsBlocked (k (some e)))
        → Fails (run s (k r) g)
    resume_result none g w h h' = go none g w h
    resume_result (some e) g w h h' = go (some e) g w (h' e)

  -- Such an action fails, and the wait goes on.
  pub run-IsBlocked :
      {A : Type 0} (laws : TransactionLaws s) (m : Action A) (g : Agent)
      → g.first_init_waiting ≡ true
      → IsBlocked m
      → Fails (run s m g)
  unfolding run
  run-IsBlocked laws (ret a) g w h = absurd h
  run-IsBlocked laws (fail e) g w h = ((e, refl), w)
  run-IsBlocked laws (attempt c k) g w h =
      resume_result k (λ r g' w' h'. run-IsBlocked laws (k r) g' w' h') (s.attempt g.trace c)
        (log (did c (succeeded (s.attempt g.trace c))) g) w h.0 h.1
  run-IsBlocked laws (fetch q k) g w h =
      elim (s.fetch g.trace q) as (λ r. Fails (run s (k r) (log (asked q) g))) [
        | ok x ↦ run-IsBlocked laws (k (ok x)) (log (asked q) g) w (h.0 x)
        | err e ↦ run-IsBlocked laws (k (err e)) (log (asked q) g) w (h.1 e)
      ]
  run-IsBlocked laws (ask q k) g w h =
      run-IsBlocked laws (k (s.ask g.trace q)) (log (asked q) g) w (h (s.ask g.trace q))
  run-IsBlocked laws (tell c m) g w h = run-IsBlocked laws m (log (did c true) g) w h
  run-IsBlocked laws (execute fn rl k) g w h =
      resume_result k (λ r g' w' h'. run-IsBlocked laws (k r) g' w' h')
        (s.execute_func (effect fn) (effect rl) g).0 (s.execute_func (effect fn) (effect rl) g).1
        (subst Waits (sym (laws.execute_lem (effect fn) (effect rl) g))
          (Waits-keep_rollback (effect rl) (run_func s (effect fn) g) (Waits-run_func fn g w)))
        h.0 h.1
  run-IsBlocked laws (register k) g w h =
      subst
        (λ b.
          Fails (run s (k (if b then refused else fresh)) (record g { first_init_waiting = true })))
        (sym w) (run-IsBlocked laws (k refused) (record g { first_init_waiting = true }) refl h)
  run-IsBlocked laws (receive refused k) g w h =
      run-IsBlocked laws (k (some already_waiting_first_init)) g w h
  run-IsBlocked laws (receive fresh k) g w h = absurd h
