-- ===== src/Machine/Views.antt =====
-- Reasoning about an action over every answer of the services. A view is what a property looks at
-- in the trace, as a state that each event moves on.
use sdwan_agent.Prelude.{◌≡◌, refl, sym, subst, not, true, false, Option, none, some, List, [], ◌∷◌}
use sdwan_agent.Websocket.{start_unless, stop_if}
use sdwan_agent.Errors.{Error, already_waiting_first_init, device_init_timeout, Result, ok, err}
use sdwan_agent.Action.{
  Action, or_return, ret, fail, attempt, fetch, ask, tell, execute, register, receive,
}
use sdwan_agent.Action.Calls.{
  Answer, Effect, InitChannel, activate, deactivate, activate_handler, deactivate_handler,
  websocket_start, websocket_stop, publisher_closed, publisher_start, publisher_stop, fresh,
  refused,
}
use sdwan_agent.Machine.{
  Agent, Event, Services, InitSignal, finished, timed_out, did, asked, log, run, succeeded, effect,
  wait_first_init, take_signal, Func,
}
use sdwan_agent.Machine.Laws.{TransactionLaws, run_func, keep_rollback, returned}

module _ {V : Type 0} (step : Event → V → V) where
  -- The view after a function of a transaction that succeeds, and one that fails.
  abbrev pub after_success : Effect → V → V
  after_success (activate_handler s) v = step (did (activate s) true) v
  after_success (deactivate_handler s) v = step (did (deactivate s) true) v
  after_success websocket_start v =
      step (did publisher_start true) (step (asked publisher_closed) v)
  after_success websocket_stop v = step (did publisher_stop true) (step (asked publisher_closed) v)

  abbrev pub after_failure : Effect → V → V
  after_failure (activate_handler s) v = step (did (activate s) false) v
  after_failure (deactivate_handler s) v = step (did (deactivate s) false) v
  after_failure websocket_start v = step (asked publisher_closed) v
  after_failure websocket_stop v = step (asked publisher_closed) v

  -- Whatever the services answer, the action ends with a result and a view that meet `Q`.
  abbrev pub Ensures : {A : Type 0} → Action A → (Result A → V → Type 0) → V → Type 0
  Ensures (ret a) Q v = Q (ok a) v
  Ensures (fail e) Q v = Q (err e) v
  Ensures (attempt c k) Q v =
      Ensures (k none) Q (step (did c true) v)
      × ((e : Error) → Ensures (k (some e)) Q (step (did c false) v))
  Ensures (fetch q k) Q v =
      ((x : Answer q) → Ensures (k (ok x)) Q (step (asked q) v))
      × ((e : Error) → Ensures (k (err e)) Q (step (asked q) v))
  Ensures (ask q k) Q v = (x : Answer q) → Ensures (k x) Q (step (asked q) v)
  Ensures (tell c m) Q v = Ensures m Q (step (did c true) v)
  Ensures (execute fn rl k) Q v =
      Ensures (k none) Q (after_success fn v)
      × ((e : Error) → Ensures (k (some e)) Q (after_failure fn v))
  Ensures (register k) Q v = (c : InitChannel) → Ensures (k c) Q v
  Ensures (receive c k) Q v = Ensures (k none) Q v × ((e : Error) → Ensures (k (some e)) Q v)

  abbrev pub view : V → List Event → V
  view v [] = v
  view v (e ∷ es) = step e (view v es)

-- What a property says of the outcome of a run, at the view of its trace.
abbrev pub Holds :
    {V A : Type 0} (step : Event → V → V) (v : V)
    → (Result A → V → Type 0)
    → Result A × Agent
    → Type 0
Holds step v Q (r, g) = Q r (view step v g.trace)

module _ {V : Type 0} (step : Event → V → V) (v : V) where
  -- The outcome of a function of a transaction has the view that `Ensures` computes.
  abbrev Ends : Effect → V → Option Error × Agent → Type 0
  Ends fn w (none, g) = view step v g.trace ≡ after_success step fn w
  Ends fn w (some e, g) = view step v g.trace ≡ after_failure step fn w

  Ends-keep_rollback :
      (fn : Effect) (w : V) (rl : Func) (p : Option Error × Agent)
      → Ends fn w p
      → Ends fn w (keep_rollback rl p)
  Ends-keep_rollback fn w rl (none, g) h = h
  Ends-keep_rollback fn w rl (some e, g) h = h

  Ends-run_func :
      (s : Services) (fn : Effect) (g : Agent)
      → Ends fn (view step v g.trace) (run_func s (effect fn) g)
  unfolding run_func
  Ends-run_func s (activate_handler x) g =
      elim (s.attempt g.trace (activate x))
        as (λ r.
          Ends (activate_handler x) (view step v g.trace)
            (returned (run s (or_return r) (log (did (activate x) (succeeded r)) g)))) [
              | none ↦ refl
              | some e ↦ refl
            ]
  Ends-run_func s (deactivate_handler x) g =
      elim (s.attempt g.trace (deactivate x))
        as (λ r.
          Ends (deactivate_handler x) (view step v g.trace)
            (returned (run s (or_return r) (log (did (deactivate x) (succeeded r)) g)))) [
              | none ↦ refl
              | some e ↦ refl
            ]
  Ends-run_func s websocket_start g =
      elim (s.ask g.trace publisher_closed)
        as (λ closed.
          Ends websocket_start (view step v g.trace)
            (returned (run s (start_unless (not closed)) (log (asked publisher_closed) g)))) [
              | true ↦ refl
              | false ↦ refl
            ]
  Ends-run_func s websocket_stop g =
      elim (s.ask g.trace publisher_closed)
        as (λ closed.
          Ends websocket_stop (view step v g.trace)
            (returned (run s (stop_if (not closed)) (log (asked publisher_closed) g)))) [
              | true ↦ refl
              | false ↦ refl
            ]

  module _ {A : Type 0} (s : Services) (k : Option Error → Action A)
      (Q : Result A → V → Type 0) where
    abbrev Goes : Option Error × Agent → Type 0
    Goes p = Holds step v Q (run s (k p.0) p.1)

    -- Going on after a function of a transaction.
    resume_execute :
        ((r : Option Error) (g : Agent) → Ensures step (k r) Q (view step v g.trace) → Goes (r, g))
        → (fn : Effect) (w : V) (p : Option Error × Agent) → Ends fn w p
        → Ensures step (k none) Q (after_success step fn w)
        → ((e : Error) → Ensures step (k (some e)) Q (after_failure step fn w))
        → Goes p
    resume_execute ih fn w (none, g) e h h' = ih none g (rw e h)
    resume_execute ih fn w (some x, g) e h h' = ih (some x) g (rw e (h' x))

    -- Going on after the `select` of the first setup.
    resume_signal :
        ((r : Option Error) (g : Agent) → Ensures step (k r) Q (view step v g.trace) → Goes (r, g))
        → (sig : InitSignal) (g : Agent) → Ensures step (k none) Q (view step v g.trace)
        → ((e : Error) → Ensures step (k (some e)) Q (view step v g.trace))
        → Goes (take_signal sig g)
    resume_signal ih (finished none) g h h' = ih none _ h
    resume_signal ih (finished (some e)) g h h' = ih (some e) _ (h' e)
    resume_signal ih timed_out g h h' = ih (some device_init_timeout) g (h' _)

  module _ (s : Services) (laws : TransactionLaws s) where
    -- What `Ensures` says of an action holds of every run.
    pub run-Ensures :
        {A : Type 0} (m : Action A) (Q : Result A → V → Type 0) (g : Agent)
        → Ensures step m Q (view step v g.trace)
        → Holds step v Q (run s m g)
    unfolding run
    run-Ensures (ret a) Q g h = h
    run-Ensures (fail e) Q g h = h
    run-Ensures (attempt c k) Q g h =
        elim (s.attempt g.trace c)
          as (λ r. Holds step v Q (run s (k r) (log (did c (succeeded r)) g))) [
            | none ↦ run-Ensures (k none) Q (log (did c true) g) h.0
            | some e ↦ run-Ensures (k (some e)) Q (log (did c false) g) (h.1 e)
          ]
    run-Ensures (fetch q k) Q g h =
        elim (s.fetch g.trace q) as (λ r. Holds step v Q (run s (k r) (log (asked q) g))) [
          | ok x ↦ run-Ensures (k (ok x)) Q (log (asked q) g) (h.0 x)
          | err e ↦ run-Ensures (k (err e)) Q (log (asked q) g) (h.1 e)
        ]
    run-Ensures (ask q k) Q g h =
        run-Ensures (k (s.ask g.trace q)) Q (log (asked q) g) (h (s.ask g.trace q))
    run-Ensures (tell c m) Q g h = run-Ensures m Q (log (did c true) g) h
    run-Ensures (execute fn rl k) Q g h =
        subst (Goes s k Q) (sym (laws.execute_lem (effect fn) (effect rl) g)) (
          resume_execute s k Q (λ r g' h'. run-Ensures (k r) Q g' h') fn (view step v g.trace) _
            (Ends-keep_rollback fn _ (effect rl) (run_func s (effect fn) g) (Ends-run_func s fn g))
            h.0 h.1)
    run-Ensures (register k) Q g h =
        run-Ensures (k (wait_first_init g).0) Q (wait_first_init g).1 (h _)
    run-Ensures (receive refused k) Q g h =
        run-Ensures (k (some already_waiting_first_init)) Q g (h.1 _)
    run-Ensures (receive fresh k) Q g h =
        resume_signal s k Q (λ r g' h'. run-Ensures (k r) Q g' h') (s.first_init g.trace) g h.0 h.1
