-- ===== src/StateService/Runs.antt =====
-- What holds after the loop over follow-up transitions, and after the transaction round it.
use sdwan_agent.Prelude.{
  ◌≡◌, refl, sym, ap, ◌∙◌, subst, ℕ, zero, suc, ◌≤◌, Bool, true, false, Option, none, some, List,
  [], arith,
}
use sdwan_agent.Errors.{Error, Result, ok, err, is_panic}
use sdwan_agent.Entities.{Transition, on_after_boot}
use sdwan_agent.Handlers.Interface.{StateHandler, Env}
use sdwan_agent.Machine.{Agent, Services}
use sdwan_agent.Machine.Laws.{TransactionLaws}
use sdwan_agent.StateService.{
  perform_transition, follow, run_chain, perform, begin, finish, Outcome, Finish, answered, answer,
  finish_failed,
}
use sdwan_agent.StateService.Wiring.{agent_handlers}
use sdwan_agent.StateService.Chain.{stage, run_chain-total}

module _ (s : Services) (handlers : List StateHandler) where
  -- An answer is that of the transaction's end.
  pub answer-answered :
      (q : Option Error × Agent) (r : Option Error) (g : Agent)
      → some (answer s handlers q) ≡ some (answered r, g)
      → q ≡ (r, g)
  answer-answered (r', g') r g f = cc

  pub finish_failed-answered :
      (b : Bool) (e : Error) (g : Agent) (r : Option Error) (g' : Agent)
      → some (finish_failed s handlers b e g) ≡ some (answered r, g')
      → s.finish_transaction (some e) g ≡ (r, g')
  finish_failed-answered true e g r g' f = cc
  finish_failed-answered false e g r g' f = answer-answered (s.finish_transaction (some e) g) r g' f

  -- Induction over a chain that succeeds.
  module _ (P : Transition → Agent → Type 0) (Q : Agent → Type 0)
      (more : (t t' : Transition) (g g' : Agent)
        → P t g
        → perform_transition s handlers t g ≡ (ok (some t'), g')
        → P t' g')
      (last : (t : Transition) (g g' : Agent)
        → P t g
        → perform_transition s handlers t g ≡ (ok none, g')
        → Q g') where
    follow_induction :
        (fuel : ℕ) (t : Transition) (g : Agent) (p : Result (Option Transition) × Agent)
        {g' : Agent}
        → ((t' : Transition) (g1 : Agent)
            → P t' g1
            → run_chain s handlers fuel t' g1 ≡ some (ok tt, g')
            → Q g')
        → P t g
        → perform_transition s handlers t g ≡ p
        → follow s handlers (run_chain s handlers fuel) p ≡ some (ok tt, g')
        → Q g'
    follow_induction fuel t g (err x, g1) ih h e f = cc
    follow_induction fuel t g (ok none, g1) {g'} ih h e f =
        let same_agent : g1 ≡ g' = cc in subst Q same_agent (last t g g1 h e)
    follow_induction fuel t g (ok (some t'), g1) ih h e f = ih t' g1 (more t t' g g1 h e) f

    pub run_chain_induction :
        (fuel : ℕ) (t : Transition) (g : Agent) {g' : Agent}
        → P t g
        → run_chain s handlers fuel t g ≡ some (ok tt, g')
        → Q g'
    unfolding run_chain
    run_chain_induction zero t g h e = cc
    run_chain_induction (suc fuel) t g h e =
        follow_induction fuel t g (perform_transition s handlers t g)
          (λ t' g1 h' e'. run_chain_induction fuel t' g1 h' e') h refl e

pub stage-le-one : (t : Transition) → stage t ≤ 1
stage-le-one (on_after_boot a) = omega arith
stage-le-one _ = omega arith

module _ (s : Services) (laws : TransactionLaws s) (env : Env) where
  abbrev hs : List StateHandler
  hs = agent_handlers env

  -- If the transactions follow their laws, a received transition has an answer that `perform` gives
  -- with any fuel of two rounds or more: the loop over follow-up transitions ends.
  pub perform_total :
      (t : Transition) (g : Agent)
      → (r : Finish × Agent) × ((fuel : ℕ) → 2 ≤ fuel → perform s hs fuel t g ≡ some r)
  unfolding perform
  perform_total t g = started (s.start_transaction g.trace)
    where
      started :
          (o : Option Error)
          → (r : Finish × Agent) × ((fuel : ℕ)
              → 2 ≤ fuel
              → begin s hs (finish s hs) (run_chain s hs fuel t) o g ≡ some r)
      started (some e) = ((answered (some e), g), λ _ _. refl)
      started none =
          let (r, all) =
            run_chain-total env s laws 2 t (record g { rollbacks = [] })
              (omega (arith, stage-le-one t)) in
          closed r all
        where
          closed :
              (r : Result (Unit {0}) × Agent)
              → ((fuel : ℕ)
                  → 2 ≤ fuel
                  → run_chain s hs fuel t (record g { rollbacks = [] }) ≡ some r)
              → (r' : Finish × Agent) × ((fuel : ℕ)
                  → 2 ≤ fuel
                  → begin s hs (finish s hs) (run_chain s hs fuel t) none g ≡ some r')
          closed (ok x, g1) all = (
            answer s hs (s.finish_transaction none g1),
            λ fuel le. ap (finish s hs) (all fuel le),
          )
          closed (err e, g1) all =
              (finish_failed s hs (is_panic e) e g1, λ fuel le. ap (finish s hs) (all fuel le))

  -- What a `perform` without an error consists of: the chain went through, and the transaction was
  -- finished with no error.
  pub record Performed (fuel : ℕ) (t : Transition) (g g' : Agent) : Type 0 where
    pub ended : Agent
    pub chain : run_chain s hs fuel t (record g { rollbacks = [] }) ≡ some (ok tt, ended)
    pub state_kept : g'.active_state ≡ ended.active_state
    pub trace_kept : g'.trace ≡ ended.trace

  finish-eq-none :
      (fuel : ℕ) (t : Transition) (g : Agent) (o : Outcome s hs) {g' : Agent}
      → run_chain s hs fuel t (record g { rollbacks = [] }) ≡ o
      → finish s hs o ≡ some (answered none, g')
      → Performed fuel t g g'
  finish-eq-none fuel t g none e f = cc
  finish-eq-none fuel t g (some (err x, g1)) {g'} e f =
      let fin = finish_failed-answered s hs (is_panic x) x g1 none g' f in
      cc (laws.abort_error x g1, ap (λ q. q.0) fin)
  finish-eq-none fuel t g (some (ok _, g1)) {g'} e f =
      let fin = answer-answered s hs (s.finish_transaction none g1) none g' f in
      record {
        ended = g1;
        chain = e;
        state_kept = sym (ap (λ q. q.1.active_state) fin) ∙ laws.commit_lem g1;
        trace_kept = sym (ap (λ q. q.1.trace) fin) ∙ laws.commit_trace g1;
      }

  begin-eq-none :
      (fuel : ℕ) (t : Transition) (g : Agent) (o : Option Error) {g' : Agent}
      → begin s hs (finish s hs) (run_chain s hs fuel t) o g ≡ some (answered none, g')
      → Performed fuel t g g'
  begin-eq-none fuel t g (some x) f = cc
  begin-eq-none fuel t g none f = finish-eq-none fuel t g _ refl f

  pub perform-Performed :
      (fuel : ℕ) (t : Transition) (g : Agent) {g' : Agent}
      → perform s hs fuel t g ≡ some (answered none, g')
      → Performed fuel t g g'
  unfolding perform
  perform-Performed fuel t g f = begin-eq-none fuel t g (s.start_transaction g.trace) f
