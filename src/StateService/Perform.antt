-- ===== src/StateService/Perform.antt =====
-- What `Perform` guarantees to its callers, and what the start from the boot state does.
use sdwan_agent.Prelude.{
  ◌≡◌, ◌≢◌, refl, sym, ap, ◌∙◌, subst, ℕ, zero, suc, Option, none, some, List, [], ◌⊎◌, inl, inr,
  arith,
}
use sdwan_agent.Errors.{Error, Result, ok, err, is_panic}
use sdwan_agent.Entities.{
  AppState, boot, init, active, update_config, maintenance, ztp_setup, reset, unknown, Transition,
  to_state, on_after_boot,
}
use sdwan_agent.Action.Calls.{Subject}
use sdwan_agent.Handlers.Interface.{StateHandler, Env}
use sdwan_agent.Machine.{Agent, Services}
use sdwan_agent.Machine.Laws.{TransactionLaws}
use sdwan_agent.Machine.Keeps.{active_state-roll_back}
use sdwan_agent.Machine.Quiet.{listening}
use sdwan_agent.StateService.{
  perform_transition, follow, run_chain, perform, begin, finish, Outcome, answered,
}
use sdwan_agent.StateService.Wiring.{agent_handlers}
use sdwan_agent.StateService.Guards.{perform_transition-Allowed}
use sdwan_agent.StateService.Chain.{stage, Rests, stage-perform, perform-Rests}
use sdwan_agent.StateService.Subjects.{Ready, Left, perform-Left}
use sdwan_agent.StateService.Subjects.Expected.{switched_on}
use sdwan_agent.StateService.Runs.{
  stage-le-one, run_chain_induction, perform-Performed, answer-answered, finish_failed-answered,
}
use sdwan_agent.StateService.Rollback.{LeadsTo, perform-LeadsTo}

-- A follow-up transition rests where any transition may.
Rests-of_stage :
    (env : Env) (t t' : Transition) (a : AppState) → stage t' ≡ 0 → Rests env t' a → Rests env t a
Rests-of_stage env t t' init z h = tt
Rests-of_stage env t t' active z h = tt
Rests-of_stage env t t' reset z h = absurd (omega (arith, ap stage h.0))
Rests-of_stage env t t' boot z h = absurd (omega (arith, ap stage h))
Rests-of_stage env t t' update_config z h = h
Rests-of_stage env t t' maintenance z h = h
Rests-of_stage env t t' ztp_setup z h = h
Rests-of_stage env t t' (unknown u) z h = h

to_state-ne-boot : (t : Transition) → stage t ≡ 0 → to_state t ≢ boot
to_state-ne-boot (on_after_boot a) z = absurd (omega arith)
to_state-ne-boot _ z = λ e. cc

module _ (s : Services) (laws : TransactionLaws s) (env : Env) where
  abbrev hs : List StateHandler
  hs = agent_handlers env

  stage-follow :
      (t t' : Transition) (g : Agent) {g' : Agent}
      → perform_transition s hs t g ≡ (ok (some t'), g')
      → stage t' ≡ 0
  stage-follow t t' g e = omega (arith, stage-perform env s laws t t' g e, stage-le-one t)

  pub run_chain-Rests :
      (fuel : ℕ) (t : Transition) (g : Agent) {g' : Agent}
      → run_chain s hs fuel t g ≡ some (ok tt, g')
      → Rests env t g'.active_state
  run_chain-Rests fuel t g =
      run_chain_induction s hs (λ t' _. (t' ≡ t) ⊎ (stage t' ≡ 0))
        (λ g'. Rests env t g'.active_state) (λ t1 t2 g1 g2 _ e. inr (stage-follow t1 t2 g1 e)) last
        fuel t g (inl refl)
    where
      at_end :
          (t1 : Transition) (a : AppState)
          → (t1 ≡ t) ⊎ (stage t1 ≡ 0)
          → Rests env t1 a
          → Rests env t a
      at_end t1 a (inl p) h = subst (λ t'. Rests env t' a) p h
      at_end t1 a (inr z) h = Rests-of_stage env t t1 a z h

      last :
          (t1 : Transition) (g1 g2 : Agent)
          → (t1 ≡ t) ⊎ (stage t1 ≡ 0)
          → perform_transition s hs t1 g1 ≡ (ok none, g2)
          → Rests env t g2.active_state
      last t1 g1 g2 h e =
          let (_, _, there) = perform_transition-Allowed s env laws t1 g1 e in
          at_end t1 g2.active_state h (rw there (perform-Rests env s laws t1 g1 e))

  run_chain-subjects :
      (fuel : ℕ) (t : Transition) (g : Agent) {g' : Agent}
      → Ready t g
      → run_chain s hs fuel t g ≡ some (ok tt, g')
      → (x : Subject) → listening x g'.trace ≡ switched_on g'.active_state x
  run_chain-subjects fuel t g ready e =
      run_chain_induction s hs Ready (Left none)
        (λ t1 t2 g1 g2 r e1. perform-Left s laws env t1 g1 r e1)
        (λ t1 g1 g2 r e1. perform-Left s laws env t1 g1 r e1) fuel t g ready e

  -- If the transactions follow their laws, a transition that was performed without an error, with
  -- its follow-up transitions, leaves the agent in the init or the active state; after `on_reset`
  -- on a device that is no hub also in the reset state, and after `on_after_boot` to the boot
  -- state, which no caller makes, also in that one.
  pub perform_settles :
      (fuel : ℕ) (t : Transition) (g : Agent) {g' : Agent}
      → perform s hs fuel t g ≡ some (answered none, g')
      → Rests env t g'.active_state
  perform_settles fuel t g e =
      let p = perform-Performed s laws env fuel t g e in
      rw p.state_kept (run_chain-Rests fuel t _ p.chain)

  -- If the transactions follow their laws and the subjects that are switched on are those of the
  -- active state (none, before a migration from an old version), then after a transition that was
  -- performed without an error they are those of the state that is active then.
  pub perform_subjects :
      (fuel : ℕ) (t : Transition) (g : Agent) {g' : Agent}
      → Ready t g
      → perform s hs fuel t g ≡ some (answered none, g')
      → (x : Subject) → listening x g'.trace ≡ switched_on g'.active_state x
  perform_subjects fuel t g ready e x =
      let p = perform-Performed s laws env fuel t g e in
      rw (p.state_kept, p.trace_kept) (run_chain-subjects fuel t _ ready p.chain x)

  follow-LeadsTo :
      (a0 : AppState) (fuel : ℕ) (t : Transition) (g : Agent)
      (p : Result (Option Transition) × Agent) {r : Result (Unit {0})} {g' : Agent}
      → ((t' : Transition) (g1 : Agent)
          → g1.active_state ≢ boot
          → to_state t' ≢ boot
          → LeadsTo a0 g1
          → run_chain s hs fuel t' g1 ≡ some (r, g')
          → LeadsTo a0 g')
      → to_state t ≢ boot
      → LeadsTo a0 p.1
      → perform_transition s hs t g ≡ p
      → follow s hs (run_chain s hs fuel) p ≡ some (r, g')
      → LeadsTo a0 g'
  follow-LeadsTo a0 fuel t g (err x, g1) {r} {g'} ih n l e f =
      let same_agent : g1 ≡ g' = cc in subst (LeadsTo a0) same_agent l
  follow-LeadsTo a0 fuel t g (ok none, g1) {r} {g'} ih n l e f =
      let same_agent : g1 ≡ g' = cc in subst (LeadsTo a0) same_agent l
  follow-LeadsTo a0 fuel t g (ok (some t'), g1) ih n l e f =
      let (_, _, there) = perform_transition-Allowed s env laws t g e in
      ih t' g1 (λ b. n (sym there ∙ b)) (to_state-ne-boot t' (stage-follow t t' g e)) l f

  run_chain-LeadsTo :
      (a0 : AppState) (fuel : ℕ) (t : Transition) (g : Agent) {r : Result (Unit {0})} {g' : Agent}
      → g.active_state ≢ boot
      → to_state t ≢ boot
      → LeadsTo a0 g
      → run_chain s hs fuel t g ≡ some (r, g')
      → LeadsTo a0 g'
  unfolding run_chain
  run_chain-LeadsTo a0 zero t g n nt l e = cc
  run_chain-LeadsTo a0 (suc fuel) t g n nt l e =
      follow-LeadsTo a0 fuel t g (perform_transition s hs t g)
        (λ t' g1 n' nt' l' e'. run_chain-LeadsTo a0 fuel t' g1 n' nt' l' e') nt
        (perform-LeadsTo s laws a0 hs t g n l) refl e

  finish_aborts :
      (fuel : ℕ) (t : Transition) (g : Agent) (o : Outcome s hs) {x : Error} {g' : Agent}
      → g.active_state ≢ boot
      → to_state t ≢ boot
      → run_chain s hs fuel t (record g { rollbacks = [] }) ≡ o
      → finish s hs o ≡ some (answered (some x), g')
      → (g'.active_state ≡ g.active_state)
        ⊎ ((g1 : Agent) × (o ≡ some (ok tt, g1)) × (g'.active_state ≡ g1.active_state))
  finish_aborts fuel t g none n nt e f = cc
  finish_aborts fuel t g (some (ok _, g1)) {x} {g'} n nt e f =
      let fin = answer-answered s hs (s.finish_transaction none g1) (some x) g' f in
      inr (g1, refl, sym (ap (λ q. q.1.active_state) fin) ∙ laws.commit_lem g1)
  finish_aborts fuel t g (some (err y, g1)) {x} {g'} n nt e f =
      let fin = finish_failed-answered s hs (is_panic y) y g1 (some x) g' f in
      inl (
        sym (ap (λ q. q.1.active_state) fin)
        ∙ laws.abort_lem y g1
        ∙ active_state-roll_back s g1.rollbacks g1
        ∙ run_chain-LeadsTo g.active_state fuel t (record g { rollbacks = [] }) n nt refl e)

  begin_aborts :
      (fuel : ℕ) (t : Transition) (g : Agent) (o : Option Error) {x : Error} {g' : Agent}
      → g.active_state ≢ boot
      → to_state t ≢ boot
      → begin s hs (finish s hs) (run_chain s hs fuel t) o g ≡ some (answered (some x), g')
      → (g'.active_state ≡ g.active_state)
        ⊎ ((g1 : Agent) × (run_chain s hs fuel t (record g { rollbacks = [] }) ≡ some (ok tt, g1))
            × (g'.active_state ≡ g1.active_state))
  begin_aborts fuel t g (some y) {x} {g'} n nt f =
      let same_agent : g ≡ g' = cc in inl (sym (ap (λ q. q.active_state) same_agent))
  begin_aborts fuel t g none n nt f = finish_aborts fuel t g _ n nt refl f

  -- What a transition that fails leaves: the state as it was, or that of a chain that went through.
  pub perform_fails :
      (fuel : ℕ) (t : Transition) (g : Agent) {x : Error} {g' : Agent}
      → g.active_state ≢ boot
      → to_state t ≢ boot
      → perform s hs fuel t g ≡ some (answered (some x), g')
      → (g'.active_state ≡ g.active_state)
        ⊎ ((g1 : Agent) × (run_chain s hs fuel t (record g { rollbacks = [] }) ≡ some (ok tt, g1))
            × (g'.active_state ≡ g1.active_state))
  unfolding perform
  perform_fails fuel t g n nt f = begin_aborts fuel t g (s.start_transaction g.trace) n nt f

  -- If the transactions follow their laws, a transition that is answered with an error, from a state
  -- other than boot and to a state other than boot, leaves the active state as it was, unless the whole chain of its
  -- steps had gone through and only the end of the transaction failed.
  pub perform_aborts :
      (fuel : ℕ) (t : Transition) (g : Agent) {x : Error} {g' : Agent}
      → g.active_state ≢ boot
      → to_state t ≢ boot
      → perform s hs fuel t g ≡ some (answered (some x), g')
      → (g'.active_state ≡ g.active_state)
        ⊎ ((g1 : Agent) × (run_chain s hs fuel t (record g { rollbacks = [] }) ≡ some (ok tt, g1)))
  perform_aborts fuel t g n nt f = elim (perform_fails fuel t g n nt f) [
    | inl h ↦ inl h
    | inr (g1, chain, _) ↦ inr (g1, chain)
  ]
