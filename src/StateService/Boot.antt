-- ===== src/StateService/Boot.antt =====
-- The start: `setActiveStateFromBoot` brings the agent from the boot state to a working state.
use sdwan_agent.Prelude.{
  ◌≡◌, refl, sym, ap, ◌∙◌, subst, ℕ, ◌≤◌, Bool, true, false, Option, none, some, List, [], ◌⊎◌, inl,
  inr, arith,
}
use sdwan_agent.Errors.{Error, Result, ok, err, is_panic}
use sdwan_agent.Entities.{
  AppState, boot, init, active, update_config, maintenance, ztp_setup, reset, unknown, same,
  Transition, to_state, on_after_boot,
}
use sdwan_agent.Action.{lift}
use sdwan_agent.Action.Calls.{Subject, config}
use sdwan_agent.Handlers.Interface.{StateHandler, Env}
use sdwan_agent.Machine.{Agent, Services, run, log, asked}
use sdwan_agent.Machine.Op.{continue}
use sdwan_agent.Machine.Laws.{TransactionLaws}
use sdwan_agent.Machine.Quiet.{listening}
use sdwan_agent.StateService.{
  perform_transition, run_chain, begin, finish_boot, finish_boot_failed, Finish, answered, answer,
  Outcome, boot_chain, boot_target, read_target, set_active_state_from_boot,
}
use sdwan_agent.StateService.Wiring.{agent_handlers}
use sdwan_agent.StateService.Guards.{perform_transition-Allowed}
use sdwan_agent.StateService.Chain.{stage, Rests, stage-perform, perform-Rests, run_chain-total}
use sdwan_agent.StateService.Subjects.{Ready, perform-Left}
use sdwan_agent.StateService.Subjects.Expected.{switched_on}
use sdwan_agent.StateService.Runs.{stage-le-one, run_chain_induction, answer-answered}

-- A working state, with its subjects switched on and no other.
pub record Works (g : Agent) : Type 0 where
  pub working : (g.active_state ≡ init) ⊎ (g.active_state ≡ active)
  pub subjects : (x : Subject) → listening x g.trace ≡ switched_on g.active_state x

abbrev Working : AppState → Type 0
Working a = (a ≡ init) ⊎ (a ≡ active)

Working-of_stage :
    (env : Env) (t : Transition) (a : AppState) → stage t ≡ 0 → Rests env t a → Working a
Working-of_stage env t init z h = inl refl
Working-of_stage env t active z h = inr refl
Working-of_stage env t reset z h = absurd (omega (arith, ap stage h.0))
Working-of_stage env t boot z h = absurd (omega (arith, ap stage h))
Working-of_stage env t update_config z h = absurd h
Working-of_stage env t maintenance z h = absurd h
Working-of_stage env t ztp_setup z h = absurd h
Working-of_stage env t (unknown u) z h = absurd h

Working-of_boot :
    (env : Env) (a : AppState) → same boot a ≡ false → Rests env (on_after_boot a) a → Working a
Working-of_boot env init n h = inl refl
Working-of_boot env active n h = inr refl
Working-of_boot env reset n h = cc (h.0)
Working-of_boot env boot n h = cc
Working-of_boot env update_config n h = absurd h
Working-of_boot env maintenance n h = absurd h
Working-of_boot env ztp_setup n h = absurd h
Working-of_boot env (unknown u) n h = absurd h

module _ (s : Services) (laws : TransactionLaws s) (env : Env) where
  abbrev hs : List StateHandler
  hs = agent_handlers env

  -- A transition of the start: the first one, from the boot state, or a follow-up.
  abbrev Starts : AppState → Transition → Agent → Type 0
  Starts target t g =
      ((t ≡ on_after_boot target) × (g.active_state ≡ boot) ⊎ (stage t ≡ 0)) × Ready t g

  started :
      (target : AppState) (t : Transition) (g g' : Agent)
      → Starts target t g
      → perform_transition s hs t g ≡ (ok none, g')
      → Works g'
  started target t g g' h e =
      let (_, other, there) = perform_transition-Allowed s env laws t g e in
      record {
        working = rw there (rests h.0 other (perform-Rests env s laws t g e));
        subjects = perform-Left s laws env t g h.1 e;
      }
    where
      rests :
          ((t ≡ on_after_boot target) × (g.active_state ≡ boot) ⊎ (stage t ≡ 0))
          → same g.active_state (to_state t) ≡ false
          → Rests env t (to_state t)
          → Working (to_state t)
      rests (inl (p, b)) n r = rw p (
          Working-of_boot env target (rw (b, p) at n)
            (subst (λ t'. Rests env t' (to_state t')) p r))
      rests (inr z) n r = Working-of_stage env t (to_state t) z r

  boot_chain-Works :
      (fuel : ℕ) (target : AppState) (g : Agent) {g' : Agent}
      → g.active_state ≡ boot
      → ((x : Subject) → listening x g.trace ≡ false)
      → run_chain s hs fuel (on_after_boot target) g ≡ some (ok tt, g')
      → Works g'
  boot_chain-Works fuel target g b off e =
      run_chain_induction s hs (Starts target) Works
        (λ t1 t2 g1 g2 h e1. (
          inr (omega (arith, stage-perform env s laws t1 t2 g1 e1, stage-le-one t1)),
          perform-Left s laws env t1 g1 h.1 e1,
        ))
        (λ t1 g1 g2 h e1. started target t1 g1 g2 h e1) fuel (on_after_boot target) g
        (inl (refl, b), λ x. off x ∙ ap (λ a. switched_on a x) (sym b)) e

  read-Works :
      (fuel : ℕ) (g : Agent) (p : Result AppState × Agent) {g' : Agent}
      → p.1.active_state ≡ boot
      → ((x : Subject) → listening x p.1.trace ≡ false)
      → boot_chain s hs fuel p ≡ some (ok tt, g')
      → Works g'
  read-Works fuel g (err e, g1) b off f = cc
  read-Works fuel g (ok target, g1) b off f = boot_chain-Works fuel target g1 b off f

  -- Reading the stored state only adds to the trace.
  read_target-agent :
      (init_state : AppState) (g : Agent) → (read_target s hs init_state g).1 ≡ log (asked config) g
  unfolding read_target run
  read_target-agent init_state g =
      elim (s.fetch g.trace config)
        as (λ r.
          (continue (run s (lift r) (log (asked config) g))
            (λ cfg g1. (boot_target s hs init_state cfg.app_state, g1))).1
          ≡ log (asked config) g) [ ok cfg ↦ refl | err e ↦ refl ]

  finish_boot_failed-answered :
      (b : Bool) (e : Error) (g : Agent) (r : Option Error) (g' : Agent)
      → some (finish_boot_failed s hs b e g) ≡ some (answered r, g')
      → s.finish_transaction (some e) g ≡ (r, g')
  finish_boot_failed-answered true e g r g' f = cc
  finish_boot_failed-answered false e g r g' f =
      answer-answered s hs (s.finish_transaction (some e) g) r g' f

  finish-Works :
      (fuel : ℕ) (init_state : AppState) (g : Agent) (o : Outcome s hs) {g' : Agent}
      → g.active_state ≡ boot
      → ((x : Subject) → listening x g.trace ≡ false)
      → boot_chain s hs fuel (read_target s hs init_state g) ≡ o
      → finish_boot s hs o ≡ some (answered none, g')
      → Works g'
  finish-Works fuel init_state g none b off e f = cc
  finish-Works fuel init_state g (some (err x, g1)) {g'} b off e f =
      let fin = finish_boot_failed-answered (is_panic x) x g1 none g' f in
      cc (laws.abort_error x g1, ap (λ q. q.0) fin)
  finish-Works fuel init_state g (some (ok _, g1)) {g'} b off e f =
      let fin = answer-answered s hs (s.finish_transaction none g1) none g' f in
      let w : Works g1 =
        read-Works fuel g (read_target s hs init_state g)
          (ap (λ q. q.active_state) (read_target-agent init_state g) ∙ b)
          (λ x. ap (λ q. listening x q.trace) (read_target-agent init_state g) ∙ off x) e in
      let kept : g'.active_state ≡ g1.active_state =
        sym (ap (λ q. q.1.active_state) fin) ∙ laws.commit_lem g1 in
      let trace_kept : g'.trace ≡ g1.trace = sym (ap (λ q. q.1.trace) fin) ∙ laws.commit_trace g1 in
      record {
        working = rw kept w.working;
        subjects =
            λ x. ap (listening x) trace_kept ∙ w.subjects x ∙ ap (λ a. switched_on a x) (sym kept);
      }

  begin-Works :
      (fuel : ℕ) (init_state : AppState) (g : Agent) (o : Option Error) {g' : Agent}
      → g.active_state ≡ boot
      → ((x : Subject) → listening x g.trace ≡ false)
      → begin s hs
          (finish_boot s hs)
          (λ g1. boot_chain s hs fuel (read_target s hs init_state g1))
          o
          g
        ≡ some (answered none, g')
      → Works g'
  begin-Works fuel init_state g (some x) b off f = cc
  begin-Works fuel init_state g none b off f =
      finish-Works fuel init_state (record g { rollbacks = [] }) _ b off refl f

  -- If the transactions follow their laws, a start without an error, from the boot state with no
  -- subject switched on, ends in the init or the active state, with the subjects of that state
  -- switched on and no other, whatever state the configuration holds.
  pub boot-Works :
      (fuel : ℕ) (init_state : AppState) (g : Agent) {g' : Agent}
      → g.active_state ≡ boot
      → ((x : Subject) → listening x g.trace ≡ false)
      → set_active_state_from_boot s hs fuel init_state g ≡ some (answered none, g')
      → Works g'
  unfolding set_active_state_from_boot
  boot-Works fuel init_state g b off f =
      begin-Works fuel init_state g (s.start_transaction g.trace) b off f

  abbrev Answered : (ℕ → Option (Finish × Agent)) → Type 0
  Answered f = (r : Finish × Agent) × ((fuel : ℕ) → 2 ≤ fuel → f fuel ≡ some r)

  -- If the transactions follow their laws, the start has an outcome, the same with any fuel of two
  -- rounds or more.
  pub boot_total :
      (init_state : AppState) (g : Agent)
      → Answered (λ fuel. set_active_state_from_boot s hs fuel init_state g)
  unfolding set_active_state_from_boot
  boot_total init_state g = opened (s.start_transaction g.trace)
    where
      read :
          (p : Result AppState × Agent)
          → (r : Result (Unit {0}) × Agent) × ((fuel : ℕ)
              → 2 ≤ fuel
              → boot_chain s hs fuel p ≡ some r)
      read (err e, g1) = ((err e, g1), λ _ _. refl)
      read (ok target, g1) = run_chain-total env s laws 2 (on_after_boot target) g1 (omega arith)

      closed : Result (Unit {0}) × Agent → Finish × Agent
      closed (ok _, g1) = answer s hs (s.finish_transaction none g1)
      closed (err e, g1) = finish_boot_failed s hs (is_panic e) e g1

      closed_lem : (r : Result (Unit {0}) × Agent) → finish_boot s hs (some r) ≡ some (closed r)
      closed_lem (ok _, g1) = refl
      closed_lem (err e, g1) = refl

      opened :
          (o : Option Error)
          → Answered (λ fuel.
            begin s hs
              (finish_boot s hs)
              (λ g1. boot_chain s hs fuel (read_target s hs init_state g1))
              o
              g)
      opened (some e) = ((answered (some e), g), λ _ _. refl)
      opened none =
          let (r, all) = read (read_target s hs init_state (record g { rollbacks = [] })) in
          (closed r, λ fuel le. ap (finish_boot s hs) (all fuel le) ∙ closed_lem r)
