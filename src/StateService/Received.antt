-- ===== src/StateService/Received.antt =====
-- The whole of `Run` of internal/domains/appstate/service.go: the start from the boot state, and the
-- loop over the transitions that are received. Between transitions the device rests.
use sdwan_agent.Prelude.{
  ◌≡◌, ◌≢◌, refl, ap, ℕ, ◌≤◌, Option, none, some, List, [], ◌∷◌, All, length, inl, inr, Bool, true,
  false, suc, ◌<◌, arith, ◌⊎◌,
}
use sdwan_agent.Errors.{Error, ok, err, is_panic}
use sdwan_agent.Entities.{
  AppState, boot, init, active, update_config, maintenance, ztp_setup, reset, unknown, Transition,
  to_state,
}
use sdwan_agent.Action.Calls.{Subject}
use sdwan_agent.Handlers.Interface.{StateHandler, Env, is_hub}
use sdwan_agent.Machine.{Agent, Services}
use sdwan_agent.Machine.Laws.{TransactionLaws}
use sdwan_agent.Machine.Quiet.{listening}
use sdwan_agent.StateService.{
  perform, set_active_state_from_boot, Finish, answered, crashed, finish_failed, finish, begin,
  run_chain, Outcome,
}
use sdwan_agent.StateService.Wiring.{agent_handlers}
use sdwan_agent.StateService.Chain.{Rests}
use sdwan_agent.StateService.Runs.{perform_total}
use sdwan_agent.StateService.Boot.{boot-Works, boot_total}
use sdwan_agent.StateService.Perform.{perform_settles, perform_fails, run_chain-Rests}

-- What the service comes to: an error or a panic of the start ends the process; otherwise it has
-- answered the transitions, each with its error or without one, or those before one that panicked.
pub data ServiceRun : Type 0 where
  fatal : Error → ServiceRun
  served : List (Option Error) → Agent → ServiceRun
  panicked : List (Option Error) → Error → ServiceRun
  unfinished : ServiceRun

abbrev pub add_reply : Option Error → ServiceRun → ServiceRun
add_reply r (fatal e) = fatal e
add_reply r (served rs g) = served (r ∷ rs) g
add_reply r (panicked rs e) = panicked (r ∷ rs) e
add_reply r unfinished = unfinished

module _ (s : Services) (handlers : List StateHandler) (fuel : ℕ) where
  -- One received transition, and the rest.
  abbrev pub reply_and : (Agent → ServiceRun) → Option (Finish × Agent) → ServiceRun
  reply_and next none = unfinished
  reply_and next (some (answered r, g)) = add_reply r (next g)
  reply_and next (some (crashed e, g)) = panicked [] e

  -- The loop of `Run`.
  unfoldable pub run_received : List Transition → Agent → ServiceRun
  run_received [] g = served [] g
  run_received (t ∷ ts) g = reply_and (run_received ts) (perform s handlers fuel t g)

  abbrev pub after_boot : List Transition → Option (Finish × Agent) → ServiceRun
  after_boot ts none = unfinished
  after_boot ts (some (crashed e, g)) = fatal e
  after_boot ts (some (answered (some e), g)) = fatal e
  after_boot ts (some (answered none, g)) = run_received ts g

  -- `Run`, for the transitions that it receives in turn until it is cancelled.
  unfoldable pub run_service : AppState → List Transition → Agent → ServiceRun
  run_service init_state ts g =
      after_boot ts (set_active_state_from_boot s handlers fuel init_state g)

-- A state to rest in.
abbrev pub IsResting : Env → AppState → Type 0
IsResting env init = Unit
IsResting env active = Unit
IsResting env reset = is_hub env ≡ false
IsResting env _ = ⊥

abbrev pub Served : Env → ℕ → ServiceRun → Type 0
Served env n (fatal e) = Unit
Served env n (served rs g) = IsResting env g.active_state × (length rs ≡ n)
Served env n (panicked rs e) = (is_panic e ≡ true) × (length rs < n)
Served env n unfinished = ⊥

IsResting-of_Rests :
    (env : Env) (t : Transition) (a : AppState)
    → to_state t ≢ boot
    → Rests env t a
    → IsResting env a
IsResting-of_Rests env t init n h = tt
IsResting-of_Rests env t active n h = tt
IsResting-of_Rests env t reset n h = h.1
IsResting-of_Rests env t boot n h = n (ap to_state h)
IsResting-of_Rests env t update_config n h = h
IsResting-of_Rests env t maintenance n h = h
IsResting-of_Rests env t ztp_setup n h = h
IsResting-of_Rests env t (unknown u) n h = h

IsResting-ne-boot : (env : Env) (a : AppState) → IsResting env a → a ≢ boot
IsResting-ne-boot env boot h = absurd h
IsResting-ne-boot env _ h = λ e. cc

module _ (s : Services) (laws : TransactionLaws s) (env : Env) (fuel : ℕ) where
  abbrev hs : List StateHandler
  hs = agent_handlers env

  perform-IsResting :
      (t : Transition) (g : Agent) (r : Option Error) (g' : Agent)
      → to_state t ≢ boot
      → IsResting env g.active_state
      → perform s hs fuel t g ≡ some (answered r, g')
      → IsResting env g'.active_state
  perform-IsResting t g none g' n h e =
      IsResting-of_Rests env t g'.active_state n (perform_settles s laws env fuel t g e)
  perform-IsResting t g (some x) g' n h e =
      elim (perform_fails s laws env fuel t g (IsResting-ne-boot env g.active_state h) n e) [
        | inl same_state ↦ rw same_state h
        | inr (g1, chain, same_state) ↦
            rw same_state (
              IsResting-of_Rests env t g1.active_state n
                (run_chain-Rests s laws env fuel t _ chain))
      ]

  add_reply-Served :
      (n : ℕ) (r : Option Error) (o : ServiceRun)
      → Served env n o
      → Served env (suc n) (add_reply r o)
  add_reply-Served n r (fatal e) h = tt
  add_reply-Served n r (served rs g) h = (h.0, ap suc h.1)
  add_reply-Served n r (panicked rs e) h = (h.0, omega (arith, h.1))
  add_reply-Served n r unfinished h = h

  -- What crashes is a panic.
  finish_failed-crashed :
      (b : Bool) (x : Error) (g1 : Agent) {e : Error} {g' : Agent}
      → is_panic x ≡ b
      → some (finish_failed s hs b x g1) ≡ some (crashed e, g')
      → is_panic e ≡ true
  finish_failed-crashed true x g1 {e} p f = let same_error : x ≡ e = cc in rw same_error at p
  finish_failed-crashed false x g1 p f = cc

  finish-crashed :
      (o : Outcome s hs) {e : Error} {g' : Agent}
      → finish s hs o ≡ some (crashed e, g')
      → is_panic e ≡ true
  finish-crashed none f = cc
  finish-crashed (some (ok _, g1)) f = cc
  finish-crashed (some (err x, g1)) f = finish_failed-crashed (is_panic x) x g1 refl f

  begin-crashed :
      (fuel : ℕ) (t : Transition) (g : Agent) (o : Option Error) {e : Error} {g' : Agent}
      → begin s hs (finish s hs) (run_chain s hs fuel t) o g ≡ some (crashed e, g')
      → is_panic e ≡ true
  begin-crashed fuel t g none f = finish-crashed _ f
  begin-crashed fuel t g (some x) f = cc

  perform-crashed :
      (t : Transition) (g : Agent) {e : Error} {g' : Agent}
      → perform s hs fuel t g ≡ some (crashed e, g')
      → is_panic e ≡ true
  unfolding perform
  perform-crashed t g f = begin-crashed fuel t g (s.start_transaction g.trace) f

  run_received-Served :
      2 ≤ fuel
      → (ts : List Transition) (g : Agent) → All (λ t. to_state t ≢ boot) ts
      → IsResting env g.active_state
      → Served env (length ts) (run_received s hs fuel ts g)
  unfolding run_received
  run_received-Served enough [] g ns h = (h, refl)
  run_received-Served enough (t ∷ ts) g ns h =
      let ((r, g'), all) = perform_total s laws env t g in
      let e : perform s hs fuel t g ≡ some (r, g') = all fuel enough in
      rw e (after_one r g' e (λ h'. run_received-Served enough ts g' ns.1 h'))
    where
      after_one :
          (r : Finish) (g' : Agent)
          → perform s hs fuel t g ≡ some (r, g')
          → (IsResting env g'.active_state → Served env (length ts) (run_received s hs fuel ts g'))
          → Served env
              (suc (length ts))
              (reply_and s hs fuel (run_received s hs fuel ts) (some (r, g')))
      after_one (crashed x) g' e ih = (perform-crashed t g e, omega arith)
      after_one (answered r) g' e ih =
          add_reply-Served (length ts) r (run_received s hs fuel ts g')
            (ih (perform-IsResting t g r g' ns.0 h e))

  working-IsResting : (a : AppState) → (a ≡ init) ⊎ (a ≡ active) → IsResting env a
  working-IsResting a (inl e) = rw e tt
  working-IsResting a (inr e) = rw e tt

  after_boot-Served :
      2 ≤ fuel
      → (init_state : AppState) (ts : List Transition) (g : Agent) → All (λ t. to_state t ≢ boot) ts
      → g.active_state ≡ boot
      → ((x : Subject) → listening x g.trace ≡ false)
      → (r : Finish) (g' : Agent) → set_active_state_from_boot s hs fuel init_state g ≡ some (r, g')
      → Served env (length ts) (after_boot s hs fuel ts (some (r, g')))
  after_boot-Served enough init_state ts g ns b off (crashed x) g' e = tt
  after_boot-Served enough init_state ts g ns b off (answered (some x)) g' e = tt
  after_boot-Served enough init_state ts g ns b off (answered none) g' e =
      run_received-Served enough ts g' ns (
        working-IsResting g'.active_state (boot-Works s laws env fuel init_state g b off e).working)

  -- If the transactions follow their laws, a run of the state service, from the boot state with no
  -- subject switched on, whatever transitions but those to boot it receives, comes to an end with two
  -- rounds of fuel or more. The start fails or panics and ends the process, or each transition is
  -- answered, or those before one that panics, which ends the process without an answer. If each is
  -- answered, then at the end, and so after each of them, the device is in the init or the active state or, if it is
  -- no hub, in the reset state, whichever transitions fail.
  pub run_service-Served :
      2 ≤ fuel
      → (init_state : AppState) (ts : List Transition) (g : Agent) → All (λ t. to_state t ≢ boot) ts
      → g.active_state ≡ boot
      → ((x : Subject) → listening x g.trace ≡ false)
      → Served env (length ts) (run_service s hs fuel init_state ts g)
  unfolding run_service
  run_service-Served enough init_state ts g ns b off =
      let ((r, g'), all) = boot_total s laws env init_state g in
      let e : set_active_state_from_boot s hs fuel init_state g ≡ some (r, g') = all fuel enough in
      rw e (after_boot-Served enough init_state ts g ns b off r g' e)
