-- ===== src/DeviceInit/Phases.antt =====
-- The device init service of internal/domains/deviceinit/service.go as a machine with two phases.
use sdwan_agent.Prelude.{
  ◌≡◌, refl, ap, true, false, Option, ◌⊎◌, inl, inr, Bool-cases, List, [], ◌∷◌,
}
use sdwan_agent.Errors.{Error, Result, ok, err, is_panic, never_received}
use sdwan_agent.Handlers.Interface.{Env}
use sdwan_agent.DeviceInit.{
  InitConfig, InitState, set_up_announced, cleared, init_unless, init_device, wake_first_init,
  finish,
}
use sdwan_agent.DeviceInit.Settles.{awaited, idle}
use sdwan_agent.Machine.{Agent, Services, Event, run}
use sdwan_agent.Machine.Laws.{TransactionLaws}
use sdwan_agent.Machine.Views.{Ensures, Holds, run-Ensures}
use sdwan_agent.Machine.Rules.{Ensures-catch, Ensures-always, Ensures-weaken}

-- What callers do: `WaitFirstInit` and `InitDevice`, one at a time since both hold the lock.
pub data Operation : Type 0 where
  wait_first : Operation
  initialize : InitConfig → Operation

-- `WaitFirstInit` on what the service keeps.
abbrev pub wait_in : InitState → InitState
wait_in st = record st { first_init = true }

-- The abstract machine: a first setup is waited for, or none.
pub data Phase : Type 0 where
  resting awaiting : Phase

abbrev pub next_phase : Operation → Phase → Phase
next_phase wait_first p = awaiting
next_phase (initialize init) p = resting

abbrev pub phase_after : List Operation → Phase → Phase
phase_after [] p = p
phase_after (o ∷ os) p = phase_after os (next_phase o p)

-- What the service keeps in a phase: it never initialises between two operations.
abbrev pub kept_in : Phase → InitState
kept_in resting = idle
kept_in awaiting = awaited

-- What a view that sees nothing is.
abbrev pub nothing : Event → Unit {0} → Unit {0}
nothing e v = v

-- A run that does not return panics, or waits for ever.
abbrev pub Stops : Error → Type 0
Stops e = (is_panic e ≡ true) ⊎ (e ≡ never_received)

abbrev pub Kept : InitState → Result (Option Error × InitState) → Unit {0} → Type 0
Kept st (ok (e, st')) v = st' ≡ st
Kept st (err e) v = Stops e

module _ (env : Env) (init : InitConfig) where
  cleared-Kept :
      (st : InitState) (r : Result (Unit {0})) (v : Unit {0})
      → Ensures nothing (cleared env init st r) (Kept (record st { initializing = false })) v
  cleared-Kept st (ok _) v = refl
  cleared-Kept st (err e) v = elim (Bool-cases (is_panic e)) [
    | inl p ↦ rw p (inl p)
    | inr p ↦ rw p refl
  ]

  unless_Kept :
      (st : InitState) (v : Unit {0})
      → Ensures nothing
          (init_unless env init false st)
          (Kept (record st { initializing = false }))
          v
  unless_Kept st v =
      Ensures-catch nothing (set_up_announced env init) (cleared env init st)
        (Kept (record st { initializing = false })) v
        (Ensures-always nothing (set_up_announced env init) _ v (cleared-Kept st))

  abbrev awake : InitState → InitState
  awake st = record st { first_init = false }

  woken_then :
      (r : Result (Option Error × InitState)) (v : Unit {0})
      → Kept awaited r v
      → Ensures nothing (wake_first_init env init r) (Kept idle) v
  woken_then (ok (e, st)) v h = (ap (λ (s : InitState). awake s) h, λ e'. inr refl)
  woken_then (err e) v h = (h, λ e'. inr refl)

  finished_then :
      (r : Result (Option Error × InitState)) (v : Unit {0})
      → Kept idle r v
      → Ensures nothing (finish env init r) (Kept idle) v
  finished_then (ok (e, st)) v h = λ e'. h
  finished_then (err e) v h = λ e'. h

  init_device-Kept : (p : Phase) → Ensures nothing (init_device env init (kept_in p)) (Kept idle) tt
  init_device-Kept awaiting =
      Ensures-catch nothing (init_unless env init false awaited) (wake_first_init env init)
        (Kept idle) tt
        (Ensures-weaken nothing (init_unless env init false awaited) (Kept awaited)
          (λ r v. Ensures nothing (wake_first_init env init r) (Kept idle) v) tt woken_then
          (unless_Kept awaited tt))
  init_device-Kept resting = (
    Ensures-catch nothing (init_unless env init false idle) (finish env init) (Kept idle) tt (
        Ensures-weaken nothing (init_unless env init false idle) (Kept idle)
          (λ r v. Ensures nothing (finish env init r) (Kept idle) v) tt finished_then
          (unless_Kept idle tt)),
    λ e. refl,
  )

module _ (s : Services) (env : Env) where
  -- A run of the operations, which ends early with a panic or a call that waits for ever.
  abbrev pub go_on :
      Result (Option Error × InitState) × Agent
      → (InitState → Agent → Result (InitState × Agent))
      → Result (InitState × Agent)
  go_on (ok (e, st), g) f = f st g
  go_on (err e, g) f = err e

  abbrev pub run_operations : List Operation → InitState → Agent → Result (InitState × Agent)
  run_operations [] st g = ok (st, g)
  run_operations (wait_first ∷ os) st g = run_operations os (wait_in st) g
  run_operations (initialize init ∷ os) st g =
      go_on (run s (init_device env init st) g) (run_operations os)

  -- The outcome of a run stands for the phase of the abstract machine, unless the process
  -- panicked or a call waits for ever.
  abbrev pub Refines : Phase → Result (InitState × Agent) → Type 0
  Refines p (err e) = Stops e
  Refines p (ok (st, g)) = st ≡ kept_in p

  module _ (laws : TransactionLaws s) where
    continued :
        (os : List Operation) (init : InitConfig) (r : Result (Option Error × InitState) × Agent)
        → Holds nothing tt (Kept idle) r
        → ((g : Agent) → Refines (phase_after os resting) (run_operations os idle g))
        → Refines (phase_after os resting) (go_on r (run_operations os))
    continued os init (ok (e, st), g) h ih = rw h (ih g)
    continued os init (err e, g) h ih = h

    waiting_from :
        (os : List Operation) (p : Phase) (g : Agent)
        → Refines (phase_after os awaiting) (run_operations os awaited g)
        → Refines (phase_after os awaiting) (run_operations os (wait_in (kept_in p)) g)
    waiting_from os resting g h = h
    waiting_from os awaiting g h = h

    -- If the transactions follow their laws, any sequence of calls of `WaitFirstInit` and
    -- `InitDevice`, whatever the services answer in between and unless one of them panics or
    -- waits for ever to wake a first setup, leaves the service as the abstract machine says that only knows if a first setup is waited for: after an
    -- `InitDevice` none is, after a `WaitFirstInit` one is, and nothing is ever left initialising.
    pub run_operations-Refines :
        (os : List Operation) (p : Phase) (g : Agent)
        → Refines (phase_after os p) (run_operations os (kept_in p) g)
    run_operations-Refines [] p g = refl
    run_operations-Refines (wait_first ∷ os) p g =
        waiting_from os p g (run_operations-Refines os awaiting g)
    run_operations-Refines (initialize init ∷ os) p g =
        continued os init (run s (init_device env init (kept_in p)) g)
          (run-Ensures nothing tt s laws (init_device env init (kept_in p)) (Kept idle) g
            (init_device-Kept env init p))
          (λ g'. run_operations-Refines os resting g')
