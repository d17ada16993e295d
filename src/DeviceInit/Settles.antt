-- ===== src/DeviceInit/Settles.antt =====
-- How `InitDevice` of internal/domains/deviceinit/service.go leaves the device: its deferred functions.
use sdwan_agent.Prelude.{
  ◌≡◌, refl, ap, Bool, true, false, Option, some, ◌⊎◌, inl, inr, if◌then◌else◌,
}
use sdwan_agent.Errors.{Error, Result, ok, err, is_panic, never_received}
use sdwan_agent.Action.{fail, ret, lift, tell}
use sdwan_agent.Action.Calls.{
  pony_pause, pony_resume, start_transaction, signal_first_init, finish_transaction, emit_finished,
}
use sdwan_agent.Handlers.Interface.{Env}
use sdwan_agent.DeviceInit.{
  InitConfig, InitState, set_up, set_up_paused, set_up_announced, cleared, init_unless, init_device,
  wake_first_init, finish, deferred_error,
}
use sdwan_agent.Machine.{Agent, Services, Event, did, asked, run}
use sdwan_agent.Machine.Laws.{TransactionLaws}
use sdwan_agent.Machine.Views.{Ensures, Holds, view, run-Ensures}
use sdwan_agent.Machine.Rules.{Ensures-catch, Ensures-always, Ensures-weaken}

-- Is the pony service paused, is a transaction open, and was a first setup woken.
pub record Marks : Type 0 where
  pub paused : Bool
  pub opened : Bool
  pub woken : Bool

abbrev pub marks : Event → Marks → Marks
marks (did pony_pause _) m = record m { paused = true }
marks (did pony_resume _) m = record m { paused = false }
marks (did start_transaction true) m = record m { opened = true }
marks (asked (finish_transaction _)) m = record m { opened = false }
marks (did (signal_first_init _) true) m = record m { woken = true }
marks _ m = m

-- Nothing is initialised, and a first setup waits or none.
abbrev pub awaited : InitState
awaited = record { first_init = true; initializing = false }

abbrev pub idle : InitState
idle = record { first_init = false; initializing = false }

-- The end of a run for a first setup that waits, and for none.
abbrev pub IsDone : Bool → Marks → Type 0
IsDone true m = m.woken ≡ true
IsDone false m = m.opened ≡ false

-- The pony service runs; a run that returns leaves the service idle and its transaction finished or
-- the first setup woken; one that does not return panics, with both done too, or waits for ever to wake
-- the first setup.
abbrev pub Stopped : Bool → Error → Marks → Type 0
Stopped b e m = ((is_panic e ≡ true) × IsDone b m) ⊎ ((b ≡ true) × (e ≡ never_received))

abbrev pub Settled : Bool → Result (Option Error × InitState) → Marks → Type 0
Settled b (ok (e, st)) m = (m.paused ≡ false) × (st ≡ idle) × IsDone b m
Settled b (err e) m = (m.paused ≡ false) × Stopped b e m

-- The outcome of the guarded part: the flag is cleared.
abbrev pub Cleared : InitState → Result (Option Error × InitState) → Marks → Type 0
Cleared st (ok (e, st')) m = (m.paused ≡ false) × (st' ≡ record st { initializing = false })
Cleared st (err e) m = (m.paused ≡ false) × (is_panic e ≡ true)

abbrev pub Resumed : Result (Unit {0}) → Marks → Type 0
Resumed r m = m.paused ≡ false

module _ (env : Env) (init : InitConfig) where
  resumed :
      (r : Result (Unit {0})) (m : Marks)
      → Ensures marks
          (tell pony_resume (lift r))
          (λ r' w. Ensures marks (tell (emit_finished (deferred_error r')) (lift r')) Resumed w)
          m
  resumed (ok _) m = refl
  resumed (err e) m = refl

  set_up_announced-Resumed : (m : Marks) → Ensures marks (set_up_announced env init) Resumed m
  set_up_announced-Resumed m =
      Ensures-catch marks (set_up_paused env init)
        (λ r. tell (emit_finished (deferred_error r)) (lift r)) Resumed m
        (Ensures-catch marks (set_up env init) (λ r. tell pony_resume (lift r)) _
          (record m { paused = true })
          (Ensures-always marks (set_up env init) _ (record m { paused = true }) resumed))

  cleared-Cleared :
      (st : InitState) (r : Result (Unit {0})) (m : Marks)
      → m.paused ≡ false
      → Ensures marks (cleared env init st r) (Cleared st) m
  cleared-Cleared st (ok _) m h = (h, refl)
  cleared-Cleared st (err e) m h = by_panic (is_panic e) refl
    where
      by_panic :
          (b : Bool)
          → is_panic e ≡ b
          → Ensures marks
              (if b then fail e else ret (some e, record st { initializing = false }))
              (Cleared st)
              m
      by_panic true p = (h, p)
      by_panic false p = (h, refl)

  init_unless-Cleared :
      (st : InitState) (m : Marks) → Ensures marks (init_unless env init false st) (Cleared st) m
  init_unless-Cleared st m =
      Ensures-catch marks (set_up_announced env init) (cleared env init st) (Cleared st) m (
        Ensures-weaken marks (set_up_announced env init) Resumed _ m (cleared-Cleared st)
          (set_up_announced-Resumed m))

  abbrev wake : InitState → InitState
  wake st = record st { first_init = false }

  woken_up :
      (r : Result (Option Error × InitState)) (m : Marks)
      → Cleared awaited r m
      → Ensures marks (wake_first_init env init r) (Settled true) m
  woken_up (ok (e, st)) m h = ((h.0, ap wake h.1, refl), λ e'. (h.0, inr (refl, refl)))
  woken_up (err e) m h = ((h.0, inl (h.1, refl)), λ e'. (h.0, inr (refl, refl)))

  finished_up :
      (r : Result (Option Error × InitState)) (m : Marks)
      → Cleared idle r m
      → Ensures marks (finish env init r) (Settled false) m
  finished_up (ok (e, st)) m h = λ e'. (h.0, h.1, refl)
  finished_up (err e) m h = λ e'. (h.0, inl (h.1, refl))

  init_device-Ensures :
      (b : Bool) (m : Marks)
      → m.paused ≡ false
      → m.opened ≡ false
      → Ensures marks
          (init_device env init (record { first_init = b; initializing = false }))
          (Settled b)
          m
  init_device-Ensures true m h h' =
      Ensures-catch marks (init_unless env init false awaited) (wake_first_init env init)
        (Settled true) m
        (Ensures-weaken marks (init_unless env init false awaited) (Cleared awaited)
          (λ r w. Ensures marks (wake_first_init env init r) (Settled true) w) m woken_up
          (init_unless-Cleared awaited m))
  init_device-Ensures false m h h' = (
    Ensures-catch marks (init_unless env init false idle) (finish env init) (Settled false)
        (record m { opened = true })
        (Ensures-weaken marks (init_unless env init false idle) (Cleared idle)
          (λ r w. Ensures marks (finish env init r) (Settled false) w) (record m { opened = true })
          finished_up (init_unless-Cleared idle (record m { opened = true }))),
    λ e. (h, refl, h'),
  )

  module _ (s : Services) (laws : TransactionLaws s) where
    -- If the transactions follow their laws, no initialisation runs, and at its start the pony service
    -- is not paused and no transaction is open, then a run of `InitDevice` ends with the pony service
    -- not paused, whatever the services answer. A run that returns, with an error or without, leaves
    -- nothing initialising and no first setup waiting; it has woken the first setup if one waited, and
    -- otherwise no transaction of its own is open. The only runs that do not return are panics, which
    -- have woken the first setup or finished the transaction too, and those that wait for ever since
    -- the first setup that was to be woken does not receive.
    pub init_device-Settled :
        (waits woken : Bool) (g : Agent)
        → view marks (record { paused = false; opened = false; woken = woken }) g.trace
          ≡ record { paused = false; opened = false; woken = woken }
        → Holds marks
            (record { paused = false; opened = false; woken = woken })
            (Settled waits)
            (run s (init_device env init (record { first_init = waits; initializing = false })) g)
    init_device-Settled waits woken g h =
        run-Ensures marks _ s laws
          (init_device env init (record { first_init = waits; initializing = false }))
          (Settled waits) g (rw h (init_device-Ensures waits _ refl refl))
