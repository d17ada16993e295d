-- ===== src/Machine.antt =====
-- The agent's state, the services that it calls and the runner of an `Action`. The services stand
-- for code outside the repository and for the system: each result may depend on all that was
-- called before.
pub mod Op
pub mod Laws
pub mod Views
pub mod Keeps
pub mod Rules
pub mod Quiet
pub mod FirstInit
use sdwan_agent.Prelude.{Bool, true, false, Option, none, some, List, ◌∷◌, if◌then◌else◌}
use sdwan_agent.Errors.{Error, Result, ok, err, device_init_timeout, already_waiting_first_init}
use sdwan_agent.Entities.{AppState}
use sdwan_agent.Action.{Action, ret, fail, attempt, fetch, ask, tell, execute, register, receive}
use sdwan_agent.Action.Calls.{Call, Query, Answer, Effect, InitChannel, fresh, refused}

-- What was called, and whether a call without a value succeeded.
pub data Event : Type 0 where
  did : Call → Bool → Event
  asked : Query → Event

-- What a transaction is given to run or to undo: a handler's function, or the two functions of
-- `updateAppState`.
pub data Func : Type 0 where
  effect : Effect → Func
  enter : AppState → Func
  restore : AppState → Func

pub record Agent : Type 0 where
  -- `StateService.activeState`
  pub active_state : AppState
  -- the undo functions that the open transaction holds, the last one first
  pub rollbacks : List Func
  -- all calls, the last one first
  pub trace : List Event
  -- `firstInitData != nil` of the device init service
  pub first_init_waiting : Bool

-- `InitDevice` reported its result, or the timer fired first.
pub data InitSignal : Type 0 where
  finished : Option Error → InitSignal
  timed_out : InitSignal

pub record Services : Type 0 where
  pub attempt : List Event → Call → Option Error
  pub fetch : List Event → (q : Query) → Result (Answer q)
  pub ask : List Event → (q : Query) → Answer q
  pub first_init : List Event → InitSignal
  -- the activity service's `ExecuteFunc`, `StartTransaction` and `FinishTransaction`
  pub execute_func : Func → Func → Agent → Option Error × Agent
  pub start_transaction : List Event → Option Error
  pub finish_transaction : Option Error → Agent → Option Error × Agent

abbrev pub succeeded : Option Error → Bool
succeeded none = true
succeeded (some _) = false

abbrev pub log : Event → Agent → Agent
log e g = record g { trace = e ∷ g.trace }

-- `WaitFirstInit`: a second waiter gets a channel that holds an error.
abbrev pub wait_first_init : Agent → InitChannel × Agent
wait_first_init g =
    (if g.first_init_waiting then refused else fresh, record g { first_init_waiting = true })

-- The `select` of `runFirstSetup`. A result clears `firstInitData`; the timeout leaves it.
abbrev pub take_signal : InitSignal → Agent → Option Error × Agent
take_signal (finished r) g = (r, record g { first_init_waiting = false })
take_signal timed_out g = (some device_init_timeout, g)

abbrev pub select_init : Services → InitChannel → Agent → Option Error × Agent
select_init s refused g = (some already_waiting_first_init, g)
select_init s fresh g = take_signal (s.first_init g.trace) g

unfoldable pub run : {A : Type 0} → Services → Action A → Agent → Result A × Agent
run s (ret a) g = (ok a, g)
run s (fail e) g = (err e, g)
run s (attempt c k) g = let r = s.attempt g.trace c in run s (k r) (log (did c (succeeded r)) g)
run s (fetch q k) g = run s (k (s.fetch g.trace q)) (log (asked q) g)
run s (ask q k) g = run s (k (s.ask g.trace q)) (log (asked q) g)
run s (tell c m) g = run s m (log (did c true) g)
run s (execute fn rl k) g = let (r, g') = s.execute_func (effect fn) (effect rl) g in run s (k r) g'
run s (register k) g = let (c, g') = wait_first_init g in run s (k c) g'
run s (receive c k) g = let (r, g') = select_init s c g in run s (k r) g'
