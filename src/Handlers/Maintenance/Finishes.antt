-- ===== src/Handlers/Maintenance/Finishes.antt =====
-- How a maintenance ends (`Handle` and `sendInstallFinished` of maintenance.go).
use sdwan_agent.Prelude.{◌≡◌, refl, Bool, true, false, Option, none, some}
use sdwan_agent.Errors.{Error, Result, ok, err}
use sdwan_agent.Entities.{
  AppState, Transition, InstallPackageRequest, on_update_device, on_after_boot,
  on_update_device_finished,
}
use sdwan_agent.Action.{Action, catch, error_of, lift, or_return, ◌>>=◌}
use sdwan_agent.Action.Calls.{publisher_reconnect}
use sdwan_agent.Handlers.Maintenance.{
  handle, update_device, wait_install_finished_after_boot, report, send_install_finished,
  join_errors,
}
use sdwan_agent.Machine.{Agent, Services, Event, did, run}
use sdwan_agent.Machine.Laws.{TransactionLaws}
use sdwan_agent.Machine.Views.{Ensures, view, Holds, run-Ensures}
use sdwan_agent.Machine.Rules.{Ensures-catch, Ensures-always}

-- Whether the last call was the publisher's reconnection.
abbrev pub reconnects : Event → Bool → Bool
reconnects (did publisher_reconnect _) b = true
reconnects _ b = false

-- The handler asks for the end of the update, and its last call was the reconnection.
abbrev pub Finished : Result (Option Transition) → Bool → Type 0
Finished r b = ((e : Option Error) × (r ≡ ok (some (on_update_device_finished e)))) × (b ≡ true)

module _ (f : Result (Unit {0}) → Option Error) where
  -- What is left behind if the handler goes on to ask for the end with the error `f`.
  abbrev Goes : Result (Unit {0}) → Bool → Type 0
  Goes r b = Finished (ok (some (on_update_device_finished (f r)))) b

  answered : (r : Result (Option Error)) → Ensures reconnects (lift r >>= or_return) Goes true
  answered (ok none) = ((_, refl), refl)
  answered (ok (some e)) = ((_, refl), refl)
  answered (err e) = ((_, refl), refl)

  send-Goes : (o : Option Error) (b : Bool) → Ensures reconnects (send_install_finished o) Goes b
  send-Goes o b = (λ x. answered (ok x), λ e. answered (err e))

report-Finished : (r : Result (Unit {0})) (b : Bool) → Ensures reconnects (report r) Finished b
report-Finished r b =
    Ensures-catch reconnects (send_install_finished (error_of r)) _ Finished b
      (send-Goes (λ sent. join_errors (error_of r) (error_of sent)) (error_of r) b)

-- A part of the handler followed by the report.
reported-Finished :
    (m : Action (Unit {0})) (b : Bool) → Ensures reconnects (catch m report) Finished b
reported-Finished m b =
    Ensures-catch reconnects m report Finished b (Ensures-always reconnects m _ b report-Finished)

-- What starts a maintenance: a request, or the start of the agent in the middle of one.
pub data Begins : Transition → Type 0 where
  requested : {request : InstallPackageRequest} → Begins (on_update_device request)
  restarted : {state : AppState} → Begins (on_after_boot state)

module _ (s : Services) (laws : TransactionLaws s) where
  -- If the transactions follow their laws, a maintenance, requested or found after a restart, always
  -- asks for the transition that ends it and never fails itself, whatever the services answer, and
  -- its last call is the publisher's reconnection.
  pub handle-Finished :
      {t : Transition} (begins : Begins t) (g : Agent)
      → Holds reconnects false Finished (run s (handle t) g)
  handle-Finished {t} (requested {request}) g =
      run-Ensures reconnects false s laws (handle (on_update_device request)) Finished g
        (reported-Finished (update_device request) (view reconnects false g.trace))
  handle-Finished (restarted {state}) g =
      run-Ensures reconnects false s laws (handle (on_after_boot state)) Finished g
        (reported-Finished wait_install_finished_after_boot (view reconnects false g.trace))
