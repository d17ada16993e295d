-- ===== src/DeviceInit/Handler.antt =====
-- internal/domains/deviceinit/handler.go: the request that starts the initialisation, and the report
-- of its end.
use sdwan_agent.Prelude.{ℕ, zero, suc, Option, none, some, ◌==◌, if◌then◌else◌}
use sdwan_agent.Errors.{Error, Result, ok, err, reason}
use sdwan_agent.Entities.{same, active}
use sdwan_agent.Objects.Bodies.{empty_body}
use sdwan_agent.Action.{Action, fail, fetch, ask, tell, done, catch, ◌>>=◌}
use sdwan_agent.Action.Calls.{
  current_state, is_initializing, publish_request, publisher_reconnect, init_device_finished,
}
use sdwan_agent.Handlers.Interface.{Env}
use sdwan_agent.Requests.{Incoming, Job, unmarshal, respond_and, with_error_response}
use sdwan_agent.DeviceInit.{InitConfig, InitState, init_device}

abbrev pub give_up : Error → Action (Unit {0})
give_up e = tell publisher_reconnect (fail e)

-- The `switch` on a response, with what a retry does. Only an error of the request and a response
-- with the status 503 are retried.
abbrev pub on_response :
    (Error → Action (Unit {0})) → Result (Option (ℕ × Error)) → Action (Unit {0})
on_response retry (ok none) = done
on_response retry (ok (some (status, e))) = if status == 503 then retry e else give_up e
on_response retry (err e) = retry e

-- `sendInitDeviceFinished`, with the attempts that are left after the next one.
abbrev pub send_init_device_finished : Option Error → ℕ → Action (Unit {0})
send_init_device_finished init_err zero =
    fetch (publish_request init_device_finished init_err) (on_response give_up)
send_init_device_finished init_err (suc attempts) =
    fetch (publish_request init_device_finished init_err)
      (on_response (λ _. send_init_device_finished init_err attempts))

-- The goroutine: five attempts to report, and an error of the report is only logged.
abbrev pub report : Option Error × InitState → Job
report (e, _) = catch (send_init_device_finished e 4) (λ _. done)

abbrev pub init_and_report : Env → InitState → InitConfig → Job
init_and_report env st init = init_device env init st >>= report

-- `InitDevice`, with what the service keeps when the goroutine has its lock.
abbrev pub check_and_respond : Env → InitState → InitConfig → Action Job
check_and_respond env st init = ask current_state (λ state.
    if same state active
    then ask is_initializing (λ initializing.
      if initializing
      then fail (reason "InitDevice: device already initializing")
      else respond_and empty_body (init_and_report env st init))
    else fail (reason "InitDevice: device not in active state"))

abbrev pub handle_init_device : Env → InitState → Incoming InitConfig → Action Job
handle_init_device env st i =
    with_error_response (do init ← unmarshal i; check_and_respond env st init)
