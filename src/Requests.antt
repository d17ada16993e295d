-- ===== src/Requests.antt =====
-- What the handlers of websocket requests share (internal/domains/*/handler.go): decoding a request,
-- answering it, and the deferred function that answers with an error. A handler returns the function
-- that it starts as a goroutine.
pub mod Commands
pub mod Configs
pub mod States
pub mod Ports
pub mod Leases
pub mod Bgp
pub mod Modems
pub mod Numbered
pub mod Routes
pub mod Replies
pub mod Silences
pub mod Collected
pub mod Ages
pub mod Parsed
pub mod Keys
pub mod Advertised
pub mod Served
pub mod Endings
pub mod Answered
pub mod Attempts
pub mod Chosen
pub mod Peers
use sdwan_agent.Prelude.{Bool, true, false, Option, none, some, if◌then◌else◌}
use sdwan_agent.Errors.{Error, Result, ok, err, joined, is_panic}
use sdwan_agent.Objects.Bodies.{Body}
use sdwan_agent.Action.{Action, ret, fail, attempt, done, call, lift, or_return, catch, ◌>>=◌, ◌>>◌}
use sdwan_agent.Action.Calls.{publish_response, publish_error_response}

-- A request as `json.Unmarshal` decodes it, and the validator's error for a decoded value.
pub record Incoming (T : Type 0) : Type 0 where
  pub decoded : Result T
  pub invalid : T → Option Error

abbrev pub unmarshal : {T : Type 0} → Incoming T → Action T
unmarshal i = lift i.decoded

abbrev pub unmarshal_valid : {T : Type 0} → Incoming T → Action T
unmarshal_valid i = do request ← lift i.decoded; or_return (i.invalid request); ret request

-- The function of a goroutine that a handler starts, or nothing to do.
abbrev pub Job : Type 0
Job = Action (Unit {0})

-- `PublishResponse` as a handler's last call.
abbrev pub respond_and : Body → Job → Action Job
respond_and body job = do call (publish_response body); ret job

abbrev pub respond : Body → Action Job
respond body = respond_and body done

abbrev pub send_error : Error → Action Job
send_error e =
    attempt (publish_error_response e)
      (elim [ none ↦ fail e | some send_err ↦ fail (joined send_err e) ])

-- The deferred function: it answers with the error that the handler returns. A panic returns none.
abbrev pub deferred : Result Job → Action Job
deferred (ok job) = ret job
deferred (err e) = if is_panic e then fail e else send_error e

abbrev pub with_error_response : Action Job → Action Job
with_error_response m = catch m deferred
