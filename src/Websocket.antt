-- ===== src/Websocket.antt =====
-- internal/domains/websocket/service.go: the publisher is started and stopped at most once.
use sdwan_agent.Prelude.{Bool, true, false, not}
use sdwan_agent.Errors.{publisher_already_started, publisher_already_stopped}
use sdwan_agent.Action.{Action, ret, fail, ask, tell, done, ◌>>=◌}
use sdwan_agent.Action.Calls.{publisher_closed, publisher_start, publisher_stop}

-- `IsStarted`.
abbrev pub is_started : Action Bool
is_started = ask publisher_closed (λ closed. ret (not closed))

abbrev pub start_unless : Bool → Action (Unit {0})
start_unless true = fail publisher_already_started
start_unless false = tell publisher_start done

abbrev pub stop_if : Bool → Action (Unit {0})
stop_if true = tell publisher_stop done
stop_if false = fail publisher_already_stopped

-- `Start`.
abbrev pub start : Action (Unit {0})
start = is_started >>= start_unless

-- `Stop`.
abbrev pub stop : Action (Unit {0})
stop = is_started >>= stop_if
