-- ===== src/PonyEvents.antt =====
-- internal/domains/pony/ponyevent/service.go: a dump for each tunnel that fails.
use sdwan_agent.Prelude.{List, [], ◌∷◌}
use sdwan_agent.Action.{Action, done, tell}
use sdwan_agent.Action.Calls.{subscribe_tunnels, unsubscribe_tunnels, dump_stats}

-- What the `select` receives.
pub data PonyEvent : Type 0 where
  cancelled tunnel_failed : PonyEvent

-- The loop, over what it receives in turn; at the end of a list it waits.
abbrev pub listen : List PonyEvent → Action (Unit {0})
listen [] = done
listen (cancelled ∷ events) = tell unsubscribe_tunnels done
listen (tunnel_failed ∷ events) = tell (dump_stats "tunnel failed") (listen events)

-- `StartListenEvents`.
abbrev pub start_listen_events : List PonyEvent → Action (Unit {0})
start_listen_events events = tell subscribe_tunnels (listen events)
