-- ===== src/Requests/Attempts.antt =====
-- The loops that report to the orchestrator until it answers: `sendInitDeviceFinished` of
-- internal/domains/deviceinit/handler.go and the goroutine of `UpdateAllConfigs` of
-- internal/domains/config/handler.go. And `checkWebsocketConnection` of the device init service.
use sdwan_agent.Prelude.{
  ◌≡◌, refl, ℕ, zero, suc, ◌+◌, ◌≤◌, ◌<◌, ◌⊎◌, inl, inr, Bool, true, false, Option, none, some,
  List, ◌==◌, arith,
}
use sdwan_agent.Errors.{Error, Result, ok, err}
use sdwan_agent.Action.{Action, done}
use sdwan_agent.Action.Calls.{
  publish_request, publisher_reconnect, publisher_active, update_all_configs_finished,
}
use sdwan_agent.DeviceInit.{check_websocket_connection}
use sdwan_agent.DeviceInit.Handler.{give_up, on_response, send_init_device_finished}
use sdwan_agent.Requests.Configs.{send_update_config_finished, sent_error}
use sdwan_agent.Machine.{Agent, Services, Event, did, asked, log, run}
use sdwan_agent.Machine.Laws.{TransactionLaws}
use sdwan_agent.Machine.Views.{Ensures, Holds, view, run-Ensures}
use sdwan_agent.Machine.Rules.{Ensures-weaken, Ensures-if}

-- The requests that were sent, and whether the publisher reconnected.
pub record Sent : Type 0 where
  pub requests : ℕ
  pub reconnected : Bool

abbrev pub sent : Event → Sent → Sent
sent (asked (publish_request _ _)) v = record v { requests = suc v.requests }
sent (did publisher_reconnect _) v = record v { reconnected = true }
sent _ v = v

-- From `n` requests on, at least one and at most `k` were sent.
abbrev pub IsWithin : ℕ → ℕ → ℕ → Type 0
IsWithin n k w = (n < w) × (w ≤ k + n)

-- A report that gets through leaves the connection; one that does not ends in a reconnection.
abbrev pub Reported : Bool → ℕ → ℕ → Result (Unit {0}) → Sent → Type 0
Reported b n k (ok _) w = IsWithin n k w.requests × (w.reconnected ≡ b)
Reported b n k (err e) w = IsWithin n k w.requests × (w.reconnected ≡ true)

once : (n k : ℕ) → IsWithin n (suc k) (suc n)
once n k = (omega arith, omega arith)

one_more : (n k w : ℕ) → IsWithin (suc n) k w → IsWithin n (suc k) w
one_more n k w h = (omega arith, omega arith)

Reported-one_more :
    (b : Bool) (n k : ℕ) (r : Result (Unit {0})) (w : Sent)
    → Reported b (suc n) k r w
    → Reported b n (suc k) r w
Reported-one_more b n k (ok _) w h = (one_more n k w.requests h.0, h.1)
Reported-one_more b n k (err e) w h = (one_more n k w.requests h.0, h.1)

on_response-Reported :
    (retry : Error → Action (Unit {0})) (b : Bool) (n k : ℕ)
    → ((e : Error)
        → Ensures sent
            (retry e)
            (Reported b n (suc k))
            (record { requests = suc n; reconnected = b }))
    → (r : Result (Option (ℕ × Error)))
    → Ensures sent
        (on_response retry r)
        (Reported b n (suc k))
        (record { requests = suc n; reconnected = b })
on_response-Reported retry b n k h (ok none) = (once n k, refl)
on_response-Reported retry b n k h (ok (some (status, e))) =
    Ensures-if sent (status == 503) (retry e) (give_up e) (Reported b n (suc k)) _ (λ _. h e)
      (λ _. (once n k, refl))
on_response-Reported retry b n k h (err e) = h e

send-Reported :
    (o : Option Error) (b : Bool) (n k : ℕ)
    → Ensures sent
        (send_init_device_finished o k)
        (Reported b n (suc k))
        (record { requests = n; reconnected = b })
send-Reported o b n zero =
    let answered = on_response-Reported give_up b n zero (λ e. (once n zero, refl)) in
    (λ x. answered (ok x), λ e. answered (err e))
send-Reported o b n (suc k) =
    let again =
      on_response-Reported (λ _. send_init_device_finished o k) b n (suc k)
        (λ e.
          Ensures-weaken sent (send_init_device_finished o k) (Reported b (suc n) (suc k))
            (Reported b n (suc (suc k))) (record { requests = suc n; reconnected = b })
            (Reported-one_more b n (suc k)) (send-Reported o b (suc n) k)) in
    (λ x. again (ok x), λ e. again (err e))

-- At least one and at most `k` requests were sent, and a reconnection only followed all of them.
abbrev pub Tried : Bool → ℕ → ℕ → Result (Unit {0}) → Sent → Type 0
Tried b n k (ok _) w =
    IsWithin n k w.requests
    × ((w.reconnected ≡ b) ⊎ ((w.requests ≡ k + n) × (w.reconnected ≡ true)))
Tried b n k (err e) w = ⊥

Tried-one_more :
    (b : Bool) (n k : ℕ) (r : Result (Unit {0})) (w : Sent)
    → Tried b (suc n) k r w
    → Tried b n (suc k) r w
Tried-one_more b n k (ok _) w (h, inl x) = (one_more n k w.requests h, inl x)
Tried-one_more b n k (ok _) w (h, inr (x, y)) = (one_more n k w.requests h, inr (omega arith, y))
Tried-one_more b n k (err e) w h = h

send-Tried :
    (o : Option Error) (b : Bool) (n k : ℕ)
    → Ensures sent
        (send_update_config_finished o (suc k))
        (Tried b n (suc k))
        (record { requests = n; reconnected = b })
send-Tried o b n zero = (
  elim [ none ↦ (once n zero, inl refl) | some (_, e) ↦ (once n zero, inr (omega arith, refl)) ],
  λ e. (once n zero, inr (omega arith, refl)),
)
send-Tried o b n (suc k) =
    let again =
      Ensures-weaken sent (send_update_config_finished o (suc k)) (Tried b (suc n) (suc k))
        (Tried b n (suc (suc k))) (record { requests = suc n; reconnected = b })
        (Tried-one_more b n (suc k)) (send-Tried o b (suc n) k) in
    (elim [ none ↦ (once n (suc k), inl refl) | some (_, e) ↦ again ], λ e. again)

-- How often it was asked if the connection is up.
abbrev pub polls : Event → ℕ → ℕ
polls (asked publisher_active) n = suc n
polls _ n = n

-- A poll that fails used all of its `k` attempts.
abbrev pub Polled : ℕ → ℕ → Result (Unit {0}) → ℕ → Type 0
Polled n k (ok _) w = IsWithin n k w
Polled n k (err e) w = w ≡ k + n

Polled-one_more :
    (n k : ℕ) (r : Result (Unit {0})) (w : ℕ) → Polled (suc n) k r w → Polled n (suc k) r w
Polled-one_more n k (ok _) w h = one_more n k w h
Polled-one_more n k (err e) w h = omega arith

check-Polled : (n k : ℕ) → Ensures polls (check_websocket_connection k) (Polled n k) n
check-Polled n zero = omega arith
check-Polled n (suc k) = elim [
  | true ↦ once n k
  | false ↦
      Ensures-weaken polls (check_websocket_connection k) (Polled (suc n) k) (Polled n (suc k))
        (suc n) (Polled-one_more n k) (check-Polled (suc n) k)
]

-- A request with the outcome was accepted at some point, or the publisher reconnected.
module _ (s : Services) (o : Option Error) where
  abbrev pub Accepted : Type 0
  Accepted =
      (t : List Event) × (sent_error (s.fetch t (publish_request update_all_configs_finished o))
        ≡ none)

  abbrev pub AcceptedOr : Sent → Result (Unit {0}) × Agent → Type 0
  AcceptedOr v p = Accepted ⊎ ((view sent v p.1.trace).reconnected ≡ true)

  accepted_or :
      (v : Sent) (k : ℕ) (g : Agent) → AcceptedOr v (run s (send_update_config_finished o k) g)
  unfolding run
  accepted_or v zero g = inr refl
  accepted_or v (suc k) g =
      on (sent_error (s.fetch g.trace (publish_request update_all_configs_finished o))) refl
        (λ g'. accepted_or v k g')
    where
      on :
          (r : Option Error)
          → sent_error (s.fetch g.trace (publish_request update_all_configs_finished o)) ≡ r
          → ((g' : Agent) → AcceptedOr v (run s (send_update_config_finished o k) g'))
          → AcceptedOr v (
              run s
                (elim r [ none ↦ done | some e ↦ send_update_config_finished o k ])
                (log (asked (publish_request update_all_configs_finished o)) g))
      on none e ih = inl (g.trace, e)
      on (some x) e ih = ih (log (asked (publish_request update_all_configs_finished o)) g)

module _ (s : Services) (laws : TransactionLaws s) where
  -- If the transactions follow their laws, `sendInitDeviceFinished` sends at least one request and at
  -- most five, whatever the orchestrator answers; if it returns no error, it has not reconnected the
  -- publisher, and if it returns one, it has.
  pub send_init_device_finished-Reported :
      (o : Option Error) (v : Sent) (g : Agent)
      → Holds sent v
          (Reported (view sent v g.trace).reconnected (view sent v g.trace).requests 5)
          (run s (send_init_device_finished o 4) g)
  send_init_device_finished-Reported o v g =
      run-Ensures sent v s laws (send_init_device_finished o 4) (Reported _ _ 5) g
        (send-Reported o (view sent v g.trace).reconnected (view sent v g.trace).requests 4)

  -- If the transactions follow their laws, the goroutine of `UpdateAllConfigs` never fails and sends at
  -- least one and at most five requests with the outcome, and it reconnects the publisher only after
  -- all five. If none of the requests is accepted, it does reconnect.
  pub send_update_config_finished-Tried :
      (o : Option Error) (v : Sent) (g : Agent)
      → Holds sent v
          (Tried (view sent v g.trace).reconnected (view sent v g.trace).requests 5)
          (run s (send_update_config_finished o 5) g)
        × AcceptedOr s o v (run s (send_update_config_finished o 5) g)
  send_update_config_finished-Tried o v g = (
    run-Ensures sent v s laws (send_update_config_finished o 5) (Tried _ _ 5) g
        (send-Tried o (view sent v g.trace).reconnected (view sent v g.trace).requests 4),
    accepted_or s o v 5 g,
  )

  -- If the transactions follow their laws, `checkWebsocketConnection` asks once to ten times if the
  -- connection is up, and it fails only after it asked ten times.
  pub check_websocket_connection-Polled :
      (n : ℕ) (g : Agent)
      → Holds polls n (Polled (view polls n g.trace) 10) (run s (check_websocket_connection 10) g)
  check_websocket_connection-Polled n g =
      run-Ensures polls n s laws (check_websocket_connection 10) (Polled _ 10) g
        (check-Polled (view polls n g.trace) 10)
