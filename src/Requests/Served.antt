-- ===== src/Requests/Served.antt =====
-- The loop of internal/domains/websocket/service.go with the handlers that it starts, on requests that
-- are served one after another.
use sdwan_agent.Prelude.{
  ◌≡◌, String, ℕ, suc, ◌+◌, ◌≤◌, Bool, true, false, ◌||◌, if◌then◌else◌, length, Option, none, some,
  List, [], ◌∷◌,
}
use sdwan_agent.Errors.{Error, Result, ok, err, joined, is_panic}
use sdwan_agent.Objects.Ports.{Net}
use sdwan_agent.Handlers.Interface.{Env}
use sdwan_agent.DeviceInit.{InitState}
use sdwan_agent.Action.{Action, ret, catch, ◌>>=◌}
use sdwan_agent.Requests.{Job}
use sdwan_agent.Requests.Leases.{Contains}
use sdwan_agent.Requests.Bgp.{SortByNetwork}
use sdwan_agent.Requests.Modems.{Texts}
use sdwan_agent.Requests.Routes.{Request, handler_of, run_round, got_request}
use sdwan_agent.Requests.Replies.{Sent, Answered}
use sdwan_agent.Requests.Answered.{IsPlain}

-- A request with a method of the table, or none.
abbrev pub Arrived : Type 0
Arrived = Option Request

-- How a request ended: it has no handler, its handler failed, or it succeeded.
pub data Ending : Type 0 where
  unknown finished : Ending
  failed : Error → Ending

-- An error that a handler returns without having replied: a panic, or one that joins that of sending
-- the error response.
abbrev pub is_joined : Error → Bool
is_joined (joined _ _) = true
is_joined _ = false

-- A reply that is certain.
abbrev pub certain : Ending → ℕ
certain finished = 1
certain unknown = 0
certain (failed e) = if is_panic e || is_joined e then 0 else 1

abbrev pub all_certain : List Ending → ℕ
all_certain [] = 0
all_certain (e ∷ es) = certain e + all_certain es

-- All replies, be they responses or error responses.
abbrev pub total : Sent → ℕ
total w = w.responses + w.errors

-- The replies to requests, after `n` others: one for each ending that is certain, and one at most for
-- each of the others.
abbrev pub Counted : ℕ → ℕ → Result (List Ending) → Sent → Type 0
Counted requests n (ok es) w =
    (length es ≡ requests) × (n + all_certain es ≤ total w) × (total w ≤ n + requests)
Counted requests n (err e) w = ⊥

abbrev CountedOne : ℕ → Result Ending → Sent → Type 0
CountedOne n (ok e) w = (n + certain e ≤ total w) × (total w ≤ suc n)
CountedOne n (err e) w = ⊥

module _ (env : Env) (net : Net) (contains : Contains) (sort_by_network : SortByNetwork)
    (texts : Texts) (cli : String) (st : InitState) where
  abbrev pub route : Arrived → Option (Action Job)
  route none = none
  route (some r) = some (handler_of env net contains sort_by_network texts cli st r)

  -- The goroutine of a handler, to its end.
  abbrev pub end_job : Result Job → Action Ending
  end_job (err e) = ret (failed e)
  end_job (ok job) = catch job (λ _. ret finished)

  abbrev pub end_round : Option (Action Job) → Action Ending
  end_round none = ret unknown
  end_round (some handler) = catch handler end_job

  -- A round of the loop, with the goroutines that it starts.
  abbrev pub serve_one : Arrived → Action Ending
  serve_one a = run_round (got_request (route a)) >>= end_round

  abbrev pub serve : List Arrived → Action (List Ending)
  serve [] = ret []
  serve (a ∷ rest) = do e ← serve_one a; es ← serve rest; ret (e ∷ es)

  -- The requests that are not for an installation.
  abbrev pub ArePlain : List Arrived → Type 0
  ArePlain [] = Unit
  ArePlain (none ∷ rest) = ArePlain rest
  ArePlain (some r ∷ rest) = IsPlain r × ArePlain rest
