-- ===== src/Discovery/Client.antt =====
-- internal/domains/discovery/httpclient/service.go: is a host the primary orchestrator.
use Prim.Native.String.{◌++◌}
use sdwan_agent.Prelude.{String, Bool, str_eq, if◌then◌else◌}
use sdwan_agent.Errors.{Result, ok, err, external}

-- A response of the HTTP library: `IsError`, and the state in its decoded body.
pub record Response : Type 0 where
  pub is_error : Bool
  pub state : String

abbrev pub orch_node_state_path : String
orch_node_state_path = "/api/v1/dr/instance/state"

abbrev pub is_primary_state : Result Response → Result Bool
is_primary_state (err e) = err e
is_primary_state (ok r) =
    if r.is_error then err (external "api error") else ok (str_eq r.state "primary")

-- `CheckPrimary`, with the library's `Get`.
abbrev pub check_primary : (String → Result Response) → String → Result Bool
check_primary get host = is_primary_state (get (host ++ orch_node_state_path))
