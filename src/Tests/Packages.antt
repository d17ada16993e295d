-- ===== src/Tests/Packages.antt =====
-- Runs of the table of leases and of a failing installation.
use sdwan_agent.Prelude.{String, true, none, List, [], ◌∷◌}
use sdwan_agent.Errors.{ok}
use sdwan_agent.Requests.Leases.{Contains, format_leases}
use sdwan_agent.Requests.Numbered.{Formatted, candidates, format_leases-Formatted}

abbrev not_excluded : Contains
not_excluded link ip = ok true

abbrev lines : List (List String)
lines =
    ("MAC" ∷ "aa:bb" ∷ "IP" ∷ "10.0.0.2" ∷ "HOSTNAME" ∷ "one" ∷ [])
    ∷ ("" ∷ [])
    ∷ ("MAC" ∷ "aa:cc" ∷ "IP" ∷ "10.0.0.3" ∷ [])
    ∷ []

format_leases-Formatted_example :
    Formatted not_excluded none 1 (candidates lines) (format_leases not_excluded none 1 lines)
format_leases-Formatted_example = format_leases-Formatted not_excluded none lines 1
