-- ===== src/Tests/Statistics.antt =====
-- Runs of the statistics, of the start and of the loop over requests.
use sdwan_agent.Prelude.{
  ◌≡◌, refl, String, true, none, some, List, [], ◌∷◌, ◌<◌, ◌↔◌, ◌≢◌, ◌+◌, arith,
}
use sdwan_agent.Errors.{ok}
use sdwan_agent.Objects.Bgp.{NeighborAdvOutput}
use sdwan_agent.Objects.Lte.{no_modem_info}
use sdwan_agent.Machine.{run}
use sdwan_agent.Machine.Views.{Holds}
use sdwan_agent.Requests.Routes.{
  get_agent_state_method, lte_fetch_stats_method, exec_device_action_method,
}
use sdwan_agent.Requests.Bgp.{seconds_since, convert_age_to_seconds, advertise, set_attrs}
use sdwan_agent.Requests.Ages.{given_age, convert_age_to_seconds-Distance}
use sdwan_agent.Requests.Modems.{stat_of, parse_lines}
use sdwan_agent.Requests.Parsed.{described}
use sdwan_agent.Requests.Keys.{values_named, parse_lines_lem}
use sdwan_agent.Requests.Served.{Arrived}
use sdwan_agent.DumpStat.{Outside, dump_stats}
use sdwan_agent.DumpStat.Numbered.{unseen, IsDump, dump_stats-IsDump}
use sdwan_agent.Start.{run_process}
use sdwan_agent.Start.Ordered.{steps, IsRun, run_process-IsRun}
use sdwan_agent.Tests.{plain, plain_laws, serving, booting}
use sdwan_agent.Tests.Requests.{ascii, received}

-- A time after the clock's.
convert_age_to_seconds-Distance_example :
    ((run plain (convert_age_to_seconds 1700000060) serving).0 ≡ ok (given_age 1000 1700000060))
    × ((given_age 1000 1700000060 < 9223372036854775808)
        ↔ (1700000060 ≢ 1000 + 9223372036854775808))
unfolding plain
convert_age_to_seconds-Distance_example =
    convert_age_to_seconds-Distance plain 1700000060 serving (omega arith) (omega arith)

-- The one age that is negative.
negative_age : seconds_since 1000 9223372036854776808 ≡ 9223372036854775808
unfolding seconds_since
negative_age = refl

abbrev mtu_line : List String
mtu_line = "GENERAL.MTU:1500" ∷ []

parse_lines_lem_example :
    parse_lines ascii mtu_line (stat_of ascii no_modem_info)
    ≡ described ascii (λ f. values_named ascii f mtu_line) (stat_of ascii no_modem_info)
parse_lines_lem_example = parse_lines_lem ascii mtu_line (stat_of ascii no_modem_info)

abbrev route_out : NeighborAdvOutput
route_out = record {
  prefix = "10.0.0.0/8";
  age = 5;
  attrs =
      record { attr_type = 3; as_paths = []; nexthop = "10.0.0.1" }
      ∷ record { attr_type = 3; as_paths = []; nexthop = "10.0.0.2" }
      ∷ [];
}

-- The last attribute of a type counts.
last_nexthop : (advertise route_out 7).nexthop ≡ "10.0.0.2"
unfolding set_attrs
last_nexthop = refl

abbrev outside : Outside
outside = record { trimmed_line = λ t. t; to_lower = λ t. t; admin_state_of = λ _ _. some true }

dump_stats-IsDump_example :
    Holds unseen tt
      (IsDump "tunnel failed")
      (run plain (dump_stats outside "tunnel failed") serving)
dump_stats-IsDump_example = dump_stats-IsDump outside plain plain_laws "tunnel failed" serving

-- Each variable is set to the same text.
abbrev all_cpe : String → String
all_cpe _ = "cpe"

run_process-IsRun_example :
    Holds steps [] IsRun (run plain (run_process all_cpe (λ _. "/var/log")) booting)
run_process-IsRun_example =
    run_process-IsRun all_cpe (λ _. "/var/log") plain plain_laws booting refl

abbrev requests : List Arrived
requests =
    some get_agent_state_method
    ∷ none
    ∷ some (exec_device_action_method (received "reboot"))
    ∷ some lte_fetch_stats_method
    ∷ []
