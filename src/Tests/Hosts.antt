-- ===== src/Tests/Hosts.antt =====
-- Runs of the hosts file's update and of the monitoring.
use sdwan_agent.Prelude.{◌≡◌, refl, true, not, ◌&&◌, none, some, List, [], ◌∷◌, str_eq, arith}
use sdwan_agent.Config.{Config, AppSection, no_config}
use sdwan_agent.Errors.{Result, ok}
use sdwan_agent.Action.Calls.{
  Query, Answer, config, discovery_hosts, fetch_primary_of, publisher_active,
}
use sdwan_agent.NsLookup.{HostPair, Line, Texts, synced}
use sdwan_agent.NsLookup.Others.{IsSynced, synced-IsSynced}
use sdwan_agent.Discovery.{fetch_primary}
use sdwan_agent.Connection.{monitor}
use sdwan_agent.Connection.Follows.{reconnections, one_more_if, Connected, monitor-Follows}
use sdwan_agent.Machine.{Services, run}
use sdwan_agent.Machine.Views.{view}
use sdwan_agent.Tests.{plain, serving, answer}
use sdwan_agent.Tests.Discovery.{wait, wait_laws, hosts, one_primary}

abbrev as_they_are : Texts
as_they_are = record { trim = λ s. s; strip_schemas = λ s. s }

abbrev new_pairs : List HostPair
new_pairs =
    record { fqdn = "orchestrator"; ip = "10.0.0.9" }
    ∷ record { fqdn = "orchestrator"; ip = "10.0.0.8" }
    ∷ []

abbrev old_file : List Line
old_file = ("127.0.0.1" ∷ "localhost" ∷ []) ∷ ("10.0.0.7" ∷ "orchestrator" ∷ []) ∷ []

synced-IsSynced_example :
    IsSynced as_they_are
      ("orchestrator" ∷ [])
      new_pairs
      ((refl, refl, refl), ((refl, refl, refl), tt))
      (refl, (refl, tt))
      old_file
      (synced as_they_are ("orchestrator" ∷ []) new_pairs old_file)
synced-IsSynced_example =
    synced-IsSynced as_they_are ("orchestrator" ∷ []) new_pairs
      ((refl, refl, refl), ((refl, refl, refl), tt)) (refl, (refl, tt)) old_file

abbrev twice : List HostPair
twice =
    record { fqdn = "orchestrator"; ip = "10.0.0.9" }
    ∷ record { fqdn = "orchestrator"; ip = "10.0.0.9" }
    ∷ []

abbrev twice_file : List Line
twice_file =
    ("" ∷ [])
    ∷ ("#" ∷ "SDWAN:" ∷ "generated" ∷ "section" ∷ [])
    ∷ ("10.0.0.9" ∷ "orchestrator" ∷ [])
    ∷ ("10.0.0.9" ∷ "orchestrator" ∷ [])
    ∷ []

-- With a pair that comes twice, the file that was written for it is written again, with one empty
-- line more.
written_again :
    synced as_they_are ("orchestrator" ∷ []) twice twice_file ≡ some (("" ∷ []) ∷ twice_file)
unfolding synced
written_again = refl

abbrev stored_app : AppSection
stored_app = record {
  serial_number = "serial";
  orchestrator_addrs = hosts;
  orchestrator_tunnel_addr = "";
  active_orchestrator_addr = "http://a";
}

abbrev stored_config : Config
stored_config = record no_config { app = some stored_app }

abbrev fetched : (q : Query) → Result (Answer q)
fetched config = ok stored_config
fetched q = ok (answer q)

abbrev asked_for : (q : Query) → Answer q
asked_for discovery_hosts = hosts
asked_for (fetch_primary_of hs) = ("http://b", none)
asked_for publisher_active = true
asked_for q = answer q

abbrev connected : Services
connected = record plain { fetch = λ _ q. fetched q; ask = λ _ q. asked_for q }

answers : (fetch_primary one_primary wait hosts hosts).1 ≡ some ("http://b", none)
unfolding fetch_primary
answers = refl

abbrev connected_lem : Connected one_primary wait connected
connected_lem = record {
  cfg = stored_config;
  app = stored_app;
  hosts = hosts;
  up = true;
  config_lem = λ tr. refl;
  app_lem = refl;
  active_lem = refl;
  hosts_lem = λ tr. refl;
  up_lem = λ tr. refl;
  primary_lem = λ tr. answers;
}

-- Another host is the primary: one reconnection.
monitor-Follows_example :
    view reconnections 0 (run connected monitor serving).1.trace
    ≡ one_more_if (not (str_eq "http://b" "http://a") && true) (view reconnections 0 serving.trace)
monitor-Follows_example =
    monitor-Follows one_primary wait wait_laws connected connected_lem "http://b" (omega arith)
      (refl, (refl, (refl, tt))) refl 0 serving
