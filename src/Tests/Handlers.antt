-- ===== src/Tests/Handlers.antt =====
-- Runs of single handlers on concrete agents.
use sdwan_agent.Prelude.{◌≡◌, refl, true, false, [], ◌∷◌}
use sdwan_agent.Entities.{on_first_setup, on_update_device, PackageItem}
use sdwan_agent.Handlers.Active
use sdwan_agent.Handlers.Active.FirstSetup.{first_setup-Fails}
use sdwan_agent.Handlers.Maintenance
use sdwan_agent.Handlers.Maintenance.Finishes.{Finished, reconnects, requested, handle-Finished}
use sdwan_agent.Handlers.Interface.{Env}
use sdwan_agent.Handlers.UpdateConfig.{update_config_from}
use sdwan_agent.Handlers.UpdateConfig.Resumes.{pauses, update_config_from-Resumed}
use sdwan_agent.Machine.{Agent, run}
use sdwan_agent.Machine.FirstInit.{Fails}
use sdwan_agent.Machine.Views.{view, Holds}
use sdwan_agent.Tests.{plain, plain_laws, cpe, serving, waiting, first_config}

-- An earlier first setup timed out.
abbrev timed_out : Agent
timed_out = record waiting { first_init_waiting = true }

first_setup-Fails_example :
    Fails (run plain (Active.handle cpe (on_first_setup "serial" ("http://host" ∷ []))) timed_out)
first_setup-Fails_example =
    first_setup-Fails plain plain_laws cpe "serial" ("http://host" ∷ []) timed_out refl

abbrev agent_package : PackageItem
agent_package = record {
  name = "sdwan-agent";
  version = "2.0";
  previous_version = "1.9";
  is_new = true;
}

handle-Finished_example :
    Holds reconnects false Finished
      (run plain (Maintenance.handle (on_update_device (agent_package ∷ []))) serving)
handle-Finished_example =
    handle-Finished plain plain_laws (requested {request = agent_package ∷ []}) serving

-- All ports change.
abbrev changing : Env
changing = record cpe { port_compare = λ _ _. false }

update_config_from-Resumed_example :
    view pauses false (run plain (update_config_from changing first_config) serving).1.trace ≡ false
update_config_from-Resumed_example =
    update_config_from-Resumed changing plain plain_laws first_config serving refl
