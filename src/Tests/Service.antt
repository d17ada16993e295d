-- ===== src/Tests/Service.antt =====
-- Runs of the state service on concrete agents.
use sdwan_agent.Prelude.{
  List, ◌≡◌, refl, ℕ, ◌⊎◌, inr, none, some, Option, [], ◌∷◌, false, ◌≤◌, arith,
}
use sdwan_agent.Errors.{Result, ok, err, nil_dereference}
use sdwan_agent.Entities.{
  boot, init, active, reset, same, on_first_setup, on_reset, on_ztp_setup_finished, on_hub_set_port,
  Transition, of_string,
}
use sdwan_agent.Action.Calls.{
  Subject, ztp_first_setup, ztp_set_port, ztp_del_port, hub_set_port, hub_del_port, hub_init,
  agent_reset, rebuild_services,
}
use sdwan_agent.Handlers.Init.{check_migrate_from_old_version}
use sdwan_agent.Handlers.Reset.EnvFile.{scan_fits}
use sdwan_agent.Machine.{run, Agent}
use sdwan_agent.Machine.Laws.{run_func, roll_back}
use sdwan_agent.Machine.Quiet.{listening}
use sdwan_agent.Handlers.Interface.{StateHandler}
use sdwan_agent.StateService.Registration.{Registered, set_state_handlers-Registered}
use sdwan_agent.StateService.{
  set_state_handlers, register_handlers, perform, perform_transition, run_chain, enter_state,
  exit_active, update_app_state, find_handler, set_active_state_from_boot, read_target, Finish,
  crashed,
}
use sdwan_agent.StateService.Wiring.{agent_handlers}
use sdwan_agent.StateService.Graph.{Allowed}
use sdwan_agent.StateService.Chain.{Rests}
use sdwan_agent.StateService.Guards.{
  Refused, perform_transition-Allowed, perform_transition-Refused,
}
use sdwan_agent.StateService.Runs.{perform_total}
use sdwan_agent.StateService.Subjects.Expected.{switched_on}
use sdwan_agent.StateService.Perform.{perform_settles, perform_subjects, perform_aborts}
use sdwan_agent.StateService.Boot.{Works, boot-Works, boot_total}
use sdwan_agent.StateService.Received.{Served, run_service, run_service-Served}
use sdwan_agent.Tests.{plain, plain_laws, cpe, hub, booting, waiting, serving, wan_port}

-- The agent after an answer, or the one before if there was none.
abbrev after : Option (Finish × Agent) → Agent → Agent
after none g = g
after (some (_, g)) _ = g

-- The handlers of a registration that goes through.
abbrev ok_or : Result (List StateHandler) → List StateHandler
ok_or (ok hs) = hs
ok_or (err e) = []

perform_transition-Allowed_example :
    Allowed init active × (same init active ≡ false) × (active ≡ active)
unfolding perform run_chain perform_transition enter_state exit_active update_app_state find_handler
    agent_handlers run run_func plain roll_back set_active_state_from_boot read_target of_string
    check_migrate_from_old_version scan_fits
perform_transition-Allowed_example =
    perform_transition-Allowed plain cpe plain_laws (on_first_setup "serial" ("http://host" ∷ []))
      waiting refl

init-not-Allowed : ¬ Allowed active init
init-not-Allowed h = elim h [ ]

perform_transition-Refused_example :
    Refused on_ztp_setup_finished serving
      (perform_transition plain (agent_handlers cpe) on_ztp_setup_finished serving)
perform_transition-Refused_example =
    perform_transition-Refused plain cpe on_ztp_setup_finished serving (inr init-not-Allowed)

perform_total_example :
    (r : Finish × Agent) × ((fuel : ℕ)
      → 2 ≤ fuel
      → perform plain (agent_handlers hub) fuel on_reset serving ≡ some r)
perform_total_example = perform_total plain plain_laws hub on_reset serving

perform_settles_example : Rests cpe on_reset reset
unfolding perform run_chain perform_transition enter_state exit_active update_app_state find_handler
    agent_handlers run run_func plain roll_back set_active_state_from_boot read_target of_string
    check_migrate_from_old_version scan_fits
perform_settles_example = perform_settles plain plain_laws cpe 2 on_reset serving refl

serving_subjects : (x : Subject) → listening x serving.trace ≡ switched_on active x
serving_subjects ztp_first_setup = refl
serving_subjects ztp_set_port = refl
serving_subjects ztp_del_port = refl
serving_subjects hub_set_port = refl
serving_subjects hub_del_port = refl
serving_subjects hub_init = refl
serving_subjects agent_reset = refl
serving_subjects rebuild_services = refl

abbrev hub_reset : Agent
hub_reset = after (perform plain (agent_handlers hub) 2 on_reset serving) serving

perform_subjects_example : listening hub_init hub_reset.trace ≡ switched_on init hub_init
unfolding perform run_chain perform_transition enter_state exit_active update_app_state find_handler
    agent_handlers run run_func plain roll_back set_active_state_from_boot read_target of_string
    check_migrate_from_old_version scan_fits
perform_subjects_example =
    perform_subjects plain plain_laws hub 2 on_reset serving serving_subjects refl hub_init

abbrev no_schema : Transition
no_schema = on_first_setup "serial" ("host" ∷ [])

abbrev rejected : Agent
rejected = after (perform plain (agent_handlers cpe) 2 no_schema waiting) waiting

perform_aborts_example :
    (rejected.active_state ≡ init)
    ⊎ ((g : Agent) × (run_chain plain (agent_handlers cpe) 2 no_schema waiting ≡ some (ok tt, g)))
unfolding perform run_chain perform_transition enter_state exit_active update_app_state find_handler
    agent_handlers run run_func plain roll_back set_active_state_from_boot read_target of_string
    check_migrate_from_old_version scan_fits
perform_aborts_example =
    perform_aborts plain plain_laws cpe 2 no_schema waiting (λ e. cc) (λ e. cc) refl

booting_subjects : (x : Subject) → listening x booting.trace ≡ false
booting_subjects x = refl

abbrev started : Agent
started = after (set_active_state_from_boot plain (agent_handlers cpe) 2 init booting) booting

boot-Works_example : Works started
unfolding perform run_chain perform_transition enter_state exit_active update_app_state find_handler
    agent_handlers run run_func plain roll_back set_active_state_from_boot read_target of_string
    check_migrate_from_old_version scan_fits
boot-Works_example = boot-Works plain plain_laws cpe 2 init booting refl booting_subjects refl

boot_total_example :
    (r : Finish × Agent) × ((fuel : ℕ)
      → 2 ≤ fuel
      → set_active_state_from_boot plain (agent_handlers cpe) fuel init booting ≡ some r)
boot_total_example = boot_total plain plain_laws cpe init booting

set_state_handlers-Registered_example :
    Registered boot (agent_handlers hub) (ok_or (set_state_handlers boot (agent_handlers hub)))
unfolding set_state_handlers register_handlers find_handler agent_handlers
set_state_handlers-Registered_example = set_state_handlers-Registered boot (agent_handlers hub) refl

-- A first setup, a reset that follows it, and one that is refused.
run_service-Served_example : Served cpe 3 (
    run_service plain
      (agent_handlers cpe)
      2
      init
      (on_first_setup "serial" ("http://host" ∷ []) ∷ on_reset ∷ on_reset ∷ [])
      booting)
run_service-Served_example =
    run_service-Served plain plain_laws cpe 2 (omega arith) init
      (on_first_setup "serial" ("http://host" ∷ []) ∷ on_reset ∷ on_reset ∷ []) booting
      (λ e. cc, (λ e. cc, (λ e. cc, tt))) refl booting_subjects

-- A port of a hub without the settings of a WAN.
abbrev no_wan : Transition
no_wan = on_hub_set_port (record wan_port { wan = none })

abbrev broken : Agent
broken = after (perform plain (agent_handlers hub) 2 no_wan waiting) waiting

broken_crash :
    perform plain (agent_handlers hub) 2 no_wan waiting ≡ some (crashed nil_dereference, broken)
unfolding perform run_chain perform_transition enter_state exit_active update_app_state find_handler
    agent_handlers run run_func plain roll_back set_active_state_from_boot read_target of_string
    check_migrate_from_old_version scan_fits
broken_crash = refl
