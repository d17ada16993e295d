-- ===== src/Start/Ordered.antt =====
-- The order of the start, and the order of the end.
use sdwan_agent.Prelude.{String, ◌≡◌, refl, true, false, List, [], ◌∷◌}
use sdwan_agent.Errors.{Result, ok, err, reason}
use sdwan_agent.Action.{Action, lift, ◌>>=◌, done, tell, call, call_logged, ◌>>◌}
use sdwan_agent.Action.Calls.{
  open_db, wait_for_signal, close_broker, close_db, set_log_level, agent_get_config,
  agent_hub_list_ports, agent_debug_dump_heap, command_buffer, pony, pony_events, app_state,
  discovery_monitoring, websocket_loop, AlwaysSubject, Background, set_routes, register_handlers,
  connect_broker, rollback_dangling, reload_cache, sync_hosts, activate_always, build_app_state,
  go_run,
}
use sdwan_agent.Machine.{Event, Agent, Services, did, run}
use sdwan_agent.Machine.Laws.{TransactionLaws}
use sdwan_agent.Machine.Views.{Ensures, Holds, view, run-Ensures}
use sdwan_agent.Machine.Rules.{Ensures-Bind, Ensures-weaken, Bind}
use sdwan_agent.Environment
use sdwan_agent.Environment.{Settings}
use sdwan_agent.Start.{
  init_services, activate_handlers, run_services, call_or, shutdown_services,
  setup_rolling_log_file, main, run_process,
}

-- The steps of a start that count, the last first: the routes and the handlers are registered, the
-- broker is connected, the rollback of dangling transactions was tried, the cache is reloaded, the
-- synchronisation of the hosts was tried, a subject is switched on, the state handlers are set, a service's goroutine is started, the database is
-- open, a signal came, and the closing of the broker and of the database was tried.
pub data Step : Type 0 where
  routed registered connected rolled_back reloaded : Step
  hosts_synced : Step
  activated : AlwaysSubject → Step
  built : Step
  started : Background → Step
  opened waited broker_closed db_closed : Step

abbrev pub steps : Event → List Step → List Step
steps (did set_routes true) l = routed ∷ l
steps (did register_handlers true) l = registered ∷ l
steps (did connect_broker true) l = connected ∷ l
steps (did rollback_dangling _) l = rolled_back ∷ l
steps (did reload_cache true) l = reloaded ∷ l
steps (did sync_hosts _) l = hosts_synced ∷ l
steps (did (activate_always s) true) l = activated s ∷ l
steps (did build_app_state true) l = built ∷ l
steps (did (go_run b) true) l = started b ∷ l
steps (did open_db true) l = opened ∷ l
steps (did wait_for_signal true) l = waited ∷ l
steps (did close_broker _) l = broker_closed ∷ l
steps (did close_db _) l = db_closed ∷ l
steps _ l = l

abbrev pub tried_rollback : List Step
tried_rollback =
    rolled_back ∷ connected ∷ registered ∷ routed ∷ started websocket_loop ∷ opened ∷ []

abbrev pub prepared : List Step
prepared = hosts_synced ∷ reloaded ∷ tried_rollback

abbrev pub switched_on : List Step
switched_on =
    activated agent_debug_dump_heap
    ∷ activated agent_hub_list_ports
    ∷ activated agent_get_config
    ∷ prepared

abbrev pub all_started : List Step
all_started =
    started discovery_monitoring
    ∷ started app_state
    ∷ built
    ∷ started pony_events
    ∷ started pony
    ∷ started command_buffer
    ∷ switched_on

abbrev pub NothingStarted : List Step → Type 0
NothingStarted [] = Unit
NothingStarted (started websocket_loop ∷ l) = NothingStarted l
NothingStarted (started b ∷ l) = ⊥
NothingStarted (built ∷ l) = ⊥
NothingStarted (_ ∷ l) = NothingStarted l

abbrev pub IsStart : Result (Unit {0}) → List Step → Type 0
IsStart (ok _) l = l ≡ all_started
IsStart (err e) l = NothingStarted l

-- What is left after each call whose error is only logged.
activate-IsStart : Ensures steps (do activate_handlers; run_services) IsStart prepared
activate-IsStart = (((refl, λ e. tt), λ e. tt), λ e. tt)

reload-IsStart :
    Ensures steps
      (do
        call_or reload_cache (reason "initServices: reload data cache failed")
        call_logged sync_hosts
        activate_handlers
        run_services)
      IsStart
      tried_rollback
reload-IsStart = ((activate-IsStart, λ e. activate-IsStart), λ e. tt)

init_services-IsStart : Ensures steps init_services IsStart (opened ∷ [])
init_services-IsStart = ((reload-IsStart, λ e. reload-IsStart), λ e. tt)

-- The end of the process, whatever fails.
abbrev pub IsRun : Result (Unit {0}) → List Step → Type 0
IsRun (ok _) l = l ≡ db_closed ∷ broker_closed ∷ waited ∷ all_started
IsRun (err e) l = NothingStarted l

shutdown-IsRun : Ensures steps shutdown_services IsRun (waited ∷ all_started)
shutdown-IsRun = elim [
  | true ↦ ((refl, λ e. refl), λ e. (refl, λ e'. refl))
  | false ↦ ((refl, λ e. refl), λ e. (refl, λ e'. refl))
]

abbrev stop_later : Action (Unit {0})
stop_later = do tell wait_for_signal done; shutdown_services

after_open : Ensures steps (do init_services; stop_later) IsRun (opened ∷ [])
after_open =
    Ensures-Bind steps init_services (λ _. stop_later) IsRun (opened ∷ [])
      (Ensures-weaken steps init_services IsStart (Bind steps (λ _. stop_later) IsRun) (opened ∷ [])
        (elim [ ok _ ↦ λ l p. rw p shutdown-IsRun | err e ↦ λ l p. p ]) init_services-IsStart)

-- The log file's set-up has no step.
setup-Unseen :
    (dir : String → String) (filename : String)
    → Ensures steps (setup_rolling_log_file dir filename) (λ _ l. l ≡ []) []
setup-Unseen dir filename =
    ((elim [ true ↦ refl | false ↦ (refl, λ e. refl) ], λ e. refl), λ e. refl)

abbrev with_log : Settings → Action (Unit {0})
with_log settings = do
  call (set_log_level settings.log_level)
  call open_db
  init_services
  stop_later

main-Ensures :
    (dir : String → String) (settings : Settings) → Ensures steps (main dir settings) IsRun []
main-Ensures dir settings =
    Ensures-Bind steps (setup_rolling_log_file dir settings.logfile_path) (λ _. with_log settings)
      IsRun []
      (Ensures-weaken steps (setup_rolling_log_file dir settings.logfile_path) (λ _ l. l ≡ [])
        (Bind steps (λ _. with_log settings) IsRun) []
        (elim [ ok _ ↦ λ l p. rw p ((after_open, λ e. tt), λ e. tt) | err e ↦ λ l p. rw p tt ])
        (setup-Unseen dir settings.logfile_path))

settings-Ensures :
    (dir : String → String) (r : Result Settings) → Ensures steps (lift r >>= main dir) IsRun []
settings-Ensures dir (ok settings) = main-Ensures dir settings
settings-Ensures dir (err e) = tt

-- If the transactions follow their laws, a run of the process that ends without an error, whatever
-- the services answer, has gone through these steps in this order: it has opened the database,
-- started the loop of the websocket service, registered the routes and the handlers, connected to the
-- broker, tried to roll back dangling transactions, reloaded the cache, tried to synchronise the
-- hosts, switched on the three subjects, and only then started the five other services, the state service after its handlers were set. Then it has waited for a signal
-- and tried to close the broker and the database, even if another closing failed. A run that ends
-- with an error has started no service but the loop of the websocket service, and set no
-- state handlers.
pub run_process-IsRun :
    (get dir : String → String) (s : Services)
    → TransactionLaws s
    → (g : Agent) → view steps [] g.trace ≡ []
    → Holds steps [] IsRun (run s (run_process get dir) g)
run_process-IsRun get dir s laws g h =
    run-Ensures steps [] s laws (run_process get dir) IsRun g
      (rw h (settings-Ensures dir (Environment.new get)))
