-- ===== src/Start.antt =====
-- cmd/app/main.go: the start and the end of the process. `log.Fatal` ends it with an error.
pub mod Ordered
use sdwan_agent.Prelude.{String, ℕ, none, some, if◌then◌else◌}
use sdwan_agent.Errors.{Error, reason}
use sdwan_agent.Environment
use sdwan_agent.Environment.{Settings}
use sdwan_agent.Websocket
use sdwan_agent.Action.{
  Action, fail, done, attempt, tell, call, call_logged, query, lift, catch, ◌>>=◌, ◌>>◌,
}
use sdwan_agent.Action.Calls.{
  agent_get_config, agent_hub_list_ports, agent_debug_dump_heap, command_buffer, pony, pony_events,
  app_state, discovery_monitoring, websocket_loop, Call, set_routes, register_handlers,
  connect_broker, rollback_dangling, reload_cache, sync_hosts, activate_always, build_app_state,
  go_run, close_broker, close_db, open_db, set_log_level, make_log_dir, create_log_file,
  wait_for_signal, log_file_exists,
}

-- A call whose error is replaced.
abbrev pub call_or : Call → Error → Action (Unit {0})
call_or c e = attempt c (elim [ none ↦ done | some _ ↦ fail e ])

-- The three parts of `initServices`. The handlers that `SetRoutes` is given inject the websocket
-- service, and its `NewService` starts the loop of `run`.
abbrev pub connect_services : Action (Unit {0})
connect_services = do
  tell (go_run websocket_loop) (tell set_routes (tell register_handlers done))
  call_or connect_broker (reason "initServices: connection to message broker failed")
  call_logged rollback_dangling
  call_or reload_cache (reason "initServices: reload data cache failed")
  call_logged sync_hosts

abbrev pub activate_handlers : Action (Unit {0})
activate_handlers = do
  call (activate_always agent_get_config)
  call (activate_always agent_hub_list_ports)
  call (activate_always agent_debug_dump_heap)

abbrev pub run_services : Action (Unit {0})
run_services = tell (go_run command_buffer) (
    tell (go_run pony) (
      tell (go_run pony_events)
        (tell build_app_state (tell (go_run app_state) (tell (go_run discovery_monitoring) done)))))

-- `initServices`.
abbrev pub init_services : Action (Unit {0})
init_services = do connect_services; activate_handlers; run_services

-- `shutdownServices`: all errors are only logged.
abbrev pub shutdown_services : Action (Unit {0})
shutdown_services = do
  catch Websocket.stop (λ _. done)
  call_logged close_broker
  call_logged close_db

-- `constants.LogFilePerm`, 0644.
abbrev pub log_file_perm : ℕ
log_file_perm = 420

-- `setupRollingLogFile`, with `filepath.Dir`.
abbrev pub setup_rolling_log_file : (String → String) → String → Action (Unit {0})
setup_rolling_log_file dir filename = do
  call (make_log_dir (dir filename) log_file_perm)
  exists ← query (log_file_exists filename)
  if exists then done else call (create_log_file filename log_file_perm)

-- `main`, with `Inject`.
abbrev pub main : (String → String) → Settings → Action (Unit {0})
main dir settings = do
  setup_rolling_log_file dir settings.logfile_path
  call (set_log_level settings.log_level)
  call open_db
  init_services
  tell wait_for_signal done
  shutdown_services

-- `init`, which reads the settings, and `main`.
abbrev pub run_process : (String → String) → (String → String) → Action (Unit {0})
run_process get dir = do settings ← lift (Environment.new get); main dir settings
