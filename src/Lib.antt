-- ===== src/Lib.antt =====
-- Verification of the SD-WAN agent: the state machine that decides what a device does, the requests
-- that drive it, and the services that they call.
--
-- The agent (cmd/app) is a daemon on a router. Its state service (internal/domains/appstate) holds
-- one of seven states and takes transitions, one at a time, each inside a transaction: it asks the
-- target state's handler whether it accepts the state that is left, lets the active state's handler
-- leave, stores and sets the new state, and lets the target's handler act. That handler may ask for
-- a further transition, which runs in the same transaction. On an error the transaction rolls back.
-- A process starts in the boot state and goes to the state that its configuration holds.
--
-- Requests come from the orchestrator over a websocket (internal/domains/websocket) and from local
-- programs over a message queue. Their handlers call the services of internal/domains and make the
-- state service perform transitions.
--
-- The files, and the code that they model:
--   Entities            internal/entities/app_state.go and maintenance.go: states, transitions
--                       (`ToState` is `to_state`), packages. A state is a text in the source; the
--                       constructor `unknown` stands for any text that names no state, and
--                       `to_string` and `of_string` are the model's own coding of it.
--   Errors              internal/errs/errs.go and the errors made on the way. A Go error that wraps
--                       another is modelled by the one it wraps, so error texts are left out.
--   Config              the sections of the library's configuration that the agent reads or builds.
--   Action              what a handler does, as a tree of calls; `Calls` lists the calls, from the
--                       interfaces in internal/domains/appstate/handlers/init.go.
--   Machine             the agent's state (active state, undo functions of the open transaction,
--                       trace of all calls, `firstInitData != nil` of
--                       internal/domains/deviceinit/service.go) and the runner of actions. `Laws`
--                       says what is relied on of transactions; `Views`, `Rules`, `Keeps` and
--                       `Quiet` reason on runs, `FirstInit` on a first setup that is waited for.
--   Websocket           internal/domains/websocket/service.go: `Start`, `Stop`, `IsStarted`.
--   Discovery           internal/domains/discovery/service.go: `FetchPrimary` and `setHosts`, over
--                       any order in which the pool's tasks finish; `Primary` has its proofs, and
--                       `Client` is httpclient/service.go.
--   Handlers            internal/domains/appstate/handlers: one module per file there, with
--                       `ValidateTransition`, `Handle`, `OnExit` and what they call, under the
--                       source's names in lower case. `Reset.EnvFile` is the loop of `tryResetEnv`.
--                       Proofs on one handler stand below it: `Active.FirstSetup`,
--                       `Maintenance.Finishes`, `UpdateConfig.Resumes`,
--                       `Reset.EnvFile.Cleared`, `Reset.EnvFile.Described`.
--   StateService        internal/domains/appstate/service.go: `SetStateHandlers`,
--                       `performTransition` (`perform_transition`, `enter_state`), `updateAppState`,
--                       the loop of `Run` over one transition (`run_chain` in `perform`) and
--                       `setActiveStateFromBoot`. `Wiring` is `BuildAppStateService` of
--                       infrastructure/services.go. The modules below are proofs: the
--                       registration (`Registration`), the diagram (`Graph`, `Guards`), the
--                       follow-up transitions (`Steps`, `Chain`, `Runs`), the subjects
--                       (`Subjects`), the rollback (`Rollback`), what callers get (`Perform`,
--                       `Boot`), panics (`Crashes`), and the whole of `Run` (`Received`).
--   Objects             internal/objects, hub_port.go and lte.go of internal/entities, and the objects
--                       of l3 and dumpstat: ports, what commands print of the system, and the
--                       bodies of responses.
--   Requests            what the websocket handlers share: decoding, the response, the deferred
--                       error response. Below it are the handlers of internal/domains, by what they
--                       do: `Commands` (cmd, fw, ovs, deviceaction, parts of l3 and lte), `Configs`
--                       (config, isb, trunk, service, l3), `States` (updatemanager, appstate, pony),
--                       `Ports` (port), `Leases` (dhcp), `Bgp` (the statistics of l3), `Modems` (those
--                       of lte); `Routes` is cmd/app/routes.go and the loop of
--                       internal/domains/websocket/service.go. `Replies`, `Silences`, `Collected`,
--                       `Endings`, `Answered` and `Served` count replies, `Attempts` the tries of
--                       loops; `Peers`, `Chosen`, `Numbered`, `Ages`, `Parsed`, `Keys` and
--                       `Advertised` describe results.
--   DeviceInit          internal/domains/deviceinit: `InitDevice` with its deferred functions, and
--                       the handler in `Handler`. `Settles` is about how it ends, `Phases` about
--                       sequences of its operations, `Silent` about the replies to its request.
--   Queue               the message queue handlers of internal/domains (ztp, hub, config,
--                       deviceaction, debug); `Hub` is the hub service. `Performed` and `Replied` are about
--                       the transitions that they make the state service perform.
--   NsLookup            internal/domains/nslookup: `SyncHosts`, on the words of the lines of the hosts
--                       file; `Synced` and `Others` are about what it writes.
--   Connection          internal/domains/connection and internal/domains/discovery/monitoring;
--                       `Follows` composes the monitoring with `Discovery`.
--   FirstPort           internal/domains/firstport: the file of the first port and its undo functions.
--   Grafana             internal/domains/grafana: the configuration file of the grafana agent.
--   DumpStat            internal/domains/dumpstat: the fields of the message that `DumpStats` logs;
--                       `Numbered` is about their numbers.
--   Hostname            internal/domains/hostname: the device's hostname.
--   PonyEvents          internal/domains/pony/ponyevent: a dump for each tunnel that fails.
--   Environment         internal/environment/environment.go: the settings of the process.
--   Infrastructure      infrastructure/services.go and injector.go: what each `Inject` function
--                       injects, under its `sync.Once`; `Places`, `Distinct` and `Constructed` are
--                       about the order of construction.
--   Start               cmd/app/main.go: the start and the end of the process; `Ordered` is about the
--                       order of its steps.
--   Tests               concrete services and runs.
--
-- The services outside the repository (configuration, message queue, publisher, systemd, the
-- database, the activity service's transactions) are the record `Services`: each result may depend
-- on all calls before it, so nothing is assumed of what they answer. What the results on runs
-- assume of transactions is `TransactionLaws`: `ExecuteFunc` runs a function and keeps its undo
-- function if it succeeded, and `FinishTransaction` runs the kept functions, the last first, if it is given an
-- error. A step of the services outside may add undo functions of its own, which are not the agent's
-- and so do not appear in its list.
--
-- The loops over follow-up transitions run on fuel: two rounds are enough, as a transition that a
-- handler asks for has no follow-up itself. Loops that try again count the attempts that are left,
-- with the bounds of the source. Following a nil pointer is the error `nil_dereference`, and reading
-- past the end of a slice `index_out_of_range`: `is_panic` says so, and a deferred function sees no
-- error then. A panic within a transition ends the process without an answer (`crashed`). A send on a
-- channel without a buffer that nobody receives is the error `never_received`, which no code catches.
--
-- A request comes as its decoded value or the error of decoding it, with the validator's error for
-- it: both are made outside. A goroutine that a handler starts is the value that the handler returns.
--
-- The injection of services runs on fuel too: 36 calls deep are enough, one for each service. A 64-bit
-- integer that is computed with is the word of its two's complement.
--
-- Not modelled: the goroutines that a state handler starts and does not wait for (stopping the
-- starter, the reboot) are events that say that they were started; the concurrent pings of
-- `checkHubTunnels` are one query. The interleaving of handlers' goroutines, logging and the texts of
-- errors are left out, as are the fields of plain constructors, which only store what they are given.
pub mod Prelude
pub mod Errors
pub mod Config
pub mod Entities
pub mod Objects
pub mod Action
pub mod Machine
pub mod Websocket
pub mod Discovery
pub mod Handlers
pub mod StateService
pub mod Requests
pub mod DeviceInit
pub mod Queue
pub mod NsLookup
pub mod Connection
pub mod DumpStat
pub mod Environment
pub mod FirstPort
pub mod Grafana
pub mod Hostname
pub mod Infrastructure
pub mod PonyEvents
pub mod Start
pub mod Tests
