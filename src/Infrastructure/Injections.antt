-- ===== src/Infrastructure/Injections.antt =====
-- infrastructure/services.go: the services, and what each `Inject` function injects before it
-- constructs its service, in the order of its calls.
use sdwan_agent.Prelude.{ℕ, List, [], ◌∷◌}

-- The package-level variables, by their functions `Inject`.
pub data Service : Type 0 where
  message_publisher connection_factory port net_init cmd shell pony pony_route connection : Service
  ovs hostname device_init command_buffer grafana config bgp migration ping update_manager : Service
  app_state systemd mq websocket first_port hub net activity storage_adapter wg_config lte : Service
  dump_stat pony_event discovery discovery_monitoring discovery_http_client ns_lookup : Service

-- A number for each variable; it is also a place in an order in which they can be constructed.
unfoldable pub place : Service → ℕ
place cmd = 0
place net_init = 1
place storage_adapter = 2
place shell = 3
place mq = 4
place wg_config = 5
place activity = 6
place bgp = 7
place migration = 8
place config = 9
place discovery_http_client = 10
place discovery = 11
place connection_factory = 12
place message_publisher = 13
place net = 14
place connection = 15
place pony_route = 16
place pony = 17
place app_state = 18
place port = 19
place ovs = 20
place hostname = 21
place grafana = 22
place update_manager = 23
place ping = 24
place device_init = 25
place command_buffer = 26
place systemd = 27
place dump_stat = 28
place websocket = 29
place first_port = 30
place hub = 31
place lte = 32
place pony_event = 33
place discovery_monitoring = 34
place ns_lookup = 35

abbrev pub inject_message_publisher : List Service
inject_message_publisher = connection_factory ∷ []

abbrev pub inject_connection_factory : List Service
inject_connection_factory = config ∷ discovery ∷ []

abbrev pub inject_port : List Service
inject_port = config ∷ net ∷ pony ∷ shell ∷ app_state ∷ []

abbrev pub inject_net_init : List Service
inject_net_init = cmd ∷ []

abbrev pub inject_cmd : List Service
inject_cmd = []

abbrev pub inject_shell : List Service
inject_shell = []

abbrev pub inject_pony : List Service
inject_pony = config ∷ connection ∷ pony_route ∷ []

abbrev pub inject_pony_route : List Service
inject_pony_route = config ∷ cmd ∷ []

abbrev pub inject_connection : List Service
inject_connection = message_publisher ∷ []

abbrev pub inject_ovs : List Service
inject_ovs = []

abbrev pub inject_hostname : List Service
inject_hostname = shell ∷ activity ∷ []

abbrev pub inject_device_init : List Service
inject_device_init =
    message_publisher ∷ hostname ∷ config ∷ grafana ∷ pony ∷ update_manager ∷ ping ∷ activity ∷ []

abbrev pub inject_command_buffer : List Service
inject_command_buffer = []

abbrev pub inject_grafana : List Service
inject_grafana = []

abbrev pub inject_config : List Service
inject_config =
    net_init ∷ cmd ∷ activity ∷ net_init ∷ cmd ∷ bgp ∷ activity ∷ net_init ∷ cmd ∷ shell ∷ activity
    ∷ cmd ∷ net_init ∷ activity ∷ net_init ∷ cmd ∷ activity ∷ net_init ∷ cmd ∷ activity ∷ net_init
    ∷ cmd ∷ activity ∷ net_init ∷ cmd ∷ activity ∷ activity ∷ cmd ∷ wg_config ∷ activity ∷ cmd
    ∷ net_init ∷ activity ∷ cmd ∷ net_init ∷ activity ∷ cmd ∷ net_init ∷ activity ∷ cmd ∷ net_init
    ∷ activity ∷ cmd ∷ net_init ∷ activity ∷ migration ∷ activity ∷ []

abbrev pub inject_bgp : List Service
inject_bgp = mq ∷ activity ∷ []

abbrev pub inject_migration : List Service
inject_migration = net_init ∷ []

abbrev pub inject_ping : List Service
inject_ping = []

abbrev pub inject_update_manager : List Service
inject_update_manager = app_state ∷ mq ∷ []

abbrev pub inject_app_state : List Service
inject_app_state = config ∷ activity ∷ []

abbrev pub inject_systemd : List Service
inject_systemd = shell ∷ activity ∷ []

abbrev pub inject_mq : List Service
inject_mq = []

abbrev pub inject_websocket : List Service
inject_websocket = message_publisher ∷ dump_stat ∷ []

abbrev pub inject_first_port : List Service
inject_first_port = shell ∷ activity ∷ []

abbrev pub inject_hub : List Service
inject_hub = app_state ∷ net ∷ config ∷ []

abbrev pub inject_net : List Service
inject_net = shell ∷ []

abbrev pub inject_activity : List Service
inject_activity = storage_adapter ∷ net_init ∷ shell ∷ shell ∷ mq ∷ wg_config ∷ shell ∷ []

abbrev pub inject_storage_adapter : List Service
inject_storage_adapter = []

abbrev pub inject_wg_config : List Service
inject_wg_config = []

abbrev pub inject_lte : List Service
inject_lte = shell ∷ []

abbrev pub inject_dump_stat : List Service
inject_dump_stat = config ∷ shell ∷ []

abbrev pub inject_pony_event : List Service
inject_pony_event = pony ∷ dump_stat ∷ []

abbrev pub inject_discovery : List Service
inject_discovery = discovery_http_client ∷ []

abbrev pub inject_discovery_monitoring : List Service
inject_discovery_monitoring = message_publisher ∷ config ∷ discovery ∷ []

abbrev pub inject_discovery_http_client : List Service
inject_discovery_http_client = []

abbrev pub inject_ns_lookup : List Service
inject_ns_lookup = config ∷ []

-- What the function of a service injects.
abbrev pub injects : Service → List Service
injects message_publisher = inject_message_publisher
injects connection_factory = inject_connection_factory
injects port = inject_port
injects net_init = inject_net_init
injects cmd = inject_cmd
injects shell = inject_shell
injects pony = inject_pony
injects pony_route = inject_pony_route
injects connection = inject_connection
injects ovs = inject_ovs
injects hostname = inject_hostname
injects device_init = inject_device_init
injects command_buffer = inject_command_buffer
injects grafana = inject_grafana
injects config = inject_config
injects bgp = inject_bgp
injects migration = inject_migration
injects ping = inject_ping
injects update_manager = inject_update_manager
injects app_state = inject_app_state
injects systemd = inject_systemd
injects mq = inject_mq
injects websocket = inject_websocket
injects first_port = inject_first_port
injects hub = inject_hub
injects net = inject_net
injects activity = inject_activity
injects storage_adapter = inject_storage_adapter
injects wg_config = inject_wg_config
injects lte = inject_lte
injects dump_stat = inject_dump_stat
injects pony_event = inject_pony_event
injects discovery = inject_discovery
injects discovery_monitoring = inject_discovery_monitoring
injects discovery_http_client = inject_discovery_http_client
injects ns_lookup = inject_ns_lookup

-- `BuildAppStateService`: the state service, and what the state handlers are given.
abbrev pub build_app_state_service : List Service
build_app_state_service =
    app_state ∷ mq ∷ systemd ∷ activity ∷ shell ∷ config ∷ systemd ∷ mq ∷ websocket ∷ first_port
    ∷ device_init ∷ activity ∷ config ∷ pony ∷ ping ∷ ns_lookup ∷ websocket ∷ mq ∷ config
    ∷ message_publisher ∷ websocket ∷ activity ∷ config ∷ net_init ∷ activity ∷ shell ∷ config
    ∷ websocket ∷ systemd ∷ first_port ∷ hostname ∷ activity ∷ []
