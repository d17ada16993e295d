-- ===== src/Infrastructure/Handlers.antt =====
-- infrastructure/injector.go: the handlers, and what is injected for each. Handlers are constructed
-- anew on every call.
use sdwan_agent.Prelude.{List, [], ◌∷◌, ◌++◌}
use sdwan_agent.Infrastructure.Injections.{Service, build_app_state_service}

pub data HandlerName : Type 0 where
  cmd_handler isb_handler pony_handler port_handler config_handler : HandlerName
  device_init_handler l3_handler trunk_handler service_handler device_action_handler : HandlerName
  dhcp_handler ovs_handler fw_handler app_state_ws_handler ztp_mq_handler : HandlerName
  config_mq_handler device_action_mq_handler update_manager_handler hub_mq_handler : HandlerName
  lte_handler debug_mq_handler : HandlerName

abbrev pub given : HandlerName → List Service
given cmd_handler = Service.message_publisher ∷ []
given isb_handler = Service.message_publisher ∷ Service.config ∷ []
given pony_handler = Service.message_publisher ∷ Service.config ∷ []
given port_handler = Service.port ∷ Service.message_publisher ∷ []
given config_handler = Service.message_publisher ∷ Service.app_state ∷ Service.config ∷ []
given device_init_handler = Service.message_publisher ∷ Service.device_init ∷ Service.app_state ∷ []
given l3_handler =
    Service.message_publisher ∷ Service.cmd ∷ Service.bgp ∷ Service.shell ∷ Service.app_state ∷ []
given trunk_handler = Service.message_publisher ∷ Service.config ∷ []
given service_handler = Service.message_publisher ∷ Service.app_state ∷ []
given device_action_handler = Service.message_publisher ∷ Service.cmd ∷ Service.app_state ∷ []
given dhcp_handler = Service.message_publisher ∷ Service.shell ∷ []
given ovs_handler = Service.message_publisher ∷ Service.ovs ∷ []
given fw_handler = Service.message_publisher ∷ Service.cmd ∷ []
given app_state_ws_handler = Service.message_publisher ∷ Service.app_state ∷ []
given ztp_mq_handler = Service.app_state ∷ []
given config_mq_handler = Service.config ∷ Service.app_state ∷ []
given device_action_mq_handler = Service.app_state ∷ []
given update_manager_handler = Service.update_manager ∷ Service.message_publisher ∷ []
given hub_mq_handler = Service.hub ∷ []
given lte_handler = Service.message_publisher ∷ Service.lte ∷ []
given debug_mq_handler = []

-- What `getWebsocketRoutes` and `getMQRoutes` of cmd/app/routes.go inject.
abbrev pub websocket_handlers : List HandlerName
websocket_handlers =
    cmd_handler ∷ pony_handler ∷ isb_handler ∷ port_handler ∷ config_handler ∷ device_init_handler
    ∷ l3_handler ∷ trunk_handler ∷ service_handler ∷ device_action_handler ∷ dhcp_handler
    ∷ ovs_handler ∷ fw_handler ∷ app_state_ws_handler ∷ update_manager_handler ∷ lte_handler ∷ []

abbrev pub mq_handlers : List HandlerName
mq_handlers =
    ztp_mq_handler ∷ config_mq_handler ∷ device_action_mq_handler ∷ hub_mq_handler
    ∷ debug_mq_handler ∷ []

abbrev pub given_each : List HandlerName → List Service
given_each [] = []
given_each (h ∷ hs) = given h ++ given_each hs

-- What `initServices` of cmd/app/main.go injects, in its order.
abbrev pub init_services_injects : List Service
init_services_injects =
    Service.websocket
    ∷ (given_each websocket_handlers
        ++ (Service.mq
            ∷ (given_each mq_handlers
                ++ (Service.activity
                    ∷ Service.config
                    ∷ Service.ns_lookup
                    ∷ Service.command_buffer
                    ∷ Service.pony
                    ∷ Service.pony_event
                    ∷ (build_app_state_service
                        ++ (Service.app_state ∷ Service.discovery_monitoring ∷ []))))))
