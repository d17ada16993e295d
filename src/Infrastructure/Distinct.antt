-- ===== src/Infrastructure/Distinct.antt =====
-- Different services have different places, so the test by places tells the variables apart.
use sdwan_agent.Prelude.{
  ◌≡◌, ◌↔◌, refl, ap, ℕ, zero, suc, true, ◌==◌, Option, none, some, List, [], ◌∷◌, arith,
}
use sdwan_agent.Infrastructure.{same_variable}
use sdwan_agent.Infrastructure.Places.{same_variable_refl}
use sdwan_agent.Infrastructure.Injections.{Service, place}

nth : ℕ → List Service → Option Service
nth n [] = none
nth zero (s ∷ ss) = some s
nth (suc n) (s ∷ ss) = nth n ss

abbrev in_order : List Service
in_order =
    Service.cmd ∷ Service.net_init ∷ Service.storage_adapter ∷ Service.shell ∷ Service.mq
    ∷ Service.wg_config ∷ Service.activity ∷ Service.bgp ∷ Service.migration ∷ Service.config
    ∷ Service.discovery_http_client ∷ Service.discovery ∷ Service.connection_factory
    ∷ Service.message_publisher ∷ Service.net ∷ Service.connection ∷ Service.pony_route
    ∷ Service.pony ∷ Service.app_state ∷ Service.port ∷ Service.ovs ∷ Service.hostname
    ∷ Service.grafana ∷ Service.update_manager ∷ Service.ping ∷ Service.device_init
    ∷ Service.command_buffer ∷ Service.systemd ∷ Service.dump_stat ∷ Service.websocket
    ∷ Service.first_port ∷ Service.hub ∷ Service.lte ∷ Service.pony_event
    ∷ Service.discovery_monitoring ∷ Service.ns_lookup ∷ []

nth-place : (s : Service) → nth (place s) in_order ≡ some s
unfolding place nth
nth-place Service.cmd = refl
nth-place Service.net_init = refl
nth-place Service.storage_adapter = refl
nth-place Service.shell = refl
nth-place Service.mq = refl
nth-place Service.wg_config = refl
nth-place Service.activity = refl
nth-place Service.bgp = refl
nth-place Service.migration = refl
nth-place Service.config = refl
nth-place Service.discovery_http_client = refl
nth-place Service.discovery = refl
nth-place Service.connection_factory = refl
nth-place Service.message_publisher = refl
nth-place Service.net = refl
nth-place Service.connection = refl
nth-place Service.pony_route = refl
nth-place Service.pony = refl
nth-place Service.app_state = refl
nth-place Service.port = refl
nth-place Service.ovs = refl
nth-place Service.hostname = refl
nth-place Service.grafana = refl
nth-place Service.update_manager = refl
nth-place Service.ping = refl
nth-place Service.device_init = refl
nth-place Service.command_buffer = refl
nth-place Service.systemd = refl
nth-place Service.dump_stat = refl
nth-place Service.websocket = refl
nth-place Service.first_port = refl
nth-place Service.hub = refl
nth-place Service.lte = refl
nth-place Service.pony_event = refl
nth-place Service.discovery_monitoring = refl
nth-place Service.ns_lookup = refl

==-eq : (a b : ℕ) → (a == b) ≡ true → a ≡ b
==-eq a b h = ground arith

place-injective : (s t : Service) → place s ≡ place t → s ≡ t
place-injective s t e = cc (ap (λ n. nth n in_order) e, nth-place s, nth-place t)

-- The test by places holds exactly for one service.
same_variable_iff : (s t : Service) → (same_variable s t ≡ true) ↔ (s ≡ t)
unfolding same_variable
same_variable_iff s t =
    (λ h. place-injective s t (==-eq (place s) (place t) h), λ e. rw e (same_variable_refl t))
