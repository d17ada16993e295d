-- ===== src/Requests/Configs.antt =====
-- The handlers that change the configuration: internal/domains/config/handler.go, the update handlers
-- of internal/domains/isb, trunk, service and l3, and `NetInitConfig` of internal/entities/init.go.
use sdwan_agent.Prelude.{
  String, ℕ, suc, zero, Option, none, some, List, [], ◌∷◌, str_eq, if◌then◌else◌,
}
use sdwan_agent.Config.{Section, Config, PortConfig, PonySection, WgPeer, WgConfig, no_config}
use sdwan_agent.Errors.{Error, Result, ok, err, nil_dereference, reason}
use sdwan_agent.Entities.{on_update_config}
use sdwan_agent.Objects.Bodies.{empty_body}
use sdwan_agent.Action.{Action, attempt, fetch, tell, done, call, query, lift, ◌>>=◌, ◌>>◌}
use sdwan_agent.Action.Calls.{
  config, perform, update_config_now, publish_request, publisher_reconnect,
  update_all_configs_finished,
}
use sdwan_agent.Requests.{
  Incoming, Job, unmarshal, unmarshal_valid, respond, respond_and, with_error_response,
}

-- The peers with the first one of the key replaced, if there is one.
unfoldable pub replace_peer : WgPeer → List WgPeer → Option (List WgPeer)
replace_peer new [] = none
replace_peer new (peer ∷ peers) =
    let rest = replace_peer new peers in
    if str_eq peer.public_key new.public_key
    then some (new ∷ peers)
    else elim rest [ none ↦ none | some replaced ↦ some (peer ∷ replaced) ]

-- The loop over the configurations, which ends at the first peer that is found.
unfoldable pub replace_in_configs : WgPeer → List WgConfig → Option (List WgConfig)
unfolding replace_peer
replace_in_configs new [] = none
replace_in_configs new (c ∷ cs) =
    let rest = replace_in_configs new cs in
    elim (replace_peer new c.peers) [
      | some peers ↦ some (record c { peers = peers } ∷ cs)
      | none ↦ elim rest [ none ↦ none | some replaced ↦ some (c ∷ replaced) ]
    ]

-- The search of `UpdateWgPeer`; the source follows the pointer to the section unchecked.
abbrev pub found_peer : WgPeer → Option (List WgConfig) → Result (List WgConfig)
found_peer new none = err nil_dereference
found_peer new (some cs) = elim (replace_in_configs new cs) [
  | none ↦ err (reason "UpdateWgPeer: peer not found")
  | some replaced ↦ ok replaced
]

-- The end of `UpdateWgPeer`.
abbrev pub update_peers : List WgConfig → Action Job
update_peers configs = do
  call (perform (on_update_config (record no_config { wireguard = some configs })))
  respond empty_body

-- `UpdateWgPeer`.
abbrev pub update_wg_peer : Incoming WgPeer → Action Job
update_wg_peer i = with_error_response (do
  peer ← unmarshal i
  cfg ← query config
  configs ← lift (found_peer peer cfg.wireguard)
  update_peers configs)

-- `NetInitConfig`. The lists that are only passed on stand for their serialised text.
pub record NetInitConfig : Type 0 where
  pub loopback_addresses : List String
  pub port_names : List String
  pub allowed_ports : Section
  pub ip_rules : Section
  pub port_configs : List PortConfig
  pub port_mtus : Section
  pub admin_state_ports : Section

-- The configuration that `UpdateAllConfigs` and the device init service write.
abbrev pub net_config : List WgConfig → NetInitConfig → PonySection → Config
net_config wireguard net pony = record no_config {
  wireguard = some wireguard;
  port = some (record { port_configs = net.port_configs; port_mtus = net.port_mtus });
  wan_protection = some (record { port_names = net.port_names; allowed_ports = net.allowed_ports });
  loopback = some net.loopback_addresses;
  ip_rule = some net.ip_rules;
  pony = some pony;
  admin_state = some net.admin_state_ports;
}

-- The body of `UpdateAllConfigs`.
pub record AllConfigs : Type 0 where
  pub wireguard : List WgConfig
  pub net_init : NetInitConfig
  pub pony : PonySection

-- The error of `sendUpdateConfigFinished`.
abbrev pub sent_error : Result (Option (ℕ × Error)) → Option Error
sent_error (ok none) = none
sent_error (ok (some (_, e))) = some e
sent_error (err e) = some e

-- The loop round `sendUpdateConfigFinished`, with the attempts that are left: at least one is made,
-- and a reconnection ends it if all fail.
abbrev pub send_update_config_finished : Option Error → ℕ → Job
send_update_config_finished upd_err zero = tell publisher_reconnect done
send_update_config_finished upd_err (suc attempts) =
    fetch (publish_request update_all_configs_finished upd_err) (λ r. elim (sent_error r) [
      | none ↦ done
      | some e ↦ send_update_config_finished upd_err attempts
    ])

-- The goroutine of `UpdateAllConfigs`, with `sendUpdateFinishedAttempts`.
abbrev pub update_all : AllConfigs → Job
update_all r =
    attempt (perform (on_update_config (net_config r.wireguard r.net_init r.pony)))
      (λ upd_err. send_update_config_finished upd_err 5)

-- `UpdateAllConfigs`.
abbrev pub update_all_configs : Incoming AllConfigs → Action Job
update_all_configs i =
    with_error_response (do request ← unmarshal i; respond_and empty_body (update_all request))

-- `UpdateConfig` of the ISB and of the trunk handler: no transition, the configuration is written.
abbrev pub update_isb_config : Incoming Section → Action Job
update_isb_config i = with_error_response (do
  isb ← unmarshal i
  call (update_config_now (record no_config { isb = some isb }))
  respond empty_body)

abbrev pub update_trunk_config : Incoming Section → Action Job
update_trunk_config i = with_error_response (do
  trunk ← unmarshal i
  call (update_config_now (record no_config { trunk = some trunk }))
  respond empty_body)

-- `UpdateConfig` of the L3 handler.
abbrev pub update_l3_config : Incoming Section → Action Job
update_l3_config i = with_error_response (do
  l3 ← unmarshal_valid i
  call (perform (on_update_config (record no_config { l3 = some l3 })))
  respond empty_body)

-- The sections of `UpdateConfig` of the service handler.
pub record ServiceConfigs : Type 0 where
  pub trunk : Option Section
  pub l3 : Option Section
  pub isb : Option Section
  pub bridge : Option Section
  pub p2p : Option Section
  pub fw : Option Section

abbrev pub config_of_services : ServiceConfigs → Config
config_of_services m = record no_config {
  trunk = m.trunk;
  l3 = m.l3;
  isb = m.isb;
  bridge = m.bridge;
  p2p = m.p2p;
  fw = m.fw;
}

-- `UpdateConfig` of the service handler.
abbrev pub update_service_config : Incoming ServiceConfigs → Action Job
update_service_config i = with_error_response (do
  m ← unmarshal_valid i
  call (perform (on_update_config (config_of_services m)))
  respond empty_body)
