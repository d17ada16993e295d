-- ===== src/Config.antt =====
-- The parts of the configuration (the library's `config.Config`) that the agent reads or builds.
-- Each section is a pointer in the source, so an option here. A section whose content the agent
-- only passes on stands for its serialised text.
use sdwan_agent.Prelude.{String, Bool, ℕ, List, [], Option, none}

abbrev pub Section : Type 0
Section = String

-- `&config.TrunkSection{}` and the like.
abbrev pub empty_section : Section
empty_section = "{}"

pub record AppSection : Type 0 where
  pub serial_number : String
  pub orchestrator_addrs : List String
  pub orchestrator_tunnel_addr : String
  pub active_orchestrator_addr : String

pub record WanConfig : Type 0 where
  pub mode : String
  pub ip_addr : String
  pub subnet_mask : String
  pub gateway : String
  pub dns : String
  -- `Options.StealthICMPMode`
  pub stealth_icmp_mode : Option Bool

pub record PortConfig : Type 0 where
  pub name : String
  pub port_type : String
  pub is_tag : Bool
  -- the `ParentPort` of the tag
  pub tag_parent : Option String
  pub table_ids : List ℕ
  pub wan : Option WanConfig
  -- the `APNServer` of the LTE settings
  pub lte : Option String

pub record PortSection : Type 0 where
  pub port_configs : List PortConfig
  pub port_mtus : Section

pub record Uplink : Type 0 where
  pub monitor_addr : String
  pub hub_serial : String
  pub table_id : ℕ

pub record Cluster : Type 0 where
  pub network : String
  pub uplinks : List Uplink
  -- `ActiveTunnel` and the map `LocalStates` of the state, with each address once
  pub active_tunnel : String
  pub local_states : List (String × Bool)

pub record PonySection : Type 0 where
  pub clusters : List Cluster

pub record WgPeer : Type 0 where
  pub public_key : String
  -- the other settings of the peer
  pub settings : Section

pub record WgConfig : Type 0 where
  pub peers : List WgPeer
  pub settings : Section

pub record WanProtection : Type 0 where
  pub port_names : List String
  pub allowed_ports : Section

pub record Config : Type 0 where
  -- the `State` of the section
  pub app_state : Option String
  pub app : Option AppSection
  pub port : Option PortSection
  pub admin_state : Option Section
  pub pony : Option PonySection
  -- the `Configs` of the section
  pub wireguard : Option (List WgConfig)
  pub wan_protection : Option WanProtection
  -- the `Addresses` of the section
  pub loopback : Option (List String)
  pub ip_rule : Option Section
  pub trunk : Option Section
  pub p2p : Option Section
  pub bridge : Option Section
  pub isb : Option Section
  pub l3 : Option Section
  pub fw : Option Section

-- `config.Config{}`.
abbrev pub no_config : Config
no_config = record {
  app_state = none;
  app = none;
  port = none;
  admin_state = none;
  pony = none;
  wireguard = none;
  wan_protection = none;
  loopback = none;
  ip_rule = none;
  trunk = none;
  p2p = none;
  bridge = none;
  isb = none;
  l3 = none;
  fw = none;
}

abbrev pub empty_port_section : PortSection
empty_port_section = record { port_configs = []; port_mtus = "" }
