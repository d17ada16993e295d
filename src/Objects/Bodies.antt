-- ===== src/Objects/Bodies.antt =====
-- The bodies of the responses to requests.
use sdwan_agent.Prelude.{String, ℕ, Bool, List}
use sdwan_agent.Objects.Bgp.{NeighborInfo}
use sdwan_agent.Objects.Lte.{LteStat}
use sdwan_agent.Entities.{AppState}
use sdwan_agent.Objects.Ports.{DevicePortDto, PortConfigDto}

-- internal/domains/pony/objects.go: `tunnelState` and `cluster`.
pub record TunnelState : Type 0 where
  pub tunnel : String
  pub is_active : Bool
  pub hub_serial : String
  pub table_id : ℕ

pub record ClusterStates : Type 0 where
  pub network : String
  pub states : List TunnelState

-- `ActualPackageVersion` of internal/entities/maintenance.go.
pub record PackageVersion : Type 0 where
  pub name : String
  pub version : String
  pub new_is_downloaded : Bool

pub data Body : Type 0 where
  empty_body : Body
  -- the output of a command
  output : String → Body
  active_state : AppState → Body
  device_ports : List DevicePortDto → Body
  port_configs : List PortConfigDto → Body
  tunnel_states : List ClusterStates → Body
  package_versions : List PackageVersion → Body
  -- the values of the rows of a table of leases, which are numbered from 1
  lease_table : List (List String) → Body
  bgp_stats : NeighborInfo → Body
  lte_stats : List LteStat → Body
