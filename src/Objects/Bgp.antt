-- ===== src/Objects/Bgp.antt =====
-- internal/domains/l3/objects.go: what the BGP daemon's commands print, as `json.Unmarshal` decodes
-- it, and the statistics of a neighbour. An `int` or `int64` is the 64-bit word of its two's
-- complement.
use sdwan_agent.Prelude.{String, ℕ, Option, List}

abbrev pub Int64 : Type 0
Int64 = ℕ

-- The parts of `NeighborOutput` that the handler reads.
pub record Conf : Type 0 where
  pub local_asn : Int64
  pub remote_address : String
  pub remote_as : Int64

pub record TimersConfig : Type 0 where
  pub holdtime : Int64
  pub keepalive : Int64

pub record TimersState : Type 0 where
  pub downtime : Option Int64
  pub uptime : Option Int64
  pub holdtime : Int64
  pub keepalive : Int64

pub record NeighborOutput : Type 0 where
  pub conf : Conf
  pub session_state : Int64
  pub timers_config : TimersConfig
  pub timers_state : TimersState
  pub local_address : String

-- An AS path, as it is printed and as it is sent on.
pub record AsPath : Type 0 where
  pub asns : List Int64

pub record Attr : Type 0 where
  pub attr_type : Int64
  pub as_paths : List AsPath
  pub nexthop : String

pub record NeighborAdvOutput : Type 0 where
  pub prefix : String
  pub age : Int64
  pub attrs : List Attr

pub record NeighborAdvertiseAsPath : Type 0 where
  pub asns : List Int64

-- `as_paths` is a slice that may be nil.
pub record NeighborAdvertise : Type 0 where
  pub network : String
  pub nexthop : String
  pub age : Int64
  pub as_paths : Option (List NeighborAdvertiseAsPath)

pub record NeighborInfo : Type 0 where
  pub local_addr : String
  pub local_as : Int64
  pub peer_addr : String
  pub peer_as : Int64
  pub state : String
  pub holdtime : Int64
  pub oper_holdtime : Int64
  pub oper_keepalive : Int64
  pub keepalive : Int64
  pub uptime : Option Int64
  pub downtime : Option Int64
  pub adv_ins : List NeighborAdvertise
  pub adv_outs : List NeighborAdvertise
  pub neighbor_output : String
