-- ===== src/Objects/Dump.antt =====
-- internal/domains/dumpstat/objects.go, and the commands whose lines are dumped.
use sdwan_agent.Prelude.{String, ℕ, List}

-- The library's `NewListIPRoutesCmd` without and with a table, and the custom command `ip rule`.
pub data DumpCommand : Type 0 where
  ip_routes ip_rules : DumpCommand
  ip_routes_of_table : ℕ → DumpCommand

-- `LinuxInterfaceAddr` and `LinuxInterface`.
pub record DumpInterfaceAddr : Type 0 where
  pub addr : String
  pub prefix : ℕ

pub record DumpInterface : Type 0 where
  pub state : String
  pub mtu : ℕ
  pub addr_info : List DumpInterfaceAddr
