-- ===== src/DumpStat.antt =====
-- internal/domains/dumpstat/service.go: `DumpStats` collects the state of the network in the fields of
-- one log message. Errors on the way are only logged, each by a message of its own, which is left
-- out.
pub mod Numbered
use sdwan_agent.Prelude.{
  String, ℕ, suc, Bool, Option, none, some, List, [], ◌∷◌, ◌++◌, if◌then◌else◌,
}
use sdwan_agent.Errors.{Error, Result, ok, err}
use sdwan_agent.Config.{Config, Section, PortConfig, PortSection, Cluster, PonySection}
use sdwan_agent.Objects.Dump.{
  DumpCommand, ip_routes, ip_rules, ip_routes_of_table, DumpInterfaceAddr, DumpInterface,
}
use sdwan_agent.Action.{Action, ret, fetch, ◌>>=◌}
use sdwan_agent.Action.Calls.{Piece, text, number, config, dump_lines, dump_interfaces}

-- A field of the message: the number of its key, the rest of the key, and its value.
pub record Entry : Type 0 where
  pub position : ℕ
  pub key : List Piece
  pub value : List Piece

-- The counter, and the fields so far.
pub record Message : Type 0 where
  pub counter : ℕ
  pub entries : List Entry

-- `newCounter`.
abbrev pub new_message : Message
new_message = record { counter = 1; entries = [] }

-- `get`, and `Str`.
abbrev pub entry_at : Message → List Piece → List Piece → Entry
entry_at m key value = record { position = m.counter; key = key; value = value }

abbrev pub add_field : List Piece → List Piece → Message → Message
add_field key value m = record {
  counter = suc m.counter;
  entries = m.entries ++ entry_at m key value ∷ [];
}

-- What is outside: `strings.TrimSpace` and the replacement of tabs, `strings.ToLower`, and the
-- state of a port in the section of admin states, if it is there: is it down.
pub record Outside : Type 0 where
  pub trimmed_line : String → String
  pub to_lower : String → String
  pub admin_state_of : Section → String → Option Bool

module _ (o : Outside) where
  -- The loop of `parseLineByLine` with the function that adds a line.
  abbrev pub add_lines : List Piece → List String → Message → Message
  add_lines key [] m = m
  add_lines key (line ∷ lines) m =
      add_lines key lines (add_field key (text (o.trimmed_line line) ∷ []) m)

  -- The lines are added before the scanner's error is logged.
  abbrev pub add_printed :
      List Piece → Message → Result (List String × Option Error) → Action Message
  add_printed key m (err e) = ret m
  add_printed key m (ok (lines, e)) = ret (add_lines key lines m)

  abbrev pub dump_command : DumpCommand → List Piece → Message → Action Message
  dump_command command key m = fetch (dump_lines command) (add_printed key m)

  -- `parseOperState` with the function that adds a value.
  abbrev pub add_addresses : String → List DumpInterfaceAddr → Message → Message
  add_addresses name [] m = m
  add_addresses name (a ∷ addrs) m = add_addresses name addrs (
      add_field (text "ip address " ∷ text name ∷ [])
        (text a.addr ∷ text "/" ∷ number a.prefix ∷ []) m)

  abbrev pub add_interface : String → DumpInterface → Message → Message
  add_interface name stat m = add_addresses name stat.addr_info (
      add_field (text "mtu " ∷ text name ∷ []) (number stat.mtu ∷ [])
        (add_field (text "link state " ∷ text name ∷ []) (text (o.to_lower stat.state) ∷ []) m))

  abbrev pub add_interfaces : String → List DumpInterface → Message → Message
  add_interfaces name [] m = m
  add_interfaces name (stat ∷ stats) m = add_interfaces name stats (add_interface name stat m)

  abbrev pub add_decoded : String → Message → Result (Result (List DumpInterface)) → Action Message
  add_decoded name m (ok (ok stats)) = ret (add_interfaces name stats m)
  add_decoded name m (ok (err e)) = ret m
  add_decoded name m (err e) = ret m

  abbrev pub dump_addresses : String → Message → Action Message
  dump_addresses name m = fetch (dump_interfaces name) (add_decoded name m)

  -- The admin state of a port.
  abbrev pub add_state : String → Option Bool → Message → Message
  add_state name none m = m
  add_state name (some is_down) m =
      add_field (text "admin state " ∷ text name ∷ [])
        (text (if is_down then "down" else "up") ∷ []) m

  abbrev pub add_admin_state : Option Section → String → Message → Message
  add_admin_state none name m = m
  add_admin_state (some section) name m = add_state name (o.admin_state_of section name) m

  -- The tables of a port.
  abbrev pub dump_tables : String → List ℕ → Message → Action Message
  dump_tables name [] m = ret m
  dump_tables name (id ∷ ids) m = do
    m' ←
        dump_command (ip_routes_of_table id)
          (text "ip route table " ∷ number id ∷ text " (" ∷ text name ∷ text ")" ∷ []) m
    dump_tables name ids m'

  abbrev pub dump_ports : Option Section → List PortConfig → Message → Action Message
  dump_ports admin [] m = ret m
  dump_ports admin (port ∷ ports) m = do
    m' ← dump_addresses port.name (add_admin_state admin port.name m)
    m'' ← dump_tables port.name port.table_ids m'
    dump_ports admin ports m''

  abbrev pub dump_port_section : Option Section → Option PortSection → Message → Action Message
  dump_port_section admin none m = ret m
  dump_port_section admin (some section) m = dump_ports admin section.port_configs m

  -- The tunnels of the clusters.
  abbrev pub add_tunnels : String → List (String × Bool) → Message → Message
  add_tunnels network [] m = m
  add_tunnels network ((ip, is_up) ∷ states) m = add_tunnels network states (
      add_field (text "tunnel state " ∷ text ip ∷ text " (cluster: " ∷ text network ∷ text ")" ∷ [])
        (text (if is_up then "up" else "down") ∷ []) m)

  abbrev pub add_clusters : List Cluster → Message → Message
  add_clusters [] m = m
  add_clusters (c ∷ clusters) m = add_clusters clusters (
      add_tunnels c.network c.local_states (
        add_field (text "active tunnel (cluster: " ∷ text c.network ∷ text ")" ∷ [])
          (text c.active_tunnel ∷ []) m))

  abbrev pub add_pony : Option PonySection → Message → Message
  add_pony none m = m
  add_pony (some pony) m = add_clusters pony.clusters m

  abbrev pub dump_config : Config → Action Message
  dump_config cfg = do
    routes ← dump_command ip_routes (text "ip route" ∷ []) new_message
    rules ← dump_command ip_rules (text "ip rule" ∷ []) routes
    ports ← dump_port_section cfg.admin_state cfg.port rules
    ret (add_pony cfg.pony ports)

  -- The message that is logged, with its last field, the key of the dump.
  abbrev pub dump_read : String → Result Config → Action (Option (Message × String))
  dump_read dump_key (err e) = ret none
  dump_read dump_key (ok cfg) = do m ← dump_config cfg; ret (some (m, dump_key))

  -- `DumpStats`; no message is logged if the configuration cannot be read.
  abbrev pub dump_stats : String → Action (Option (Message × String))
  dump_stats dump_key = fetch config (dump_read dump_key)
