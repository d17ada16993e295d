-- ===== src/DumpStat/Numbered.antt =====
-- The fields of a dump are numbered in order.
use sdwan_agent.Prelude.{
  ◌≡◌, refl, ap, String, ℕ, suc, Bool, Option, none, some, List, [], ◌∷◌, ◌++◌, length, ◌+◌, arith,
}
use sdwan_agent.Errors.{Result, ok, err}
use sdwan_agent.Config.{Config, Section, PortConfig, PortSection, Cluster, PonySection}
use sdwan_agent.Objects.Dump.{
  DumpCommand, ip_routes, ip_rules, ip_routes_of_table, DumpInterfaceAddr, DumpInterface,
}
use sdwan_agent.Action.{Action, ret, ◌>>=◌}
use sdwan_agent.Action.Calls.{Piece, text}
use sdwan_agent.Machine.{Event, Agent, Services, run}
use sdwan_agent.Machine.Laws.{TransactionLaws}
use sdwan_agent.Machine.Views.{Ensures, Holds, run-Ensures}
use sdwan_agent.Machine.Rules.{Ensures-Bind, Ensures-weaken, Bind}
use sdwan_agent.DumpStat.{
  Entry, Message, entry_at, add_field, new_message, Outside, add_lines, dump_command, add_addresses,
  add_interfaces, dump_addresses, add_state, add_admin_state, dump_tables, dump_ports,
  dump_port_section, add_tunnels, add_clusters, add_pony, dump_config, dump_stats,
}

-- Entries are numbered from `n`.
abbrev pub NumberedFrom : ℕ → List Entry → Type 0
NumberedFrom n [] = Unit
NumberedFrom n (e ∷ es) = (e.position ≡ n) × NumberedFrom (suc n) es

abbrev pub IsNumbered : Message → Type 0
IsNumbered m = NumberedFrom 1 m.entries × (m.counter ≡ suc (length m.entries))

NumberedFrom-append :
    (n : ℕ) (es : List Entry) (e : Entry)
    → NumberedFrom n es
    → e.position ≡ n + length es
    → NumberedFrom n (es ++ e ∷ [])
NumberedFrom-append n [] e h p = (omega arith, tt)
NumberedFrom-append n (x ∷ es) e h p = (h.0, NumberedFrom-append (suc n) es e h.1 (omega arith))

length-append_one : (es : List Entry) (e : Entry) → length (es ++ e ∷ []) ≡ suc (length es)
length-append_one [] e = refl
length-append_one (x ∷ es) e = ap suc (length-append_one es e)

add_field-IsNumbered :
    (key value : List Piece) (m : Message) → IsNumbered m → IsNumbered (add_field key value m)
add_field-IsNumbered key value m (h, c) = (
  NumberedFrom-append 1 m.entries (entry_at m key value) h (omega arith),
  rw (length-append_one m.entries (entry_at m key value)) (ap suc c),
)

-- An action whose message is numbered, and that does not fail.
abbrev Q : Result Message → Unit {0} → Type 0
Q (ok m) _ = IsNumbered m
Q (err e) _ = ⊥

abbrev pub unseen : Event → Unit {0} → Unit {0}
unseen _ v = v

abbrev Numbers : Action Message → Type 0
Numbers a = Ensures unseen a Q tt

Numbers-bind :
    (a : Action Message) (f : Message → Action Message)
    → Numbers a
    → ((m : Message) → IsNumbered m → Numbers (f m))
    → Numbers (a >>= f)
Numbers-bind a f h h' = Ensures-Bind unseen a f Q tt (
    Ensures-weaken unseen a Q (Bind unseen f Q) tt
      (elim [ ok m ↦ λ w p. h' m p | err e ↦ λ w p. p ]) h)

module _ (o : Outside) where
  add_lines-IsNumbered :
      (key : List Piece) (lines : List String) (m : Message)
      → IsNumbered m
      → IsNumbered (add_lines o key lines m)
  add_lines-IsNumbered key [] m h = h
  add_lines-IsNumbered key (line ∷ lines) m h =
      add_lines-IsNumbered key lines _ (add_field-IsNumbered key _ m h)

  dump_command-Numbers :
      (command : DumpCommand) (key : List Piece) (m : Message)
      → IsNumbered m
      → Numbers (dump_command o command key m)
  dump_command-Numbers command key m h = (λ x. add_lines-IsNumbered key x.0 m h, λ e. h)

  add_addresses-IsNumbered :
      (name : String) (addrs : List DumpInterfaceAddr) (m : Message)
      → IsNumbered m
      → IsNumbered (add_addresses o name addrs m)
  add_addresses-IsNumbered name [] m h = h
  add_addresses-IsNumbered name (a ∷ addrs) m h =
      add_addresses-IsNumbered name addrs _ (add_field-IsNumbered _ _ m h)

  add_interfaces-IsNumbered :
      (name : String) (stats : List DumpInterface) (m : Message)
      → IsNumbered m
      → IsNumbered (add_interfaces o name stats m)
  add_interfaces-IsNumbered name [] m h = h
  add_interfaces-IsNumbered name (stat ∷ stats) m h = add_interfaces-IsNumbered name stats _ (
      add_addresses-IsNumbered name stat.addr_info _
        (add_field-IsNumbered _ _ _ (add_field-IsNumbered _ _ m h)))

  dump_addresses-Numbers :
      (name : String) (m : Message) → IsNumbered m → Numbers (dump_addresses o name m)
  dump_addresses-Numbers name m h =
      (elim [ ok stats ↦ add_interfaces-IsNumbered name stats m h | err e ↦ h ], λ e. h)

  add_state-IsNumbered :
      (name : String) (s : Option Bool) (m : Message)
      → IsNumbered m
      → IsNumbered (add_state o name s m)
  add_state-IsNumbered name none m h = h
  add_state-IsNumbered name (some is_down) m h = add_field-IsNumbered _ _ m h

  add_admin_state-IsNumbered :
      (admin : Option Section) (name : String) (m : Message)
      → IsNumbered m
      → IsNumbered (add_admin_state o admin name m)
  add_admin_state-IsNumbered none name m h = h
  add_admin_state-IsNumbered (some section) name m h =
      add_state-IsNumbered name (o.admin_state_of section name) m h

  dump_tables-Numbers :
      (name : String) (ids : List ℕ) (m : Message)
      → IsNumbered m
      → Numbers (dump_tables o name ids m)
  dump_tables-Numbers name [] m h = h
  dump_tables-Numbers name (id ∷ ids) m h =
      Numbers-bind (dump_command o (ip_routes_of_table id) _ m) (dump_tables o name ids)
        (dump_command-Numbers (ip_routes_of_table id) _ m h) (dump_tables-Numbers name ids)

  dump_ports-Numbers :
      (admin : Option Section) (ports : List PortConfig) (m : Message)
      → IsNumbered m
      → Numbers (dump_ports o admin ports m)
  dump_ports-Numbers admin [] m h = h
  dump_ports-Numbers admin (port ∷ ports) m h =
      Numbers-bind (dump_addresses o port.name (add_admin_state o admin port.name m))
        (λ m'. do m'' ← dump_tables o port.name port.table_ids m'; dump_ports o admin ports m'')
        (dump_addresses-Numbers port.name _ (add_admin_state-IsNumbered admin port.name m h))
        (λ m' h'.
          Numbers-bind (dump_tables o port.name port.table_ids m') (dump_ports o admin ports)
            (dump_tables-Numbers port.name port.table_ids m' h') (dump_ports-Numbers admin ports))

  dump_port_section-Numbers :
      (admin : Option Section) (section : Option PortSection) (m : Message)
      → IsNumbered m
      → Numbers (dump_port_section o admin section m)
  dump_port_section-Numbers admin none m h = h
  dump_port_section-Numbers admin (some section) m h =
      dump_ports-Numbers admin section.port_configs m h

  add_tunnels-IsNumbered :
      (network : String) (states : List (String × Bool)) (m : Message)
      → IsNumbered m
      → IsNumbered (add_tunnels o network states m)
  add_tunnels-IsNumbered network [] m h = h
  add_tunnels-IsNumbered network ((ip, is_up) ∷ states) m h =
      add_tunnels-IsNumbered network states _ (add_field-IsNumbered _ _ m h)

  add_clusters-IsNumbered :
      (clusters : List Cluster) (m : Message)
      → IsNumbered m
      → IsNumbered (add_clusters o clusters m)
  add_clusters-IsNumbered [] m h = h
  add_clusters-IsNumbered (c ∷ clusters) m h =
      add_clusters-IsNumbered clusters _
        (add_tunnels-IsNumbered c.network c.local_states _ (add_field-IsNumbered _ _ m h))

  add_pony-IsNumbered :
      (pony : Option PonySection) (m : Message) → IsNumbered m → IsNumbered (add_pony o pony m)
  add_pony-IsNumbered none m h = h
  add_pony-IsNumbered (some pony) m h = add_clusters-IsNumbered pony.clusters m h

  dump_config-Numbers : (cfg : Config) → Numbers (dump_config o cfg)
  dump_config-Numbers cfg =
      Numbers-bind (dump_command o ip_routes _ new_message)
        (λ routes. do
          rules ← dump_command o ip_rules (text "ip rule" ∷ []) routes
          ports ← dump_port_section o cfg.admin_state cfg.port rules
          ret (add_pony o cfg.pony ports))
        (dump_command-Numbers ip_routes _ new_message (tt, refl))
        (λ routes h.
          Numbers-bind (dump_command o ip_rules _ routes)
            (λ rules. do
              ports ← dump_port_section o cfg.admin_state cfg.port rules
              ret (add_pony o cfg.pony ports))
            (dump_command-Numbers ip_rules _ routes h)
            (λ rules h'.
              Numbers-bind (dump_port_section o cfg.admin_state cfg.port rules)
                (λ ports. ret (add_pony o cfg.pony ports))
                (dump_port_section-Numbers cfg.admin_state cfg.port rules h')
                (λ ports h''. add_pony-IsNumbered cfg.pony ports h'')))

-- A dump: it does not fail, and its message has the key that was asked for and numbered fields.
abbrev pub IsDump : String → Result (Option (Message × String)) → Unit {0} → Type 0
IsDump key (ok none) _ = Unit
IsDump key (ok (some (m, key'))) _ = (key' ≡ key) × IsNumbered m
IsDump key (err e) _ = ⊥

-- If the transactions follow their laws, a dump never fails. The message that it logs, if it logs
-- one, has the key that was asked for, and its fields are numbered from 1 in their order without a gap,
-- whichever of the commands and of the decodings fail.
pub dump_stats-IsDump :
    (o : Outside) (s : Services)
    → TransactionLaws s
    → (key : String) (g : Agent) → Holds unseen tt (IsDump key) (run s (dump_stats o key) g)
dump_stats-IsDump o s laws key g = run-Ensures unseen tt s laws (dump_stats o key) (IsDump key) g (
  λ cfg.
      Ensures-Bind unseen (dump_config o cfg) (λ m. ret (some (m, key))) (IsDump key) _
        (Ensures-weaken unseen (dump_config o cfg) Q
          (Bind unseen (λ m. ret (some (m, key))) (IsDump key)) _
          (elim [ ok m ↦ λ w p. (refl, p) | err e ↦ λ w p. p ]) (dump_config-Numbers o cfg)),
  λ e. tt,
)
