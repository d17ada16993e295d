-- ===== src/Requests/Modems.antt =====
-- The statistics of the LTE modems: `CollectStats` and `parseInterfaceInfo` of
-- internal/domains/lte/service.go, and `FetchStats` of the handler.
use sdwan_agent.Prelude.{
  String, ℕ, Bool, true, false, Option, none, some, List, [], ◌∷◌, ◌++◌, str_eq, has_prefix,
  is_blank, if◌then◌else◌,
}
use sdwan_agent.Errors.{Error, Result, ok, err}
use sdwan_agent.Objects.Lte.{LteStat, ModemInfo, no_modem_info}
use sdwan_agent.Objects.Bodies.{lte_stats}
use sdwan_agent.Action.{Action, ret, query, lift, or_return, ◌>>=◌, ◌>>◌}
use sdwan_agent.Action.Calls.{modem_list, modem_info, interface_lines}
use sdwan_agent.Requests.{Job, respond, with_error_response}

-- The standard library's `strings.TrimSpace`, `strings.Cut`, `strings.Split` and `strconv.Atoi`.
pub record Texts : Type 0 where
  pub trim_space : String → String
  pub cut : String → String → String × String × Bool
  pub split : String → String → List String
  pub atoi : String → Result ℕ

-- The cases of the two `switch` statements.
pub data Field : Type 0 where
  type_field hw_addr_field mtu_field general_state_field connection_field : Field
  ip_gateway_field ip_address_field dns_field other_field : Field

abbrev pub field_of : String → Field
field_of key =
    if str_eq key "GENERAL.TYPE"
    then type_field
    else if str_eq key "GENERAL.HWADDR"
    then hw_addr_field
    else if str_eq key "GENERAL.MTU"
    then mtu_field
    else if str_eq key "GENERAL.STATE"
    then general_state_field
    else if str_eq key "GENERAL.CONNECTION"
    then connection_field
    else if str_eq key "IP4.GATEWAY"
    then ip_gateway_field
    else if has_prefix key "IP4.ADDRESS"
    then ip_address_field
    else if has_prefix key "IP4.DNS"
    then dns_field
    else other_field

abbrev pub set_mtu : LteStat → Result ℕ → Result LteStat
set_mtu stat (ok n) = ok (record stat { mtu = n })
set_mtu stat (err e) = err e

module _ (texts : Texts) where
  abbrev pub set_field : Field → String → LteStat → Result LteStat
  set_field type_field value stat = ok (record stat { type_name = value })
  set_field hw_addr_field value stat = ok (record stat { hw_addr = value })
  set_field mtu_field value stat = set_mtu stat (texts.atoi value)
  set_field general_state_field value stat = ok (record stat { general_state = value })
  set_field connection_field value stat = ok (record stat { connection = value })
  set_field ip_gateway_field value stat = ok (record stat { ip_gateway = value })
  set_field ip_address_field value stat =
      ok (record stat { ip_addresses = stat.ip_addresses ++ value ∷ [] })
  set_field dns_field value stat = ok (record stat { dns = stat.dns ++ value ∷ [] })
  set_field other_field value stat = ok stat

  -- The key and the value of a line that is not empty and has a colon.
  abbrev pub pair_of : String × String × Bool → Option (Field × String)
  pair_of (key, value, true) = some (field_of (texts.trim_space key), texts.trim_space value)
  pair_of (key, value, false) = none

  abbrev pub entry_of : String → Option (Field × String)
  entry_of line =
      let trimmed = texts.trim_space line in
      if is_blank trimmed then none else pair_of (texts.cut trimmed ":")

  abbrev pub set_entry : Option (Field × String) → LteStat → Result LteStat
  set_entry none stat = ok stat
  set_entry (some (field, value)) stat = set_field field value stat

  abbrev pub or_failed : Result LteStat → (LteStat → Result LteStat) → Result LteStat
  or_failed (ok stat) f = f stat
  or_failed (err e) f = err e

  -- The loop of `parseInterfaceInfo`.
  unfoldable pub parse_lines : List String → LteStat → Result LteStat
  parse_lines [] stat = ok stat
  parse_lines (line ∷ lines) stat =
      or_failed (set_entry (entry_of line) stat) (λ stat'. parse_lines lines stat')

  abbrev pub parse_interface_info : List String × Option Error → LteStat → Action LteStat
  parse_interface_info (lines, e) stat = do
    parsed ← lift (parse_lines lines stat)
    or_return e
    ret parsed

  -- The first port of the network device.
  unfoldable pub search_port : List String → String
  search_port [] = ""
  search_port (p ∷ ps) =
      let rest = search_port ps in
      if has_prefix p "wwan" then texts.trim_space (texts.cut p " ").0 else rest

  abbrev pub stat_of : ModemInfo → LteStat
  stat_of info = record {
    imei = info.imei;
    operator_code = info.operator_code;
    operator_name = info.operator_name;
    model = info.model;
    power_state = info.power_state;
    state = info.state;
    device_path = info.device;
    port = search_port info.ports;
    signal_quality = info.signal_quality;
    type_name = "";
    hw_addr = "";
    mtu = 0;
    general_state = "";
    connection = "";
    ip_gateway = "";
    ip_addresses = [];
    dns = [];
  }

  -- The interface's part of a round.
  abbrev pub with_interface : String → LteStat → Action LteStat
  with_interface primary_port stat =
      if is_blank primary_port
      then ret stat
      else (do lines ← query (interface_lines primary_port); parse_interface_info lines stat)

  -- The loop over the modems. The variable `modemInfo` is decoded into in each round.
  unfoldable pub collect_each : ModemInfo → List String → Action (List LteStat)
  collect_each before [] = ret []
  collect_each before (id ∷ ids) = do
    printed ← query (modem_info id before)
    info ← lift printed
    stat ← with_interface info.primary_port (stat_of info)
    rest ← collect_each info ids
    ret (stat ∷ rest)

  -- The identifiers of the modems: the last parts of their paths.
  unfoldable pub last_part : List String → Option String
  last_part [] = none
  last_part (part ∷ []) = some part
  last_part (_ ∷ part ∷ parts) = last_part (part ∷ parts)

  abbrev pub add_id : Option String → List String → List String
  add_id none ids = ids
  add_id (some id) ids = id ∷ ids

  unfoldable pub modem_ids : List String → List String
  modem_ids [] = []
  modem_ids (modem ∷ modems) = add_id (last_part (texts.split modem "/")) (modem_ids modems)

  -- `CollectStats`.
  abbrev pub collect_stats : Action (List LteStat)
  collect_stats = do
    printed ← query modem_list
    modems ← lift printed
    collect_each no_modem_info (modem_ids modems)

  -- `FetchStats`.
  abbrev pub fetch_stats : Action Job
  fetch_stats = with_error_response (do stats ← collect_stats; respond (lte_stats stats))
