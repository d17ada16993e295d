-- ===== src/Requests/Bgp.antt =====
-- The BGP statistics of internal/domains/l3/handler.go: `FetchBGPStats` and what it calls.
use sdwan_agent.Prelude.{
  String, Bool, ◌+◌, ◌-◌, ◌%◌, leb, ◌==◌, none, some, List, [], ◌∷◌, ◌++◌, map, if◌then◌else◌,
}
use sdwan_agent.Errors.{Result, ok, err}
use sdwan_agent.Objects.Bgp.{
  Int64, NeighborOutput, AsPath, Attr, NeighborAdvOutput, NeighborAdvertiseAsPath,
  NeighborAdvertise, NeighborInfo,
}
use sdwan_agent.Objects.Bodies.{bgp_stats}
use sdwan_agent.Action.{Action, ret, fail, fetch, ask, query, lift, ◌>>=◌}
use sdwan_agent.Action.Calls.{
  Direction, adv_in, adv_out, neighbor_output, neighbor_adv, neighbor_text, unix_time,
}
use sdwan_agent.Requests.{Incoming, Job, unmarshal_valid, respond, with_error_response}

-- `calculateSessionState`.
abbrev pub calculate_session_state : Int64 → String
calculate_session_state state =
    if state == 1
    then "Idle"
    else if state == 2
    then "Connect"
    else if state == 3
    then "Active"
    else if state == 4
    then "OpenSent"
    else if state == 5
    then "OpenConfirm"
    else if state == 6
    then "Established"
    else "Unknown"

-- Subtraction and negation of 64-bit words, and the test on the sign.
abbrev pub subtract : Int64 → Int64 → Int64
subtract a b = (a + 18446744073709551616 - b) % 18446744073709551616

abbrev pub negate : Int64 → Int64
negate a = (18446744073709551616 - a) % 18446744073709551616

abbrev pub is_negative : Int64 → Bool
is_negative a = leb 9223372036854775808 a

abbrev pub absolute : Int64 → Int64
absolute res = if is_negative res then negate res else res

-- `convertAgeToSeconds`: the clock is not read for the age 0.
unfoldable pub seconds_since : Int64 → Int64 → Int64
seconds_since now age = absolute (subtract now age)

abbrev pub convert_age_to_seconds : Int64 → Action Int64
convert_age_to_seconds age =
    if age == 0 then ret age else ask unix_time (λ now. ret (seconds_since now age))

-- The loop over the attributes.
abbrev pub convert_path : AsPath → NeighborAdvertiseAsPath
convert_path p = record { asns = p.asns }

abbrev pub set_attr : NeighborAdvertise → Attr → NeighborAdvertise
set_attr result a =
    if a.attr_type == 2
    then record result { as_paths = some (map convert_path a.as_paths) }
    else if a.attr_type == 3
    then record result { nexthop = a.nexthop }
    else result

unfoldable pub set_attrs : NeighborAdvertise → List Attr → NeighborAdvertise
set_attrs result [] = result
set_attrs result (a ∷ attrs) = set_attrs (set_attr result a) attrs

abbrev pub advertise : NeighborAdvOutput → Int64 → NeighborAdvertise
advertise out age =
    set_attrs (record { network = out.prefix; nexthop = ""; age = age; as_paths = none }) out.attrs

-- The loops over the decoded map, in the order in which its entries come.
unfoldable pub advertise_each : List NeighborAdvOutput → Action (List NeighborAdvertise)
advertise_each [] = ret []
advertise_each (out ∷ outs) = do
  age ← convert_age_to_seconds out.age
  advs ← advertise_each outs
  ret (advertise out age ∷ advs)

unfoldable pub advertise_all : List (List NeighborAdvOutput) → Action (List NeighborAdvertise)
advertise_all [] = ret []
advertise_all (outs ∷ groups) = do
  advs ← advertise_each outs
  rest ← advertise_all groups
  ret (advs ++ rest)

-- `slices.SortFunc` by the networks.
abbrev pub SortByNetwork : Type 0
SortByNetwork = List NeighborAdvertise → List NeighborAdvertise

module _ (sort_by_network : SortByNetwork) where
  -- An error of the command is only logged, and one of decoding its output is returned.
  abbrev pub collect_advs :
      Result (Result (List (List NeighborAdvOutput))) → Action (List NeighborAdvertise)
  collect_advs (err e) = ret []
  collect_advs (ok (err e)) = fail e
  collect_advs (ok (ok groups)) = do advs ← advertise_all groups; ret (sort_by_network advs)

  -- `fetchAdvInfo`.
  abbrev pub fetch_adv_info : Direction → String → Action (List NeighborAdvertise)
  fetch_adv_info direction neighbor = fetch (neighbor_adv direction neighbor) collect_advs

  abbrev pub neighbor_info :
      NeighborOutput → List NeighborAdvertise → List NeighborAdvertise → String → NeighborInfo
  neighbor_info out ins outs text = record {
    local_addr = out.local_address;
    local_as = out.conf.local_asn;
    peer_addr = out.conf.remote_address;
    peer_as = out.conf.remote_as;
    state = calculate_session_state out.session_state;
    holdtime = out.timers_config.holdtime;
    oper_holdtime = out.timers_state.holdtime;
    oper_keepalive = out.timers_state.keepalive;
    keepalive = out.timers_config.keepalive;
    uptime = out.timers_state.uptime;
    downtime = out.timers_state.downtime;
    adv_ins = ins;
    adv_outs = outs;
    neighbor_output = text;
  }

  -- The body of the handler after the request is decoded.
  abbrev pub collect_bgp_stats : String → Action NeighborInfo
  collect_bgp_stats neighbor = do
    printed ← query (neighbor_output neighbor)
    out ← lift printed
    ins ← fetch_adv_info adv_in neighbor
    outs ← fetch_adv_info adv_out neighbor
    text ← query (neighbor_text neighbor)
    ret (neighbor_info out ins outs text)

  -- `FetchBGPStats`; the request is the neighbour.
  abbrev pub fetch_bgp_stats : Incoming String → Action Job
  fetch_bgp_stats i =
      with_error_response (do
        neighbor ← unmarshal_valid i
        info ← collect_bgp_stats neighbor
        respond (bgp_stats info))
