-- ===== src/Requests/Collected.antt =====
-- The statistics of BGP neighbours and modems are collected without a reply.
use sdwan_agent.Prelude.{String, Option, ◌==◌, List, [], ◌∷◌, ◌++◌, refl, is_blank}
use sdwan_agent.Errors.{Error, ok, err}
use sdwan_agent.Objects.Bgp.{Int64, NeighborOutput, NeighborAdvOutput, NeighborAdvertise}
use sdwan_agent.Objects.Lte.{LteStat, ModemInfo, no_modem_info}
use sdwan_agent.Action.{ret, ask, query, lift, or_return, ◌>>=◌, ◌>>◌}
use sdwan_agent.Action.Calls.{Direction, adv_in, adv_out, neighbor_text, unix_time, interface_lines}
use sdwan_agent.Requests.Replies.{
  Silent, Silent-bind, Silent-lift, Silent-or_return, Silent-if, Silent-query,
}
use sdwan_agent.Requests.Bgp.{
  SortByNetwork, seconds_since, convert_age_to_seconds, advertise, advertise_each, advertise_all,
  fetch_adv_info, collect_bgp_stats, neighbor_info,
}
use sdwan_agent.Requests.Modems.{
  Texts, parse_lines, parse_interface_info, with_interface, stat_of, collect_each, modem_ids,
  collect_stats,
}

convert_age_to_seconds-Silent : (age : Int64) → Silent (convert_age_to_seconds age)
convert_age_to_seconds-Silent age =
    Silent-if (age == 0) (ret age) (ask unix_time (λ now. ret (seconds_since now age))) (λ n. refl)
      (λ n now. refl)

advertise_each-Silent : (outs : List NeighborAdvOutput) → Silent (advertise_each outs)
unfolding advertise_each
advertise_each-Silent [] n = refl
advertise_each-Silent (out ∷ outs) n =
    Silent-bind (convert_age_to_seconds out.age)
      (λ age. do advs ← advertise_each outs; ret (advertise out age ∷ advs))
      (convert_age_to_seconds-Silent out.age)
      (λ age.
        Silent-bind (advertise_each outs) (λ advs. ret (advertise out age ∷ advs))
          (advertise_each-Silent outs) (λ advs n'. refl))
      n

advertise_all-Silent : (groups : List (List NeighborAdvOutput)) → Silent (advertise_all groups)
unfolding advertise_all
advertise_all-Silent [] n = refl
advertise_all-Silent (outs ∷ groups) n =
    Silent-bind (advertise_each outs) (λ advs. do rest ← advertise_all groups; ret (advs ++ rest))
      (advertise_each-Silent outs)
      (λ advs.
        Silent-bind (advertise_all groups) (λ rest. ret (advs ++ rest))
          (advertise_all-Silent groups) (λ rest n'. refl))
      n

module _ (sort_by_network : SortByNetwork) where
  fetch_adv_info-Silent :
      (direction : Direction) (neighbor : String)
      → Silent (fetch_adv_info sort_by_network direction neighbor)
  fetch_adv_info-Silent direction neighbor n = (
    elim [
      | ok groups ↦
          Silent-bind (advertise_all groups) (λ advs. ret (sort_by_network advs))
            (advertise_all-Silent groups) (λ advs n'. refl) n
      | err e ↦ refl
    ],
    λ e. refl,
  )

  after_ins :
      (neighbor : String) (out : NeighborOutput) (ins : List NeighborAdvertise)
      → Silent (do
        outs ← fetch_adv_info sort_by_network adv_out neighbor
        text ← query (neighbor_text neighbor)
        ret (neighbor_info sort_by_network out ins outs text))
  after_ins neighbor out ins =
      Silent-bind (fetch_adv_info sort_by_network adv_out neighbor)
        (λ outs. do
          text ← query (neighbor_text neighbor)
          ret (neighbor_info sort_by_network out ins outs text))
        (fetch_adv_info-Silent adv_out neighbor) (λ outs n. (λ text. refl, λ e. refl))

  pub collect_bgp_stats-Silent :
      (neighbor : String) → Silent (collect_bgp_stats sort_by_network neighbor)
  collect_bgp_stats-Silent neighbor n = (
    elim [
      | ok out ↦
          Silent-bind (fetch_adv_info sort_by_network adv_in neighbor)
            (λ ins. do
              outs ← fetch_adv_info sort_by_network adv_out neighbor
              text ← query (neighbor_text neighbor)
              ret (neighbor_info sort_by_network out ins outs text))
            (fetch_adv_info-Silent adv_in neighbor) (after_ins neighbor out) n
      | err e ↦ refl
    ],
    λ e. refl,
  )

module _ (texts : Texts) where
  parse_interface_info-Silent :
      (lines : List String × Option Error) (stat : LteStat)
      → Silent (parse_interface_info texts lines stat)
  parse_interface_info-Silent (lines, e) stat =
      Silent-bind (lift (parse_lines texts lines stat)) (λ parsed. do or_return e; ret parsed)
        (Silent-lift (parse_lines texts lines stat))
        (λ parsed. Silent-bind (or_return e) (λ _. ret parsed) (Silent-or_return e) (λ _ n. refl))

  with_interface-Silent :
      (primary_port : String) (stat : LteStat) → Silent (with_interface texts primary_port stat)
  with_interface-Silent primary_port stat =
      Silent-if (is_blank primary_port) (ret stat)
        (do lines ← query (interface_lines primary_port); parse_interface_info texts lines stat)
        (λ n. refl)
        (Silent-bind (query (interface_lines primary_port))
          (λ lines. parse_interface_info texts lines stat)
          (Silent-query (interface_lines primary_port))
          (λ lines. parse_interface_info-Silent lines stat))

  collect_each-Silent :
      (before : ModemInfo) (ids : List String) → Silent (collect_each texts before ids)
  unfolding collect_each
  collect_each-Silent before [] n = refl
  collect_each-Silent before (id ∷ ids) n = (
    elim [
      | ok info ↦
          Silent-bind (with_interface texts info.primary_port (stat_of texts info))
            (λ stat. do rest ← collect_each texts info ids; ret (stat ∷ rest))
            (with_interface-Silent info.primary_port (stat_of texts info))
            (λ stat.
              Silent-bind (collect_each texts info ids) (λ rest. ret (stat ∷ rest))
                (collect_each-Silent info ids) (λ rest n'. refl))
            n
      | err e ↦ refl
    ],
    λ e. refl,
  )

  pub collect_stats-Silent : Silent (collect_stats texts)
  collect_stats-Silent n = (
    elim [
      | ok modems ↦ collect_each-Silent no_modem_info (modem_ids texts modems) n
      | err e ↦ refl
    ],
    λ e. refl,
  )
