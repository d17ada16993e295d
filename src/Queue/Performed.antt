-- ===== src/Queue/Performed.antt =====
-- Which transitions the message queue handlers make the state service perform.
use sdwan_agent.Prelude.{
  ◌≡◌, refl, String, Bool, true, false, Option, none, some, List, [], ◌∷◌, is_blank, if◌then◌else◌,
}
use sdwan_agent.Config.{PortConfig, WanConfig, no_config, empty_port_section}
use sdwan_agent.Entities.{
  Transition, on_ztp_setup_config, on_first_setup, on_rebuild_services, on_reset, on_hub_set_port,
  on_hub_delete_port,
}
use sdwan_agent.Errors.{Error, Result, ok, err, is_panic}
use sdwan_agent.Action.{Action, ret, fail, call, ◌>>◌}
use sdwan_agent.Action.Calls.{perform}
use sdwan_agent.Handlers.Interface.{Env, is_hub}
use sdwan_agent.Machine.{Event, did}
use sdwan_agent.Machine.Views.{Ensures}
use sdwan_agent.Machine.Rules.{Ensures-weaken, Ensures-catch}
use sdwan_agent.Requests.{Incoming}
use sdwan_agent.Queue.{
  Reply, bad_request, internal_error, ok_reply, hub_ports_reply, config_reply, heap_reply, checked,
  decoded_or_bad, or_bad_request, error_reply, reply_with, or_internal_error, FirstSetupRequest,
  QueueRequest, ztp_first_setup_subject, hub_init_subject, ztp_set_port_subject,
  ztp_del_port_subject, get_config_subject, rebuild_services_subject, reset_subject,
  hub_set_port_subject, hub_del_port_subject, hub_list_ports_subject, dump_heap_subject,
}
use sdwan_agent.Queue.Hub.{check_device_is_hub}

-- The transitions that were performed with success, the last one first.
abbrev pub performed : Event → List Transition → List Transition
performed (did (perform t) true) ts = t ∷ ts
performed _ ts = ts

abbrev pub IsValid : {T : Type 0} → Incoming T → T → Type 0
IsValid i r = (i.decoded ≡ ok r) × (i.invalid r ≡ none)

-- A static WAN port with an address, a mask and a gateway.
abbrev pub IsReady : String → PortConfig → Type 0
IsReady name p =
    (p.name ≡ name)
    × ((wan : WanConfig) × (p.wan ≡ some wan)
        × (is_blank wan.ip_addr ≡ false)
        × (is_blank wan.subnet_mask ≡ false)
        × (is_blank wan.gateway ≡ false))

-- The transition that a valid request asks for; a hub's requests are for hubs only.
abbrev pub Wanted : Env → QueueRequest → Transition → Type 0
Wanted env (ztp_first_setup_subject i) t =
    (r : FirstSetupRequest) × IsValid i r
    × (t ≡ on_first_setup r.serial_number r.orchestrator_addrs)
Wanted env (ztp_set_port_subject i) t =
    (p : PortConfig) × IsValid i p
    × (t
        ≡ on_ztp_setup_config
            (record no_config { port = some (record { port_configs = p ∷ []; port_mtus = "" }) }))
Wanted env ztp_del_port_subject t =
    t ≡ on_ztp_setup_config (record no_config { port = some empty_port_section })
Wanted env get_config_subject t = ⊥
Wanted env rebuild_services_subject t = t ≡ on_rebuild_services
Wanted env reset_subject t = t ≡ on_reset
Wanted env (hub_set_port_subject i) t =
    (name : String) × (p : PortConfig) × IsValid i name
    × (is_hub env ≡ true)
    × (t ≡ on_hub_set_port p)
    × IsReady name p
Wanted env (hub_del_port_subject i) t =
    (name : String) × IsValid i name × (is_hub env ≡ true) × (t ≡ on_hub_delete_port name)
Wanted env hub_list_ports_subject t = ⊥
Wanted env dump_heap_subject t = ⊥
Wanted env (hub_init_subject i) t =
    (r : FirstSetupRequest) × IsValid i r
    × (is_hub env ≡ true)
    × (t ≡ on_first_setup r.serial_number r.orchestrator_addrs)

module _ (W : Transition → Type 0) (ts : List Transition) where
  -- A good reply stands for one wanted transition, any other reply for none. Without a reply the
  -- process panics.
  abbrev pub Replied : Result Reply → List Transition → Type 0
  Replied (ok ok_reply) ts' = (t : Transition) × (ts' ≡ t ∷ ts) × W t
  Replied (ok (bad_request e)) ts' = ts' ≡ ts
  Replied (ok (internal_error e)) ts' = ts' ≡ ts
  Replied (ok (hub_ports_reply ps)) ts' = ts' ≡ ts
  Replied (ok (config_reply c)) ts' = ts' ≡ ts
  Replied (ok (heap_reply d)) ts' = ts' ≡ ts
  Replied (err e) ts' = (ts' ≡ ts) × (is_panic e ≡ true)

  abbrev pub Acts : Result (Unit {0}) → List Transition → Type 0
  Acts (ok _) ts' = (t : Transition) × (ts' ≡ t ∷ ts) × W t
  Acts (err e) ts' = ts' ≡ ts

  pub error_reply-Replied : (e : Error) → Ensures performed (error_reply e) Replied ts
  error_reply-Replied e = by_panic (is_panic e) refl
    where
      by_panic :
          (b : Bool)
          → is_panic e ≡ b
          → Ensures performed (if b then fail e else ret (internal_error e)) Replied ts
      by_panic true p = (refl, p)
      by_panic false p = refl

  pub or_internal_error-Replied :
      (m : Action (Unit {0}))
      → Ensures performed m Acts ts
      → Ensures performed (or_internal_error m) Replied ts
  or_internal_error-Replied m h =
      Ensures-catch performed m (reply_with (λ _. ok_reply)) Replied ts (
        Ensures-weaken performed m Acts
          (λ r ts'. Ensures performed (reply_with (λ _. ok_reply) r) Replied ts') ts
          (elim [ ok _ ↦ λ ts' x. x | err e ↦ λ ts' x. rw x (error_reply-Replied e) ]) h)

  pub performs : (t : Transition) → W t → Ensures performed (call (perform t)) Acts ts
  performs t w = ((t, refl, w), λ e. refl)

  pub on_hub :
      (b : Bool) (m : Action (Unit {0}))
      → (b ≡ true → Ensures performed m Acts ts)
      → Ensures performed (do check_device_is_hub b; m) Acts ts
  on_hub true m h = h refl
  on_hub false m h = refl

  module _ {T : Type 0} (i : Incoming T) (f : T → Action Reply)
      (h : (r : T) → IsValid i r → Ensures performed (f r) Replied ts) where
    pub or_bad_request-Replied : Ensures performed (or_bad_request i f) Replied ts
    or_bad_request-Replied = by_decoded i.decoded refl
      where
        by_invalid :
            (r : T) (o : Option Error)
            → i.decoded ≡ ok r
            → i.invalid r ≡ o
            → Ensures performed (checked r o f) Replied ts
        by_invalid r none p q = h r (p, q)
        by_invalid r (some e) p q = refl

        by_decoded :
            (r : Result T)
            → i.decoded ≡ r
            → Ensures performed (decoded_or_bad r i.invalid f) Replied ts
        by_decoded (ok r) p = by_invalid r (i.invalid r) p refl
        by_decoded (err e) p = refl
