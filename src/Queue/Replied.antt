-- ===== src/Queue/Replied.antt =====
-- Each message queue request of cmd/app/routes.go: a good reply to it stands for the one transition
-- that it asks for. `SetPort` of internal/domains/hub/service.go hands on a complete port.
use sdwan_agent.Prelude.{
  ◌≡◌, refl, String, Bool, true, false, Option, none, some, List, [], ◌∷◌, is_blank, if◌then◌else◌,
}
use sdwan_agent.Entities.{
  Transition, on_first_setup, on_hub_set_port, on_hub_delete_port, on_ztp_setup_config,
}
use sdwan_agent.Config.{no_config}
use sdwan_agent.Errors.{Error, ok, err, reason}
use sdwan_agent.Action.{Action, ret, lift, call, query, catch, ◌>>=◌, ◌>>◌}
use sdwan_agent.Action.Calls.{perform, config, search_ip_addr_and_mask, all_ports}
use sdwan_agent.Handlers.Interface.{Env, is_hub}
use sdwan_agent.Machine.{Agent, Services, run}
use sdwan_agent.Machine.Laws.{TransactionLaws}
use sdwan_agent.Machine.Views.{Ensures, Holds, view, run-Ensures}
use sdwan_agent.Requests.{Incoming}
use sdwan_agent.Queue.{
  QueueRequest, ztp_first_setup_subject, hub_init_subject, ztp_set_port_subject,
  ztp_del_port_subject, get_config_subject, rebuild_services_subject, reset_subject,
  hub_set_port_subject, hub_del_port_subject, hub_list_ports_subject, dump_heap_subject, reply_to,
  perform_and_reply, or_internal_error, reply_with, hub_ports_reply,
}
use sdwan_agent.Queue.Hub.{
  check_device_is_hub, not_blank, first_dns, perform_set_port, set_port_dns, set_port_gateway,
  set_port_addr, set_port, delete_port, init, wan_port, hub_ports,
}
use sdwan_agent.Queue.Performed.{
  performed, IsValid, Wanted, Replied, Acts, error_reply-Replied, or_internal_error-Replied,
  performs, on_hub, or_bad_request-Replied,
}

module _ (W : Transition → Type 0) (ts : List Transition) where
  -- A check that fails ends `SetPort` with no transition.
  after_check :
      (message found : String) (m : Action (Unit {0}))
      → (is_blank found ≡ false → Ensures performed m (Acts W ts) ts)
      → Ensures performed (lift (not_blank message found) >> m) (Acts W ts) ts
  after_check message found m h = by_blank (is_blank found) refl
    where
      by_blank :
          (b : Bool)
          → is_blank found ≡ b
          → Ensures performed (lift (if b then err (reason message) else ok tt) >> m) (Acts W ts) ts
      by_blank true p = refl
      by_blank false p = h p

  perform_and_reply-Replied :
      (t : Transition) → W t → Ensures performed (perform_and_reply t) (Replied W ts) ts
  perform_and_reply-Replied t w =
      or_internal_error-Replied W ts (call (perform t)) (performs W ts t w)

module _ (env : Env) (i : Incoming String) (name : String) (valid : IsValid i name)
    (hub : is_hub env ≡ true) (ts : List Transition) where
  abbrev Goal : Action (Unit {0}) → Type 0
  Goal m = Ensures performed m (Acts (Wanted env (hub_set_port_subject i)) ts) ts

  set_port_dns-Acts :
      (ip_addr subnet_mask gateway : String)
      → is_blank ip_addr ≡ false
      → is_blank subnet_mask ≡ false
      → is_blank gateway ≡ false
      → Goal (set_port_dns name ip_addr subnet_mask gateway)
  set_port_dns-Acts ip_addr subnet_mask gateway h h' h'' = (by_found, λ e. refl)
    where
      by_found :
          (found : List String × Option Error)
          → Goal (lift (first_dns found) >>= perform_set_port name ip_addr subnet_mask gateway)
      by_found (dns ∷ _, none) =
          performs (Wanted env (hub_set_port_subject i)) ts
            (on_hub_set_port (wan_port name ip_addr subnet_mask gateway dns))
            (
              name,
              wan_port name ip_addr subnet_mask gateway dns,
              valid,
              hub,
              refl,
              (refl, (_, refl, h, h', h'')),
            )
      by_found ([], none) = refl
      by_found (_, some e) = refl

  set_port_gateway-Acts :
      (ip_addr subnet_mask : String)
      → is_blank ip_addr ≡ false
      → is_blank subnet_mask ≡ false
      → Goal (set_port_gateway name ip_addr subnet_mask)
  set_port_gateway-Acts ip_addr subnet_mask h h' = (
    λ gateway.
        after_check _ ts "SetPort: gateway not set" gateway
          (set_port_dns name ip_addr subnet_mask gateway)
          (set_port_dns-Acts ip_addr subnet_mask gateway h h'),
    λ e. refl,
  )

  set_port_addr-Acts : (found : String × String) → Goal (set_port_addr name found)
  set_port_addr-Acts (ip_addr, subnet_mask) =
      after_check _ ts "SetPort: ip address not set" ip_addr
        (lift (not_blank "SetPort: subnet mask not set" subnet_mask)
          >> set_port_gateway name ip_addr subnet_mask)
        (λ h.
          after_check _ ts "SetPort: subnet mask not set" subnet_mask
            (set_port_gateway name ip_addr subnet_mask)
            (set_port_gateway-Acts ip_addr subnet_mask h))

module _ (env : Env) (ts : List Transition) where
  set_port-Acts :
      (i : Incoming String) (name : String)
      → IsValid i name
      → Ensures performed (set_port env name) (Acts (Wanted env (hub_set_port_subject i)) ts) ts
  set_port-Acts i name valid =
      on_hub _ ts (is_hub env)
        (do found ← query (search_ip_addr_and_mask name); set_port_addr name found)
        (λ hub. (set_port_addr-Acts env i name valid hub ts, λ e. refl))

  list_ports-Replied :
      (b : Bool)
      → Ensures performed
          (catch
            (do
              check_device_is_hub b
              cfg ← query config
              ports ← query all_ports
              ret (hub_ports cfg.port ports))
            (reply_with hub_ports_reply))
          (Replied (λ _. ⊥) ts)
          ts
  list_ports-Replied true =
      (λ cfg. (λ ports. refl, error_reply-Replied (λ _. ⊥) ts), error_reply-Replied (λ _. ⊥) ts)
  list_ports-Replied false = refl

  reply_to-Ensures :
      (r : QueueRequest) → Ensures performed (reply_to env r) (Replied (Wanted env r) ts) ts
  reply_to-Ensures (ztp_first_setup_subject i) =
      or_bad_request-Replied _ ts i
        (λ r. perform_and_reply (on_first_setup r.serial_number r.orchestrator_addrs))
        (λ r valid. perform_and_reply-Replied _ ts _ (r, valid, refl))
  reply_to-Ensures (ztp_set_port_subject i) =
      or_bad_request-Replied _ ts i
        (λ p. perform_and_reply (
          on_ztp_setup_config
            (record no_config { port = some (record { port_configs = p ∷ []; port_mtus = "" }) })))
        (λ p valid. perform_and_reply-Replied _ ts _ (p, valid, refl))
  reply_to-Ensures ztp_del_port_subject = perform_and_reply-Replied _ ts _ refl
  reply_to-Ensures dump_heap_subject = (λ d. refl, error_reply-Replied (λ _. ⊥) ts)
  reply_to-Ensures get_config_subject =
      (λ c. refl, error_reply-Replied (Wanted env get_config_subject) ts)
  reply_to-Ensures rebuild_services_subject = perform_and_reply-Replied _ ts _ refl
  reply_to-Ensures reset_subject = perform_and_reply-Replied _ ts _ refl
  reply_to-Ensures (hub_set_port_subject i) =
      or_bad_request-Replied _ ts i (λ name. or_internal_error (set_port env name))
        (λ name valid.
          or_internal_error-Replied _ ts (set_port env name) (set_port-Acts i name valid))
  reply_to-Ensures (hub_del_port_subject i) =
      or_bad_request-Replied _ ts i (λ name. or_internal_error (delete_port env name))
        (λ name valid. or_internal_error-Replied _ ts (delete_port env name) (
          on_hub _ ts (is_hub env) (call (perform (on_hub_delete_port name)))
            (λ hub. performs _ ts (on_hub_delete_port name) (name, valid, hub, refl))))
  reply_to-Ensures hub_list_ports_subject = list_ports-Replied (is_hub env)
  reply_to-Ensures (hub_init_subject i) =
      or_bad_request-Replied _ ts i
        (λ r. or_internal_error (init env r.serial_number r.orchestrator_addrs))
        (λ r valid. or_internal_error-Replied _ ts (init env r.serial_number r.orchestrator_addrs) (
          on_hub _ ts (is_hub env)
            (call (perform (on_first_setup r.serial_number r.orchestrator_addrs)))
            (λ hub.
              performs _ ts (on_first_setup r.serial_number r.orchestrator_addrs)
                (r, valid, hub, refl))))

module _ (env : Env) (s : Services) (laws : TransactionLaws s) where
  -- If the transactions follow their laws, then whatever the services answer to a message queue
  -- request, its handler returns the good reply exactly if the state service performed one transition
  -- for it, the one that the request asks for, and no transition succeeded with any other reply. Such a
  -- request is valid, and a request for a hub comes to a hub; the port that a hub is given has its
  -- name and an address, a mask and a gateway that are not empty. A handler with no reply panicked.
  pub reply_to-Replied :
      (r : QueueRequest) (ts : List Transition) (g : Agent)
      → Holds performed ts
          (Replied (Wanted env r) (view performed ts g.trace))
          (run s (reply_to env r) g)
  reply_to-Replied r ts g =
      run-Ensures performed ts s laws (reply_to env r)
        (Replied (Wanted env r) (view performed ts g.trace)) g
        (reply_to-Ensures env (view performed ts g.trace) r)
