-- ===== src/Connection/Follows.antt =====
-- The monitoring of internal/domains/discovery/monitoring/service.go with the choice of the primary
-- of internal/domains/discovery/service.go.
use sdwan_agent.Prelude.{
  ◌≡◌, refl, sym, ap, ◌∙◌, subst, String, ℕ, suc, ◌≤◌, Bool, true, false, not, ◌&&◌, Option, none,
  some, List, [], ◌∷◌, length, is_empty, is_blank, str_eq, All, arith, if◌then◌else◌,
}
use sdwan_agent.Config.{Config, AppSection}
use sdwan_agent.Errors.{Error, Result, ok}
use sdwan_agent.Action.{ask, done}
use sdwan_agent.Action.Calls.{
  config, fetch_primary_of, discovery_hosts, publisher_active, publisher_reconnect,
}
use sdwan_agent.Discovery.{Pool, PoolLaws, fetch_primary}
use sdwan_agent.Discovery.Primary.{claimants, fetch_primary_unique}
use sdwan_agent.Machine.{Agent, Services, Event, did, asked, log, run}
use sdwan_agent.Machine.Views.{view}
use sdwan_agent.Connection.{monitor, on_primary, reconnect_if}

-- The reconnections.
abbrev pub reconnections : Event → ℕ → ℕ
reconnections (did publisher_reconnect _) n = suc n
reconnections _ n = n

-- The services of a device that is connected to `app.active_orchestrator_addr`: what they answer.
pub record Connected (check : String → Result Bool) (wait : Pool) (s : Services) : Type 0 where
  pub cfg : Config
  pub app : AppSection
  pub hosts : List String
  pub up : Bool
  pub config_lem : (tr : List Event) → s.fetch tr config ≡ ok cfg
  pub app_lem : cfg.app ≡ some app
  pub active_lem : is_blank app.active_orchestrator_addr ≡ false
  pub hosts_lem : (tr : List Event) → s.ask tr discovery_hosts ≡ hosts
  pub up_lem : (tr : List Event) → s.ask tr publisher_active ≡ up
  -- the discovery service answers
  pub primary_lem :
      (tr : List Event)
      → (fetch_primary check wait hosts hosts).1 ≡ some (s.ask tr (fetch_primary_of hosts))

abbrev pub one_more_if : Bool → ℕ → ℕ
one_more_if b n = if b then suc n else n

not_empty : (hs : List String) → 1 ≤ length hs → is_empty hs ≡ false
not_empty [] h = absurd (omega arith)
not_empty (x ∷ xs) h = refl

module _ (check : String → Result Bool) (wait : Pool) (laws : PoolLaws wait) (s : Services)
    (c : Connected check wait s) (h : String) (n : 1 ≤ length c.hosts)
    (b : All (λ x. is_blank x ≡ false) c.hosts)
    (one : claimants check wait laws c.hosts ≡ h ∷ []) where
  answer_or : Option (String × Option Error) → String × Option Error
  answer_or none = (h, none)
  answer_or (some a) = a

  found : (tr : List Event) → s.ask tr (fetch_primary_of c.hosts) ≡ (h, none)
  unfolding answer_or
  found tr =
      sym (ap answer_or (c.primary_lem tr))
      ∙ ap answer_or (fetch_primary_unique check wait laws c.hosts c.hosts h n b one)

  module _ (k : ℕ) where
    abbrev Counted : Bool → Agent → Agent → Type 0
    Counted b g g' = view reconnections k g'.trace ≡ one_more_if b (view reconnections k g.trace)

    reconnects : (up : Bool) (g : Agent) → Counted up g (run s (reconnect_if up) g).1
    unfolding run
    reconnects true g = refl
    reconnects false g = refl

    decides :
        (same : Bool) (g : Agent)
        → Counted
            (not same && c.up)
            g
            (run s (if same then done else ask publisher_active reconnect_if) g).1
    unfolding run
    decides true g = refl
    decides false g = rw (run, c.up_lem g.trace) (reconnects c.up (log (asked publisher_active) g))

    -- The agent after the questions of a tick.
    abbrev asked_hosts : Agent → Agent
    asked_hosts g = log (asked discovery_hosts) (log (asked config) g)

    abbrev asked_all : Agent → Agent
    asked_all g = log (asked (fetch_primary_of c.hosts)) (asked_hosts g)

    -- If the device has stored the address that it is connected to, the pool of the discovery service
    -- hands on its tasks' results in some order, and the kept hosts are not empty, none of them is an
    -- empty text and exactly one says that it is the primary, then a tick of the monitoring
    -- reconnects once if that host is another than the stored one and the connection is up, and
    -- otherwise not at all.
    pub monitor-Follows :
        (g : Agent)
        → Counted (not (str_eq h c.app.active_orchestrator_addr) && c.up) g (run s monitor g).1
    unfolding run
    monitor-Follows g =
        rw (run, c.config_lem g.trace)
          (rw (run, c.app_lem)
            (rw (run, c.active_lem)
              (rw (run, c.hosts_lem (log (asked config) g).trace)
                (rw (run, not_empty c.hosts n)
                  (subst
                    (λ a.
                      Counted (not (str_eq h c.app.active_orchestrator_addr) && c.up) g
                        (run s (on_primary c.app.active_orchestrator_addr a) (asked_all g)).1)
                    (sym (found (asked_hosts g).trace))
                    (decides (str_eq h c.app.active_orchestrator_addr) (asked_all g)))))))
