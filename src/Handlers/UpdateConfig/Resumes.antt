-- ===== src/Handlers/UpdateConfig/Resumes.antt =====
-- The pony service's pause round a change of ports (`updateConfig` of update_config.go).
use sdwan_agent.Prelude.{◌≡◌, refl, Bool, true, false, Option, none, some, [], ◌∷◌}
use sdwan_agent.Config.{Config, PonySection}
use sdwan_agent.Errors.{Result, ok, err}
use sdwan_agent.Action.{lift, ◌>>◌}
use sdwan_agent.Action.Calls.{pony_pause, pony_resume}
use sdwan_agent.Handlers.Interface.{Env, is_cpe}
use sdwan_agent.Handlers.UpdateConfig.{
  pause_if, write_or_resume, sync_hosts_if, resume_if, check_tunnels_if, update_config_from,
  is_port_configuration_changed, changed, start_logged, check_clusters,
}
use sdwan_agent.Machine.{Agent, Services, Event, did, run}
use sdwan_agent.Machine.Laws.{TransactionLaws}
use sdwan_agent.Machine.Views.{Ensures, view, run-Ensures}
use sdwan_agent.Machine.Rules.{Ensures-catch}

-- Whether the pony service is paused.
abbrev pub pauses : Event → Bool → Bool
pauses (did pony_pause _) b = true
pauses (did pony_resume _) b = false
pauses _ b = b

abbrev Resumed : Result (Unit {0}) → Bool → Type 0
Resumed r b = b ≡ false

start_logged-Resumed : Ensures pauses start_logged Resumed false
start_logged-Resumed true = refl
start_logged-Resumed false = refl

module _ (env : Env) where
  synced :
      (c : Bool) (new : Config) (ports_changed b : Bool)
      → Ensures pauses (resume_if env ports_changed new) Resumed b
      → Ensures pauses (sync_hosts_if env c >> resume_if env ports_changed new) Resumed b
  synced true new ports_changed b h = (h, λ e. h)
  synced false new ports_changed b h = h

  checked :
      (b : Bool) (pony : Option PonySection) (Q : Result (Unit {0}) → Bool → Type 0)
      → ((r : Result (Unit {0})) → Q r false)
      → Ensures pauses (check_tunnels_if env b pony) Q false
  checked false pony Q h = h _
  checked true none Q h = h _
  checked true (some pony) Q h =
      elim pony.clusters as (λ cs. Ensures pauses (check_clusters cs) Q false) [
        | [] ↦ h _
        | c ∷ cs ↦ elim [ true ↦ h _ | false ↦ h _ ]
      ]

  started_again : (r : Result (Unit {0})) → Ensures pauses (do start_logged; lift r) Resumed false
  started_again (ok r) = elim [ true ↦ refl | false ↦ refl ]
  started_again (err e) = elim [ true ↦ refl | false ↦ refl ]

  resumed : (new : Config) → Ensures pauses (resume_if env true new) Resumed true
  resumed new =
      Ensures-catch pauses (check_tunnels_if env (is_cpe env) new.pony) _ Resumed false
        (checked (is_cpe env) new.pony _ started_again)

  written :
      (c : Bool) (new : Config)
      → Ensures pauses
          (write_or_resume env true new >> (sync_hosts_if env c >> resume_if env true new))
          Resumed
          true
  written c new = (synced c new true true (resumed new), λ e. elim [ true ↦ refl | false ↦ refl ])

  steps :
      (c ports_changed : Bool) (new : Config)
      → Ensures pauses
          (pause_if env ports_changed
            >> (write_or_resume env ports_changed new
                >> (sync_hosts_if env c >> resume_if env ports_changed new)))
          Resumed
          false
  steps c false new = (synced c new false false refl, λ e. refl)
  steps c true new = elim [ true ↦ written c new | false ↦ written c new ]

  module _ (s : Services) (laws : TransactionLaws s) where
    -- If the transactions follow their laws and the pony service is not paused before, it is not
    -- paused after a configuration update, on every path through it, errors included.
    pub update_config_from-Resumed :
        (new : Config) (g : Agent)
        → view pauses false g.trace ≡ false
        → view pauses false (run s (update_config_from env new) g).1.trace ≡ false
    update_config_from-Resumed new g h =
        run-Ensures pauses false s laws (update_config_from env new) Resumed g (
          rw h (
            λ old.
                steps (changed env.app_compare old.app new.app)
                  (is_port_configuration_changed env old new) new,
            λ e. refl,
          ))
