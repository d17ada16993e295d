-- ===== src/StateService/Subjects/Entries.antt =====
-- Each handler leaves the subjects as the state that it reaches wants them.
use sdwan_agent.Prelude.{
  String, ◌≡◌, refl, sym, ap, ◌∙◌, subst, Bool, true, false, ◌||◌, Option, none, some, List, arith,
  if◌then◌else◌,
}
use sdwan_agent.Errors.{Error, Result, ok, err}
use sdwan_agent.Entities.{
  boot, init, active, update_config, maintenance, ztp_setup, reset, unknown, Transition,
  on_after_boot, on_first_setup, on_migrate_from_old_version, on_fallback,
  on_update_config_finished, on_update_device_finished, on_update_config, on_rebuild_services,
  on_update_device, on_reset, on_ztp_setup_finished, on_ztp_setup_interrupted, on_init_fallback,
  on_hub_reset_finished, on_ztp_setup_config, on_hub_set_port, on_hub_delete_port, to_state,
}
use sdwan_agent.Action.{Action, ret, tell, done, catch, error_of, ◌>>=◌, ◌>>◌}
use sdwan_agent.Action.Calls.{Subject, go_deactivate_starter}
use sdwan_agent.Handlers.Interface.{StateHandler, Env, is_hub, activate_each}
use sdwan_agent.Handlers.Init
use sdwan_agent.Handlers.Init.{init_subjects}
use sdwan_agent.Handlers.Active
use sdwan_agent.Handlers.Active.{active_subjects}
use sdwan_agent.Handlers.Maintenance
use sdwan_agent.Handlers.UpdateConfig
use sdwan_agent.Handlers.ZtpSetup
use sdwan_agent.Handlers.Reset
use sdwan_agent.Machine.Views.{Ensures}
use sdwan_agent.Machine.Rules.{Bind, Ensures-Bind, Ensures-catch, Ensures-if}
use sdwan_agent.Machine.Quiet.{
  member, switch, IsQuiet, Ensures-quiet, Ensures-quiet_bind, Ensures-activate_each,
}
use sdwan_agent.StateService.{find_handler}
use sdwan_agent.StateService.Wiring.{agent_handlers}
use sdwan_agent.StateService.Subjects.Parts
use sdwan_agent.StateService.Subjects.Expected.{switched_on, HandlePost}

or-false : (b : Bool) → b || false ≡ b
or-false b = ground arith

module _ (x : Subject) where
  abbrev Post : Transition → Result (Option Transition) → Bool → Type 0
  Post t = HandlePost t x

  -- A loop that switches on, and then a quiet part.
  activate_then :
      {A : Type 0} (ss : List Subject) (m : Action A) (Q : Result A → Bool → Type 0)
      → IsQuiet m
      → ((e : Error) (w : Bool) → Q (err e) w)
      → ((a : A) → Q (ok a) (member x ss))
      → Ensures (switch x) (activate_each ss >> m) Q false
  activate_then ss m Q quiet q h =
      Ensures-Bind (switch x) (activate_each ss) (λ _. m) Q false
        (Ensures-activate_each x ss (Bind (switch x) (λ _. m) Q) false q (
          Ensures-quiet x m Q (member x ss || false) quiet (elim [
            | ok a ↦ subst (λ w. Q (ok a) w) (sym (or-false (member x ss))) (h a)
            | err e ↦ q e _
          ])))

  -- A quiet part, and then a loop that switches on.
  quiet_then_activate :
      {A : Type 0} (m : Action A) (ss : List Subject) (Q : Result (Unit {0}) → Bool → Type 0)
      → IsQuiet m
      → ((e : Error) (w : Bool) → Q (err e) w)
      → Q (ok tt) (member x ss)
      → Ensures (switch x) (m >>= λ _. activate_each ss) Q false
  quiet_then_activate m ss Q quiet q h =
      Ensures-quiet_bind x m (λ _. activate_each ss) Q false quiet (λ e. q e false)
        (λ _. Ensures-activate_each x ss Q false q (rw (or-false (member x ss)) h))

  -- The handler of `t` returns no transition, or a fixed one, after `m`.
  abbrev Ending : Transition → Option Transition → Result (Unit {0}) → Bool → Type 0
  Ending t r = Bind (switch x) (λ _. ret r) (Post t)

  ends :
      (t : Transition) (r : Option Transition) (m : Action (Unit {0}))
      → Ensures (switch x) m (Ending t r) false
      → Ensures (switch x) (m >> ret r) (Post t) false
  ends t r m h = Ensures-Bind (switch x) m (λ _. ret r) (Post t) false h

  quiet_ends :
      (t : Transition) (r : Option Transition) (m : Action (Unit {0}))
      → IsQuiet m
      → Post t (ok r) false
      → Ensures (switch x) (m >> ret r) (Post t) false
  quiet_ends t r m quiet h =
      Ensures-quiet_bind x m (λ _. ret r) (Post t) false quiet (λ _. tt) (λ _. h)

  abbrev pub Handles : Transition → Option StateHandler → Type 0
  Handles t none = Unit
  Handles t (some h) = Ensures (switch x) (h.handle t) (Post t) false

  -- The end of a maintenance, from a quiet part.
  maintained :
      (t : Transition) (m : Action (Unit {0}))
      → to_state t ≡ maintenance
      → IsQuiet m
      → Ensures (switch x) (catch m Maintenance.report) (Post t) false
  maintained t m e quiet = Ensures-catch (switch x) m Maintenance.report (Post t) false (
      Ensures-quiet x m _ false quiet (λ r.
        Ensures-catch (switch x) (Maintenance.send_install_finished (error_of r)) _ (Post t) false (
          Ensures-quiet x (Maintenance.send_install_finished (error_of r)) _ false
            (Parts.send_install_finished-IsQuiet (error_of r))
            (λ _. sym (ap (λ a. switched_on a x) e)))))

  subscribes :
      (t : Transition) (ss : List Subject)
      → member x ss ≡ switched_on (to_state t) x
      → Ensures (switch x) (activate_each ss >> ret none) (Post t) false
  subscribes t ss e =
      ends t none (activate_each ss)
        (Ensures-activate_each x ss (Ending t none) false (λ _ _. tt) (or-false (member x ss) ∙ e))

  falls_back :
      (b : Bool)
      → Post (on_after_boot reset) (ok (some (if b then on_init_fallback else on_fallback))) false
  falls_back true = refl
  falls_back false = refl

  module _ (env : Env) where
    restores_init :
        (t : Transition)
        → to_state t ≡ init
        → Ensures (switch x) (Init.restore_init_state env >> ret none) (Post t) false
    restores_init t e = ends t none (Init.restore_init_state env) (
        activate_then init_subjects (Init.restore_daemons env) (Ending t none)
          (Parts.restore_daemons-IsQuiet env) (λ _ _. tt) (λ _. ap (λ a. switched_on a x) (sym e)))

    -- The active state is reached by a quiet part and its subscriptions.
    activates :
        (t : Transition) (m : Action (Unit {0}))
        → to_state t ≡ active
        → IsQuiet m
        → Ensures (switch x) (m >> Active.subscribe_queue_subjects >> ret none) (Post t) false
    activates t m e quiet = ends t none (m >> Active.subscribe_queue_subjects) (
        quiet_then_activate m active_subjects (Ending t none) quiet (λ _ _. tt)
          (ap (λ a. switched_on a x) (sym e)))

    first_setup_ends :
        (serial : String) (addresses : List String)
        → Ensures
            (switch x)
            (Active.run_first_setup env serial addresses >> ret none)
            (Post (on_first_setup serial addresses))
            false
    first_setup_ends serial addresses = ends t none (Active.run_first_setup env serial addresses) (
        Ensures-quiet_bind x (Active.check_first_setup env addresses) _ (Ending t none) false
          (Parts.check_first_setup-IsQuiet env addresses) (λ _. tt)
          (λ _.
            Ensures-quiet_bind x (Active.apply_first_setup env serial addresses) _ (Ending t none)
              false (Parts.apply_first_setup-IsQuiet env serial addresses) (λ _. tt)
              (λ _.
                activate_then active_subjects
                  (Active.unless_hub env (tell go_deactivate_starter done)) (Ending t none)
                  (Parts.unless_hub-IsQuiet env (tell go_deactivate_starter done) (tt, tt))
                  (λ _ _. tt) (λ _. refl))))
      where
        t : Transition
        t = on_first_setup serial addresses

    -- Each handler leaves the subjects as the reached state, or the next transition, expects them.
    pub handles : (t : Transition) → Handles t (find_handler (to_state t) (agent_handlers env))
    unfolding find_handler agent_handlers
    handles (on_after_boot boot) = refl
    handles (on_after_boot init) =
        Ensures-if (switch x) (Init.check_migrate_from_old_version env.device_id) _ _ _ false
          (λ _. refl) (λ _. restores_init (on_after_boot init) refl)
    handles (on_after_boot active) =
        activates (on_after_boot active) Active.restore_services refl Parts.restore_services-IsQuiet
    handles (on_after_boot update_config) = refl
    handles (on_after_boot maintenance) =
        maintained (on_after_boot maintenance) Maintenance.wait_install_finished_after_boot refl
          Parts.after_boot-IsQuiet
    handles (on_after_boot ztp_setup) = refl
    handles (on_after_boot reset) =
        Ensures-quiet_bind x Reset.was_init_state _ (Post (on_after_boot reset)) false
          (Parts.was_init_state-IsQuiet env) (λ _. tt) falls_back
    handles (on_after_boot (unknown u)) = tt
    handles (on_first_setup serial addresses) = first_setup_ends serial addresses
    handles (on_migrate_from_old_version serial address) =
        activates (on_migrate_from_old_version serial address)
          (Active.write_migration serial address) refl (Parts.migration-IsQuiet env serial address)
    handles on_fallback =
        activates on_fallback Active.restore_services refl Parts.restore_services-IsQuiet
    handles on_update_config_finished = subscribes on_update_config_finished active_subjects refl
    handles (on_update_device_finished e) = (((ground arith, λ _. tt), λ _. tt), λ _. tt)
    handles (on_update_config cfg) =
        quiet_ends (on_update_config cfg) (some on_update_config_finished)
          (UpdateConfig.update_config_from env cfg) (Parts.update_config_from-IsQuiet env cfg) refl
    handles on_rebuild_services =
        quiet_ends on_rebuild_services (some on_update_config_finished)
          UpdateConfig.rebuild_services (omega arith) refl
    handles (on_update_device request) =
        maintained (on_update_device request) (Maintenance.update_device request) refl
          (Parts.update_device-IsQuiet request)
    handles on_reset =
        Ensures-if (switch x) (is_hub env) _ _ _ false
          (λ _.
            quiet_ends on_reset (some on_hub_reset_finished) (Reset.reset_hub env)
              (Parts.reset_hub-IsQuiet env) refl)
          (λ _.
            quiet_ends on_reset none (Reset.reset_device env) (Parts.reset_device-IsQuiet env) refl)
    handles on_ztp_setup_finished = subscribes on_ztp_setup_finished init_subjects refl
    handles on_ztp_setup_interrupted = restores_init on_ztp_setup_interrupted refl
    handles on_init_fallback = restores_init on_init_fallback refl
    handles on_hub_reset_finished = subscribes on_hub_reset_finished init_subjects refl
    handles (on_ztp_setup_config cfg) =
        quiet_ends (on_ztp_setup_config cfg) (some on_ztp_setup_finished)
          (ZtpSetup.setup_ztp_config cfg) (omega arith) refl
    handles (on_hub_set_port port) =
        quiet_ends (on_hub_set_port port) (some on_ztp_setup_finished)
          (ZtpSetup.set_hub_port env port) (Parts.set_hub_port-IsQuiet env port) refl
    handles (on_hub_delete_port name) =
        quiet_ends (on_hub_delete_port name) (some on_ztp_setup_finished) ZtpSetup.delete_hub_port
          (omega arith) refl
