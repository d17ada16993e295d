-- ===== src/DeviceInit/Silent.antt =====
-- `InitDevice` of internal/domains/deviceinit sends no reply to the request that starts it.
use sdwan_agent.Prelude.{
  ℕ, zero, suc, Bool, true, false, ◌||◌, Option, none, some, List, [], ◌∷◌, ◌==◌, refl,
  if◌then◌else◌,
}
use sdwan_agent.Config.{AppSection, PonySection, Cluster}
use sdwan_agent.Entities.{same, active}
use sdwan_agent.Errors.{Error, Result, ok, err, is_panic, reason}
use sdwan_agent.Action.{Action, ret, fail, ask, tell, done, lift, call, ◌>>◌}
use sdwan_agent.Action.Calls.{pony_resume, emit_finished, update_config, is_initializing}
use sdwan_agent.Handlers.Interface.{Env, is_cpe, is_hub}
use sdwan_agent.DeviceInit.{
  InitConfig, InitState, app_of, service_config, check_hub_tunnels, check_tunnels, check_connection,
  check_websocket_connection, set_up, set_up_app, check_and_install, wake_first_init,
  deferred_error, set_up_paused, set_up_announced, cleared, init_unless, finish, init_device,
  init_in,
}
use sdwan_agent.DeviceInit.Handler.{
  give_up, on_response, send_init_device_finished, report, init_and_report, check_and_respond,
}
use sdwan_agent.Requests.Replies.{
  Sent, Silent, Silent-bind, Silent-catch, Silent-lift, Silent-if, replies, Replies,
  respond_and-Replies,
}
use sdwan_agent.Objects.Bodies.{empty_body}
use sdwan_agent.Machine.Rules.{Ensures-if}
use sdwan_agent.Requests.{respond_and}
use sdwan_agent.Machine.Views.{Ensures}

check_websocket_connection-Silent : (attempts : ℕ) → Silent (check_websocket_connection attempts)
check_websocket_connection-Silent zero n = refl
check_websocket_connection-Silent (suc attempts) n = elim [
  | true ↦ refl
  | false ↦ check_websocket_connection-Silent attempts n
]

check_hub_tunnels-Silent : (cs : List Cluster) → Silent (check_hub_tunnels cs)
check_hub_tunnels-Silent [] n = refl
check_hub_tunnels-Silent (c ∷ _) n = elim [ true ↦ refl | false ↦ refl ]

check_tunnels-Silent : (b : Bool) (pony : PonySection) → Silent (check_tunnels b pony)
check_tunnels-Silent true pony n = check_hub_tunnels-Silent pony.clusters n
check_tunnels-Silent false pony n = refl

check_connection-Silent : (b : Bool) → Silent (check_connection b)
check_connection-Silent true n = check_websocket_connection-Silent 10 n
check_connection-Silent false n = refl

on_response-Silent :
    (retry : Error → Action (Unit {0}))
    → ((e : Error) → Silent (retry e))
    → (r : Result (Option (ℕ × Error))) → Silent (on_response retry r)
on_response-Silent retry h (ok none) n = refl
on_response-Silent retry h (ok (some (status, e))) n =
    Silent-if (status == 503) (retry e) (give_up e) (h e) (λ n'. refl) n
on_response-Silent retry h (err e) n = h e n

send_finished-Silent :
    (o : Option Error) (attempts : ℕ) → Silent (send_init_device_finished o attempts)
send_finished-Silent o zero n = (λ x. on_response-Silent give_up (λ e n'. refl) (ok x) n, λ e. refl)
send_finished-Silent o (suc attempts) n = (
  λ x.
      on_response-Silent (λ _. send_init_device_finished o attempts)
        (λ e. send_finished-Silent o attempts) (ok x) n,
  λ e. send_finished-Silent o attempts n,
)

module _ (env : Env) (init : InitConfig) where
  check_and_install-Silent : Silent (check_and_install env init)
  check_and_install-Silent =
      Silent-bind (check_tunnels (is_cpe env) init.pony)
        (λ _. do
          check_connection (is_cpe env || is_hub env)
          call (update_config (service_config init.services)))
        (check_tunnels-Silent (is_cpe env) init.pony)
        (λ _.
          Silent-bind (check_connection (is_cpe env || is_hub env))
            (λ _. call (update_config (service_config init.services)))
            (check_connection-Silent (is_cpe env || is_hub env)) (λ _ n. (refl, λ e. refl)))

  set_up_app-Silent : (app : AppSection) → Silent (set_up_app env init app)
  set_up_app-Silent app n =
      (((((check_and_install-Silent n, λ e. refl), λ e. refl), λ e. refl), λ e. refl), λ e. refl)

  set_up-Silent : Silent (set_up env init)
  set_up-Silent n = (
    λ old.
        Silent-bind (lift (app_of old)) (set_up_app env init) (Silent-lift (app_of old))
          set_up_app-Silent n,
    λ e. refl,
  )

  set_up_paused-Silent : Silent (set_up_paused env init)
  set_up_paused-Silent =
      Silent-catch (set_up env init) (λ r. tell pony_resume (lift r)) set_up-Silent Silent-lift

  set_up_announced-Silent : Silent (set_up_announced env init)
  set_up_announced-Silent =
      Silent-catch (set_up_paused env init) (λ r. tell (emit_finished (deferred_error r)) (lift r))
        set_up_paused-Silent Silent-lift

  cleared-Silent : (st : InitState) (r : Result (Unit {0})) → Silent (cleared env init st r)
  cleared-Silent st (ok _) n = refl
  cleared-Silent st (err e) n =
      Silent-if (is_panic e) (fail e) (ret (some e, record st { initializing = false }))
        (λ n'. refl) (λ n'. refl) n

  init_unless-Silent : (b : Bool) (st : InitState) → Silent (init_unless env init b st)
  init_unless-Silent true st n = refl
  init_unless-Silent false st n =
      Silent-catch (set_up_announced env init) (cleared env init st) set_up_announced-Silent
        (cleared-Silent st) n

  wake_first_init-Silent :
      (r : Result (Option Error × InitState)) → Silent (wake_first_init env init r)
  wake_first_init-Silent (ok (e, st)) n = (refl, λ e'. refl)
  wake_first_init-Silent (err e) n = (refl, λ e'. refl)

  finish-Silent : (r : Result (Option Error × InitState)) → Silent (finish env init r)
  finish-Silent (ok (e, st)) n = λ e'. refl
  finish-Silent (err e) n = λ e'. refl

  init_in-Silent : (b : Bool) (st : InitState) → Silent (init_in env init b st)
  init_in-Silent true st n =
      Silent-catch (init_unless env init st.initializing st) (wake_first_init env init)
        (init_unless-Silent st.initializing st) wake_first_init-Silent n
  init_in-Silent false st n = (
    Silent-catch (init_unless env init st.initializing st) (finish env init)
        (init_unless-Silent st.initializing st) finish-Silent n,
    λ e. refl,
  )

  init_and_report-Silent : (st : InitState) → Silent (init_and_report env st init)
  init_and_report-Silent st =
      Silent-bind (init_device env init st) report (init_in-Silent st.first_init st) (λ r.
        Silent-catch (send_init_device_finished r.0 4) (λ _. done) (send_finished-Silent r.0 4)
          (λ _ n. refl))

module _ (env : Env) (st : InitState) (init : InitConfig) (n : Sent) where
  initializing_cases :
      Ensures replies
        (ask is_initializing (λ initializing.
          if initializing
          then fail (reason "InitDevice: device already initializing")
          else respond_and empty_body (init_and_report env st init)))
        (Replies n)
        n
  initializing_cases = elim [
    | true ↦ refl
    | false ↦
        respond_and-Replies empty_body (init_and_report env st init) n
          (init_and_report-Silent env init st)
  ]

  pub check_and_respond-Replies : Ensures replies (check_and_respond env st init) (Replies n) n
  check_and_respond-Replies state =
      Ensures-if replies (same state active) _ _ (Replies n) n (λ _. initializing_cases) (λ _. refl)
