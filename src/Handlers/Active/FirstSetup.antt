-- ===== src/Handlers/Active/FirstSetup.antt =====
-- A first setup while an earlier one is still waited for (`WaitFirstInit` in
-- internal/domains/deviceinit/service.go and the `select` in `runFirstSetup` of active.go).
use sdwan_agent.Prelude.{◌≡◌, String, Bool, true, false, List, not, contains_by, if◌then◌else◌}
use sdwan_agent.Errors.{Error}
use sdwan_agent.Entities.{on_first_setup}
use sdwan_agent.Action.{Action, fail, ◌>>=◌}
use sdwan_agent.Handlers.Interface.{Env}
use sdwan_agent.Handlers.Active.{handle, no_wan_port, has_schema}
use sdwan_agent.Machine.{Agent, Services, run}
use sdwan_agent.Machine.Laws.{TransactionLaws}
use sdwan_agent.Machine.FirstInit.{IsBlocked, Fails, run-IsBlocked}

IsBlocked-unless :
    {A B C : Type 0} (b : Bool) (e : Error) (m : Action A) (f : A → Action B) (f' : B → Action C)
    → IsBlocked ((m >>= f) >>= f')
    → IsBlocked (((if b then fail e else m) >>= f) >>= f')
IsBlocked-unless true e m f f' h = tt
IsBlocked-unless false e m f f' h = h

module _ (s : Services) (laws : TransactionLaws s) (env : Env) where
  -- If the transactions follow their laws, then a first setup that runs while the device
  -- initialisation of an earlier one is still registered as waited for always fails, whatever the
  -- services answer, and the registration stays.
  pub first_setup-Fails :
      (serial : String) (addresses : List String) (g : Agent)
      → g.first_init_waiting ≡ true
      → Fails (run s (handle env (on_first_setup serial addresses)) g)
  first_setup-Fails serial addresses g w =
      run-IsBlocked s laws (handle env (on_first_setup serial addresses)) g w (
        λ cfg. IsBlocked-unless (no_wan_port cfg.port) _ _ _ _ (
            IsBlocked-unless (contains_by (λ a. not (has_schema a)) addresses) _ _ _ _
              ((((tt, λ _. tt), λ _. tt), λ _. tt), λ _. tt)),
        λ _. tt,
      )
