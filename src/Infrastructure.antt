-- ===== src/Infrastructure.antt =====
-- infrastructure/services.go and infrastructure/injector.go: the services are constructed when they
-- are first injected, each under a `sync.Once`. `Injections` lists what each function injects, and
-- `Handlers` what the handlers are given; `Places`, `Distinct` and `Constructed` are about the order of
-- construction.
pub mod Injections
pub mod Handlers
pub mod Places
pub mod Distinct
pub mod Constructed
use sdwan_agent.Prelude.{ℕ, zero, suc, Bool, ◌==◌, List, [], ◌∷◌, ◌||◌, false, if◌then◌else◌}
use Injections.{Service, place, injects}

unfoldable pub same_variable : Service → Service → Bool
same_variable s t = place s == place t

unfoldable pub holds : Service → List Service → Bool
holds s [] = false
holds s (t ∷ ts) = same_variable s t || holds s ts

-- The state of the variables and their `Once` values: the services that are constructed, the last
-- first, and those whose function runs.
pub record Kernel : Type 0 where
  pub built : List Service
  pub running : List Service

-- A call of `Do` from within the function of the same_variable `Once` blocks for ever.
pub data Injected : Type 0 where
  injected : Kernel → Injected
  deadlocked out_of_fuel : Injected

abbrev pub enter_once : Service → Kernel → Kernel
enter_once s k = record k { running = s ∷ k.running }

abbrev pub leave_once : Service → List Service → Injected → Injected
leave_once s running (injected k) = injected (record { built = s ∷ k.built; running = running })
leave_once s running deadlocked = deadlocked
leave_once s running out_of_fuel = out_of_fuel

abbrev pub and_then : Injected → (Kernel → Injected) → Injected
and_then (injected k) f = f k
and_then deadlocked f = deadlocked
and_then out_of_fuel f = out_of_fuel

-- Injections in turn, by the function for one.
abbrev pub inject_each :
    (inject_one : Service → Kernel → Injected) → List Service → Kernel → Injected
inject_each inject_one [] k = injected k
inject_each inject_one (s ∷ ss) k = and_then (inject_one s k) (λ k'. inject_each inject_one ss k')

-- The function of a service: `Do` of its `Once` with the construction, for `n` calls deep.
unfoldable pub inject : ℕ → Service → Kernel → Injected
inject zero s k = out_of_fuel
inject (suc n) s k =
    let constructed =
      leave_once s k.running (inject_each (λ d k'. inject n d k') (injects s) (enter_once s k)) in
    if holds s k.built then injected k else if holds s k.running then deadlocked else constructed
