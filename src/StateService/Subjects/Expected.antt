-- ===== src/StateService/Subjects/Expected.antt =====
-- Which message queue subjects a state wants switched on.
use sdwan_agent.Prelude.{◌≡◌, Bool, false, Option, none, some}
use sdwan_agent.Errors.{Result, ok, err}
use sdwan_agent.Entities.{AppState, init, active, Transition, on_migrate_from_old_version, to_state}
use sdwan_agent.Action.Calls.{Subject}
use sdwan_agent.Handlers.Init.{init_subjects}
use sdwan_agent.Handlers.Active.{active_subjects}
use sdwan_agent.Machine.Quiet.{member}

-- The subjects of a state.
abbrev pub switched_on : AppState → Subject → Bool
switched_on init x = member x init_subjects
switched_on active x = member x active_subjects
switched_on _ x = false

-- Before a transition: the migration comes from an init state that was not set up.
abbrev pub expected : Transition → AppState → Subject → Bool
expected (on_migrate_from_old_version _ _) a x = false
expected _ a x = switched_on a x

-- What a handler of `t` that ran with all subjects off leaves behind.
abbrev pub HandlePost : Transition → Subject → Result (Option Transition) → Bool → Type 0
HandlePost t x (err e) b = Unit
HandlePost t x (ok none) b = b ≡ switched_on (to_state t) x
HandlePost t x (ok (some t')) b = b ≡ expected t' (to_state t) x
