-- ===== src/Handlers/Interface.antt =====
-- The interface of a state handler, the handlers' environment, and the loops over message queue
-- subjects that two of them share.
use sdwan_agent.Prelude.{String, Bool, Option, ℕ, List, [], ◌∷◌, str_eq}
use sdwan_agent.Config.{Config, PortSection, AppSection, Section}
use sdwan_agent.Errors.{Error, Result}
use sdwan_agent.Entities.{AppState, Transition}
use sdwan_agent.Action.{Action, ◌>>◌, done, execute_func}
use sdwan_agent.Action.Calls.{Subject, activate_handler, deactivate_handler}

-- `IStateHandler` of internal/domains/appstate/service.go. `Handle` returns the transition to go
-- on with, if any.
pub record StateHandler : Type 0 where
  pub state_id : AppState
  pub validate_transition : AppState → Option Error
  pub handle : Transition → Action (Option Transition)
  pub on_exit : Transition → Action (Unit {0})

-- The values of internal/environment, and the pure functions of the libraries.
pub record Env : Type 0 where
  pub device_type : String
  pub device_id : String
  pub end_point : String
  pub cli_ext : String
  -- `config.EmptyConfig()` and the sections' `Compare`
  pub empty_config : Config
  pub port_compare : Option PortSection → PortSection → Bool
  pub admin_state_compare : Option Section → Section → Bool
  pub app_compare : Option AppSection → AppSection → Bool
  -- `netutils.ConvertIPMaskToInt`
  pub ip_mask_to_int : String → Result ℕ

-- `deviceType == constants.DeviceTypeHub` and `DeviceTypeCPE`
abbrev pub is_hub : Env → Bool
is_hub env = str_eq env.device_type "hub"

abbrev pub is_cpe : Env → Bool
is_cpe env = str_eq env.device_type "cpe"

-- The loops of `subscribeQueueSubjects` and `unsubscribeQueueSubjects`.
abbrev pub activate_each : List Subject → Action (Unit {0})
activate_each [] = done
activate_each (s ∷ ss) = do
  execute_func (activate_handler s) (deactivate_handler s)
  activate_each ss

abbrev pub deactivate_each : List Subject → Action (Unit {0})
deactivate_each [] = done
deactivate_each (s ∷ ss) = do
  execute_func (deactivate_handler s) (activate_handler s)
  deactivate_each ss
