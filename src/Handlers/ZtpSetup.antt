-- ===== src/Handlers/ZtpSetup.antt =====
-- internal/domains/appstate/handlers/ztp_setup.go: ports are set up before the first start.
use sdwan_agent.Prelude.{
  String, ℕ, Option, none, some, List, [], ◌∷◌, ◌++◌, is_blank, if◌then◌else◌,
}
use sdwan_agent.Config.{Section, Config, PortConfig, no_config, empty_port_section}
use sdwan_agent.Errors.{
  Error, Result, err, map_result, nil_dereference, invalid_transition_type,
  transition_not_supported,
}
use sdwan_agent.Entities.{
  AppState, Transition, boot, init, ztp_setup, on_after_boot, on_ztp_setup_config, on_hub_set_port,
  on_hub_delete_port, on_ztp_setup_finished, on_ztp_setup_interrupted,
}
use sdwan_agent.Action.{Action, ret, fail, done, call, query, lift, ◌>>=◌, ◌>>◌}
use sdwan_agent.Action.Calls.{
  update_config, update_config_skip_generators, save_section, port_section, append_command, Piece,
  text, number,
}
use sdwan_agent.Handlers.Interface.{StateHandler, Env}

-- `ValidateTransition`.
abbrev pub validate_transition : AppState → Option Error
validate_transition init = none
validate_transition boot = none
validate_transition _ = some transition_not_supported

-- `setupZTPConfig`.
abbrev pub setup_ztp_config : Config → Action (Unit {0})
setup_ztp_config new = call (update_config new)

-- `deleteHubPort`.
abbrev pub delete_hub_port : Action (Unit {0})
delete_hub_port = do
  old ← query port_section
  call (update_config_skip_generators (record no_config { port = some empty_port_section }))
  call (save_section [] old)

-- The loop over the table ids, and the optional DNS server.
unfoldable pub table_flags : List ℕ → List Piece
table_flags [] = []
table_flags (t ∷ ts) = text " -t " ∷ number t ∷ table_flags ts

abbrev pub dns_flag : String → List Piece
dns_flag dns = if is_blank dns then [] else text " -d " ∷ text dns ∷ []

module _ (env : Env) where
  -- `buildStaticAddCommand`, as the pieces that the builder is given.
  unfoldable pub build_static_add_command :
      String → String → String → String → String → List ℕ → Result (List Piece)
  unfolding table_flags
  build_static_add_command port_name ip_addr subnet_mask gateway dns table_ids =
      map_result
        (λ mask.
          text env.cli_ext
          ∷ text " port static add -n "
          ∷ text port_name
          ∷ text " -i "
          ∷ text ip_addr
          ∷ text "/"
          ∷ number mask
          ∷ text " -g "
          ∷ text gateway
          ∷ (table_flags table_ids ++ dns_flag dns))
        (env.ip_mask_to_int subnet_mask)

  -- The command of `setHubPort`, for table 100. The source follows the pointer to the WAN settings
  -- unchecked.
  abbrev pub port_command : PortConfig → Result (List Piece)
  port_command port = elim port.wan [
    | none ↦ err nil_dereference
    | some wan ↦
        build_static_add_command port.name wan.ip_addr wan.subnet_mask wan.gateway wan.dns
          (100 ∷ [])
  ]

  -- The end of `setHubPort`: a section of that one command replaces the old one.
  abbrev pub save_port_section : Section → List Piece → Action (Unit {0})
  save_port_section old command = do
    new ← query (append_command command)
    call (save_section new old)

  -- `setHubPort`.
  abbrev pub set_hub_port : PortConfig → Action (Unit {0})
  set_hub_port port = do
    old ← query port_section
    call (
        update_config_skip_generators
          (record no_config { port = some (record { port_configs = port ∷ []; port_mtus = "" }) }))
    command ← lift (port_command port)
    save_port_section old command

  -- `Handle`.
  abbrev pub handle : Transition → Action (Option Transition)
  handle (on_after_boot _) = ret (some on_ztp_setup_interrupted)
  handle (on_ztp_setup_config new) = do setup_ztp_config new; ret (some on_ztp_setup_finished)
  handle (on_hub_set_port port) = do set_hub_port port; ret (some on_ztp_setup_finished)
  handle (on_hub_delete_port _) = do delete_hub_port; ret (some on_ztp_setup_finished)
  handle _ = fail invalid_transition_type

  abbrev pub on_exit : Transition → Action (Unit {0})
  on_exit _ = done

  abbrev pub ztp_setup_handler : StateHandler
  ztp_setup_handler = record {
    state_id = ztp_setup;
    validate_transition = validate_transition;
    handle = handle;
    on_exit = on_exit;
  }
