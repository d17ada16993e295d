-- ===== src/Hostname.antt =====
-- internal/domains/hostname/service.go: the device's hostname.
use sdwan_agent.Prelude.{String, List, [], ◌∷◌, is_blank, if◌then◌else◌}
use sdwan_agent.Errors.{reason}
use sdwan_agent.Action.{Action, fail, call, query, ◌>>=◌}
use sdwan_agent.Action.Calls.{Piece, text, run_command, exec_text_activity, hostname_output}

abbrev pub hostname_command : String → String → List Piece
hostname_command cli_ext hostname = text cli_ext ∷ text " hostname set " ∷ text hostname ∷ []

-- `UpdateHostname`, with `strings.TrimSpace`.
abbrev pub update_hostname : (String → String) → String → String → Action (Unit {0})
update_hostname trim_space cli_ext hostname =
    if is_blank (trim_space hostname)
    then fail (reason "UpdateHostname: hostname is empty")
    else call (run_command (hostname_command cli_ext hostname))

-- `GetHostname`.
abbrev pub get_hostname : Action String
get_hostname = query hostname_output

-- `UpdateHostnameWithTx`: the undo command sets the hostname from before.
abbrev pub update_hostname_with_tx : String → String → Action (Unit {0})
update_hostname_with_tx cli_ext hostname = do
  previous ← get_hostname
  call (exec_text_activity (hostname_command cli_ext hostname) (hostname_command cli_ext previous))
