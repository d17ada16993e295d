-- ===== src/Grafana.antt =====
-- internal/domains/grafana/service.go: the configuration file of the grafana agent. The two addresses
-- that are printed from the server's one and a port are given as texts.
use sdwan_agent.Prelude.{
  ◌≡◌, refl, String, ℕ, Bool, true, false, Option, none, some, List, [], ◌∷◌, ◌&&◌, str_eq,
  if◌then◌else◌,
}
use sdwan_agent.Errors.{Result, ok, err, reason}
use sdwan_agent.Action.{Action, fail, attempt, done, call, query, ◌>>=◌, ◌>>◌}
use sdwan_agent.Action.Calls.{
  make_config_dir, write_config, config_dir_exists, stat_config, read_config, render_config,
  run_command, Piece, text, number,
}
use sdwan_agent.Machine.{Agent, Services, Event, did, run}
use sdwan_agent.Machine.Laws.{TransactionLaws}
use sdwan_agent.Machine.Views.{Ensures, Holds, view, run-Ensures}

-- `restartGrafanaService`.
abbrev pub restart_grafana_service : Action (Unit {0})
restart_grafana_service = do
  call (run_command (text "systemctl" ∷ text "daemon-reload" ∷ []))
  call (run_command (text "systemctl" ∷ text "restart" ∷ text "grafana-agent-flow" ∷ []))

-- A write that fails over an old file returns an error without its cause: the source wraps another
-- variable, which is nil.
abbrev pub overwrite : String → ℕ → Action (Unit {0})
overwrite content perm =
    attempt (write_config content perm) (elim [
      | none ↦ restart_grafana_service
      | some e ↦ fail (reason "ConfigureAgent: %!w(<nil>)")
    ])

abbrev pub compare_and_write : String → ℕ → String → Action (Unit {0})
compare_and_write content perm old = if str_eq old content then done else overwrite content perm

-- The file is created with `constants.FilePerm`, or compared.
abbrev pub write_content : String → Option ℕ → Action (Unit {0})
write_content content none = do call (write_config content 493); restart_grafana_service
write_content content (some perm) = do old ← query read_config; compare_and_write content perm old

abbrev pub make_dir_unless : Bool → Action (Unit {0})
make_dir_unless true = done
make_dir_unless false = call make_config_dir

-- `ConfigureAgent` after the folder is there, and as a whole.
abbrev pub write_rendered : String → String → Action (Unit {0})
write_rendered mimir loki = do
  content ← query (render_config mimir loki)
  found ← query stat_config
  write_content content found

abbrev pub configure_agent : String → String → Action (Unit {0})
configure_agent mimir loki = do
  exists ← query config_dir_exists
  make_dir_unless exists
  write_rendered mimir loki

-- Was the file written, were the units loaded again after that, and was the agent restarted after both.
pub record Progress : Type 0 where
  pub written : Bool
  pub reloaded : Bool
  pub restarted : Bool

-- The command `systemctl restart grafana-agent-flow`, and `systemctl daemon-reload`.
abbrev pub is_text : String → Piece → Bool
is_text t (text u) = str_eq t u
is_text t (number n) = false

abbrev pub is_restart : List Piece → Bool
is_restart (a ∷ b ∷ c ∷ []) =
    is_text "systemctl" a && (is_text "restart" b && is_text "grafana-agent-flow" c)
is_restart _ = false

abbrev pub is_reload : List Piece → Bool
is_reload (a ∷ b ∷ []) = is_text "systemctl" a && is_text "daemon-reload" b
is_reload _ = false

abbrev pub commanded : List Piece → Bool → Progress → Progress
commanded command succeeds c =
    if is_restart command
    then record c { restarted = c.reloaded && succeeds }
    else if is_reload command
    then record c { reloaded = succeeds; restarted = false }
    else c

abbrev pub follows : Event → Progress → Progress
follows (did (write_config _ _) true) c = record {
  written = true;
  reloaded = false;
  restarted = false;
}
follows (did (run_command command) succeeds) c = commanded command succeeds c
follows _ c = c

abbrev pub untouched : Progress
untouched = record { written = false; reloaded = false; restarted = false }

-- After a success the agent was restarted, with its units loaded again, if the file was written, and
-- only then.
abbrev pub IsCurrent : Result (Unit {0}) → Progress → Type 0
IsCurrent (ok _) c = c.restarted ≡ c.written
IsCurrent (err e) c = Unit

write_content-IsCurrent :
    (content : String) (found : Option ℕ)
    → Ensures follows (write_content content found) IsCurrent untouched
write_content-IsCurrent content none = (((refl, λ e. tt), λ e. tt), λ e. tt)
write_content-IsCurrent content (some perm) = (λ old. by_equal (str_eq old content), λ e. tt)
  where
    by_equal :
        (b : Bool)
        → Ensures follows (if b then done else overwrite content perm) IsCurrent untouched
    by_equal true = refl
    by_equal false = (((refl, λ e. tt), λ e. tt), λ e. tt)

write_rendered-IsCurrent :
    (mimir loki : String) → Ensures follows (write_rendered mimir loki) IsCurrent untouched
write_rendered-IsCurrent mimir loki =
    (λ content. (λ found. write_content-IsCurrent content found, λ e. tt), λ e. tt)

module _ (s : Services) (laws : TransactionLaws s) where
  -- If the transactions follow their laws and the configuration was not written and no command was run
  -- before, a run of `ConfigureAgent` that succeeds has, exactly if it has written its configuration, after
  -- the write loaded the units again and then restarted the grafana agent.
  pub configure_agent-IsCurrent :
      (mimir loki : String) (g : Agent)
      → view follows untouched g.trace ≡ untouched
      → Holds follows untouched IsCurrent (run s (configure_agent mimir loki) g)
  configure_agent-IsCurrent mimir loki g h =
      run-Ensures follows untouched s laws (configure_agent mimir loki) IsCurrent g (
        rw h (
          elim [
            | true ↦ write_rendered-IsCurrent mimir loki
            | false ↦ (write_rendered-IsCurrent mimir loki, λ e. tt)
          ],
          λ e. tt,
        ))
