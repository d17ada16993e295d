-- ===== src/Tests/Texts.antt =====
-- Texts that the agent stores or rewrites.
use sdwan_agent.Prelude.{◌≡◌, ℕ, List, [], ◌∷◌, All}
use sdwan_agent.Handlers.Reset.EnvFile.{newline, split_lines, reset_env_text}
use sdwan_agent.Handlers.Reset.EnvFile.Cleared.{IsCleared, reset_env_text-IsCleared}
use sdwan_agent.Handlers.Reset.EnvFile.Described.{described, reset_env_text_lem}

-- `AGENT_ID=7`, an empty line and `LOG=1`.
abbrev env_file : List ℕ
env_file =
    b'A' ∷ b'G' ∷ b'E' ∷ b'N' ∷ b'T' ∷ b'_' ∷ b'I' ∷ b'D' ∷ b'=' ∷ b'7' ∷ newline ∷ newline ∷ b'L'
    ∷ b'O' ∷ b'G' ∷ b'=' ∷ b'1' ∷ newline ∷ []

reset_env_text_lem_example :
    split_lines (reset_env_text env_file) ≡ described (split_lines env_file)
reset_env_text_lem_example = reset_env_text_lem env_file

reset_env_text-IsCleared_example : All IsCleared (split_lines (reset_env_text env_file))
reset_env_text-IsCleared_example = reset_env_text-IsCleared env_file
