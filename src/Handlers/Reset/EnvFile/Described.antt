-- ===== src/Handlers/Reset/EnvFile/Described.antt =====
-- What the rewriting of the environment file in `tryResetEnv` (reset.go) makes of each line.
use sdwan_agent.Prelude.{
  ◌≡◌, refl, ◌∙◌, ℕ, Option, none, some, List, [], ◌∷◌, map, is_empty, if◌then◌else◌,
}
use sdwan_agent.Handlers.Reset.EnvFile.{
  drop_cr, split_lines, cut_left, trim_left, trim_right, starts_with, reset_cut, reset_line,
  reset_lines, reset_env_text,
}
use sdwan_agent.Handlers.Reset.EnvFile.Cleared.{
  agent_endpoint, agent_id, no_endpoint, no_id, split_lines-reset_env_text,
}

-- A line by the key before its first `=`, with the blanks round it dropped.
abbrev pub keyed : List ℕ → List ℕ → List ℕ
keyed line key =
    if starts_with agent_endpoint key
    then no_endpoint
    else if starts_with agent_id key
    then no_id
    else line

abbrev pub described_line : List ℕ → List ℕ
described_line line = elim (cut_left line) [
  | none ↦ line
  | some left ↦ keyed line (trim_right (trim_left left))
]

abbrev pub non_empty : List (List ℕ) → List (List ℕ)
non_empty [] = []
non_empty ([] ∷ ls) = non_empty ls
non_empty ((c ∷ cs) ∷ ls) = (c ∷ cs) ∷ non_empty ls

-- The lines of the new text, by those of the old one.
abbrev pub described : List (List ℕ) → List (List ℕ)
described ls = map described_line (non_empty (map drop_cr ls))

reset_line_lem : (line : List ℕ) → reset_line line ≡ described_line line
unfolding reset_line
reset_line_lem line = on (cut_left line)
  where
    on :
        (o : Option (List ℕ))
        → reset_cut line o
          ≡ elim o [ none ↦ line | some left ↦ keyed line (trim_right (trim_left left)) ]
    on none = refl
    on (some left) = refl

reset_lines_lem : (ls : List (List ℕ)) → reset_lines ls ≡ described ls
unfolding reset_lines
reset_lines_lem [] = refl
reset_lines_lem (l ∷ ls) = on (drop_cr l) (reset_lines_lem ls)
  where
    on :
        (line : List ℕ)
        → reset_lines ls ≡ described ls
        → (if is_empty line then reset_lines ls else reset_line line ∷ reset_lines ls)
          ≡ map described_line (non_empty (line ∷ map drop_cr ls))
    on [] h = h
    on (c ∷ cs) h = rw (reset_line_lem (c ∷ cs), h) refl

-- The text that the environment file is rewritten with has, in the same order, the lines of the old
-- one that are not empty, without the carriage return at the end. A line is kept, unless the part
-- before its first `=`, trimmed, starts with `AGENT_ENDPOINT` or else with `AGENT_ID`: then it is that
-- name set to the empty text.
pub reset_env_text_lem :
    (text : List ℕ) → split_lines (reset_env_text text) ≡ described (split_lines text)
reset_env_text_lem text = split_lines-reset_env_text text ∙ reset_lines_lem (split_lines text)
