-- ===== src/Handlers/Reset/EnvFile.antt =====
-- The rewriting of the environment file in `tryResetEnv` (reset.go), over the file's bytes: the
-- loop of the scanner, and the standard library's functions that it calls, for ASCII texts.
pub mod Cleared
pub mod Described
use sdwan_agent.Prelude.{
  ℕ, Bool, true, false, ◌&&◌, ◌||◌, Option, none, some, List, [], ◌∷◌, ◌++◌, leb, ltb, length,
  all_by, ◌==◌, is_empty, if◌then◌else◌,
}

abbrev pub newline : ℕ
newline = 10

-- `bufio.ScanLines` drops one carriage return at the end of a line.
abbrev pub drop_cr : List ℕ → List ℕ
drop_cr [] = []
drop_cr (c ∷ []) = if c == 13 then [] else c ∷ []
drop_cr (c ∷ d ∷ cs) = c ∷ drop_cr (d ∷ cs)

abbrev pub cons_head : ℕ → List (List ℕ) → List (List ℕ)
cons_head c [] = (c ∷ []) ∷ []
cons_head c (l ∷ ls) = (c ∷ l) ∷ ls

-- The text's lines, with no line after a last newline.
unfoldable pub split_lines : List ℕ → List (List ℕ)
split_lines [] = []
split_lines (c ∷ cs) =
    let rest = split_lines cs in if c == newline then [] ∷ rest else cons_head c rest

-- `bufio.MaxScanTokenSize` bounds the lines that the scanner reads.
unfoldable pub scan_fits : List ℕ → Bool
unfolding split_lines
scan_fits text = all_by (λ l. ltb (length l) 65536) (split_lines text)

-- `strings.Cut(line, "=")`: the part before the first `=`, if there is one.
unfoldable pub cut_left : List ℕ → Option (List ℕ)
cut_left [] = none
cut_left (c ∷ cs) =
    if c == b'=' then some [] else elim (cut_left cs) [ none ↦ none | some l ↦ some (c ∷ l) ]

-- Tab, newline, vertical tab, form feed, carriage return and space.
abbrev pub is_space : ℕ → Bool
is_space c = c == 32 || leb 9 c && leb c 13

unfoldable pub trim_left : List ℕ → List ℕ
trim_left [] = []
trim_left (c ∷ cs) = if is_space c then trim_left cs else c ∷ cs

unfoldable pub trim_right : List ℕ → List ℕ
trim_right [] = []
trim_right (c ∷ cs) =
    let rest = trim_right cs in if is_space c && is_empty rest then [] else c ∷ rest

unfoldable pub starts_with : List ℕ → List ℕ → Bool
starts_with [] l = true
starts_with (p ∷ ps) [] = false
starts_with (p ∷ ps) (c ∷ cs) = p == c && starts_with ps cs

-- `AGENT_ENDPOINT`, `AGENT_ID` and `=""`.
abbrev pub endpoint_key : List ℕ
endpoint_key =
    b'A' ∷ b'G' ∷ b'E' ∷ b'N' ∷ b'T' ∷ b'_' ∷ b'E' ∷ b'N' ∷ b'D' ∷ b'P' ∷ b'O' ∷ b'I' ∷ b'N' ∷ b'T'
    ∷ []

abbrev pub id_key : List ℕ
id_key = b'A' ∷ b'G' ∷ b'E' ∷ b'N' ∷ b'T' ∷ b'_' ∷ b'I' ∷ b'D' ∷ []

abbrev pub cleared : List ℕ
cleared = b'=' ∷ b'"' ∷ b'"' ∷ []

-- The `switch` on the trimmed key.
abbrev pub reset_pair : List ℕ → List ℕ → List ℕ
reset_pair line key =
    if starts_with endpoint_key key
    then endpoint_key ++ cleared
    else if starts_with id_key key
    then id_key ++ cleared
    else line

abbrev pub reset_cut : List ℕ → Option (List ℕ) → List ℕ
reset_cut line none = line
reset_cut line (some left) = reset_pair line (trim_right (trim_left left))

-- One line of the new file.
unfoldable pub reset_line : List ℕ → List ℕ
reset_line line = reset_cut line (cut_left line)

-- The loop of the scanner; empty lines are dropped.
unfoldable pub reset_lines : List (List ℕ) → List (List ℕ)
reset_lines [] = []
reset_lines (l ∷ ls) =
    let rest = reset_lines ls in
    if is_empty (drop_cr l) then rest else reset_line (drop_cr l) ∷ rest

-- The writes to the builder: each line and a newline.
unfoldable pub join_lines : List (List ℕ) → List ℕ
join_lines [] = []
join_lines (l ∷ ls) = l ++ (newline ∷ join_lines ls)

unfoldable pub reset_env_text : List ℕ → List ℕ
reset_env_text text = join_lines (reset_lines (split_lines text))
