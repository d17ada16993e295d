-- ===== src/Handlers/Reset/EnvFile/Cleared.antt =====
-- What the rewritten environment file holds.
use sdwan_agent.Prelude.{
  ◌≡◌, refl, sym, ap, ◌∙◌, subst, ℕ, true, false, Option, none, some, List, [], ◌∷◌, ◌++◌, ◌==◌,
  is_empty, All, if◌then◌else◌, Bool-cases, inl, inr,
}
use sdwan_agent.Handlers.Reset.EnvFile.{
  newline, drop_cr, cons_head, split_lines, cut_left, trim_left, trim_right, starts_with,
  endpoint_key, id_key, cleared, reset_pair, reset_cut, reset_line, reset_lines, join_lines,
  reset_env_text,
}

-- A line has no newline in it.
abbrev pub IsLine : List ℕ → Type 0
IsLine = All (λ c. (c == newline) ≡ false)

-- `AGENT_ENDPOINT` and `AGENT_ID`, and the lines `AGENT_ENDPOINT=""` and `AGENT_ID=""`.
abbrev pub agent_endpoint : List ℕ
agent_endpoint =
    b'A' ∷ b'G' ∷ b'E' ∷ b'N' ∷ b'T' ∷ b'_' ∷ b'E' ∷ b'N' ∷ b'D' ∷ b'P' ∷ b'O' ∷ b'I' ∷ b'N' ∷ b'T'
    ∷ []

abbrev pub agent_id : List ℕ
agent_id = b'A' ∷ b'G' ∷ b'E' ∷ b'N' ∷ b'T' ∷ b'_' ∷ b'I' ∷ b'D' ∷ []

abbrev pub no_endpoint : List ℕ
no_endpoint =
    b'A' ∷ b'G' ∷ b'E' ∷ b'N' ∷ b'T' ∷ b'_' ∷ b'E' ∷ b'N' ∷ b'D' ∷ b'P' ∷ b'O' ∷ b'I' ∷ b'N' ∷ b'T'
    ∷ b'=' ∷ b'"' ∷ b'"' ∷ []

abbrev pub no_id : List ℕ
no_id = b'A' ∷ b'G' ∷ b'E' ∷ b'N' ∷ b'T' ∷ b'_' ∷ b'I' ∷ b'D' ∷ b'=' ∷ b'"' ∷ b'"' ∷ []

-- A line that sets one of the two keys, as the source finds it, sets it to the empty text.
abbrev pub SetsNothing : List ℕ → Option (List ℕ) → Type 0
SetsNothing line none = Unit
SetsNothing line (some left) =
    (starts_with agent_endpoint (trim_right (trim_left left)) ≡ true → line ≡ no_endpoint)
    × (starts_with agent_id (trim_right (trim_left left)) ≡ true → line ≡ no_id)

abbrev pub IsCleared : List ℕ → Type 0
IsCleared line = SetsNothing line (cut_left line)

split_lines-line :
    (l text : List ℕ) → IsLine l → split_lines (l ++ (newline ∷ text)) ≡ l ∷ split_lines text
unfolding split_lines
split_lines-line [] text h = refl
split_lines-line (c ∷ cs) text h = rw (h.0, split_lines-line cs text h.1) refl

split_lines-join_lines : (ls : List (List ℕ)) → All IsLine ls → split_lines (join_lines ls) ≡ ls
unfolding join_lines split_lines
split_lines-join_lines [] h = refl
split_lines-join_lines (l ∷ ls) h =
    split_lines-line l (join_lines ls) h.0 ∙ ap (λ r. l ∷ r) (split_lines-join_lines ls h.1)

cons_head-IsLine :
    (c : ℕ) (ls : List (List ℕ))
    → (c == newline) ≡ false
    → All IsLine ls
    → All IsLine (cons_head c ls)
cons_head-IsLine c [] e h = ((e, tt), tt)
cons_head-IsLine c (l ∷ ls) e h = ((e, h.0), h.1)

split_lines-IsLine : (text : List ℕ) → All IsLine (split_lines text)
unfolding split_lines
split_lines-IsLine [] = tt
split_lines-IsLine (c ∷ cs) = elim (Bool-cases (c == newline)) [
  | inl p ↦ rw p (tt, split_lines-IsLine cs)
  | inr p ↦ rw p (cons_head-IsLine c (split_lines cs) p (split_lines-IsLine cs))
]

drop_cr-IsLine : (l : List ℕ) → IsLine l → IsLine (drop_cr l)
drop_cr-IsLine [] h = tt
drop_cr-IsLine (c ∷ []) h = elim (c == 13) as (λ b. IsLine (if b then [] else c ∷ [])) [
  | true ↦ tt
  | false ↦ h
]
drop_cr-IsLine (c ∷ d ∷ cs) h = (h.0, drop_cr-IsLine (d ∷ cs) h.1)

-- What holds of a line and of the two lines that the keys are set in holds of the line's rewriting.
reset_pair-keeps :
    (P : List ℕ → Type 0) (line key : List ℕ)
    → P (endpoint_key ++ cleared)
    → P (id_key ++ cleared)
    → (starts_with endpoint_key key ≡ false → starts_with id_key key ≡ false → P line)
    → P (reset_pair line key)
reset_pair-keeps P line key h h' k = elim (Bool-cases (starts_with endpoint_key key)) [
  | inl p ↦ rw p h
  | inr p ↦ elim (Bool-cases (starts_with id_key key)) [
    | inl q ↦ rw (p, q) h'
    | inr q ↦ rw (p, q) (k p q)
  ]
]

reset_line-IsLine : (line : List ℕ) → IsLine line → IsLine (reset_line line)
unfolding reset_line
reset_line-IsLine line h = on (cut_left line)
  where
    on : (o : Option (List ℕ)) → IsLine (reset_cut line o)
    on none = h
    on (some left) =
        reset_pair-keeps IsLine line (trim_right (trim_left left))
          (
            refl,
            (
              refl,
              (
                refl,
                (
                  refl,
                  (
                    refl,
                    (
                      refl,
                      (
                        refl,
                        (
                          refl,
                          (
                            refl,
                            (refl, (refl, (refl, (refl, (refl, (refl, (refl, (refl, tt)))))))),
                          ),
                        ),
                      ),
                    ),
                  ),
                ),
              ),
            ),
          )
          (refl, (refl, (refl, (refl, (refl, (refl, (refl, (refl, (refl, (refl, (refl, tt)))))))))))
          (λ _ _. h)

reset_line-IsCleared : (line : List ℕ) → IsCleared (reset_line line)
unfolding reset_line cut_left starts_with trim_left trim_right
reset_line-IsCleared line = on (cut_left line) refl
  where
    on : (o : Option (List ℕ)) → cut_left line ≡ o → IsCleared (reset_cut line o)
    on none e = subst (SetsNothing line) (sym e) tt
    on (some left) e =
        reset_pair-keeps IsCleared line (trim_right (trim_left left)) (λ _. refl, λ x. cc)
          (λ x. cc, λ _. refl) (λ p q. subst (SetsNothing line) (sym e) (λ x. cc, λ x. cc))

-- The lines of the new text.
reset_lines-All :
    (P : List ℕ → Type 0) (ls : List (List ℕ))
    → All (λ l. P (reset_line (drop_cr l))) ls
    → All P (reset_lines ls)
unfolding reset_lines
reset_lines-All P [] h = tt
reset_lines-All P (l ∷ ls) h =
    elim (is_empty (drop_cr l))
      as (λ b. All P (if b then reset_lines ls else reset_line (drop_cr l) ∷ reset_lines ls)) [
        | true ↦ reset_lines-All P ls h.1
        | false ↦ (h.0, reset_lines-All P ls h.1)
      ]

All-map :
    {A : Type 0} (P Q : A → Type 0) (xs : List A) → ((x : A) → P x → Q x) → All P xs → All Q xs
All-map P Q [] f h = tt
All-map P Q (x ∷ xs) f h = (f x h.0, All-map P Q xs f h.1)

reset_lines-IsLine : (text : List ℕ) → All IsLine (reset_lines (split_lines text))
reset_lines-IsLine text = reset_lines-All IsLine (split_lines text) (
    All-map IsLine (λ l. IsLine (reset_line (drop_cr l))) (split_lines text)
      (λ l h. reset_line-IsLine (drop_cr l) (drop_cr-IsLine l h)) (split_lines-IsLine text))

-- What is written reads back as the lines that the loop made.
pub split_lines-reset_env_text :
    (text : List ℕ) → split_lines (reset_env_text text) ≡ reset_lines (split_lines text)
unfolding reset_env_text
split_lines-reset_env_text text =
    split_lines-join_lines (reset_lines (split_lines text)) (reset_lines-IsLine text)

-- No line of the text that the environment file is rewritten with gives the endpoint or the id of the agent a value: a line whose key, as
-- the source finds it, starts with one of the two names is that name set to the empty text.
pub reset_env_text-IsCleared : (text : List ℕ) → All IsCleared (split_lines (reset_env_text text))
reset_env_text-IsCleared text = subst (All IsCleared) (sym (split_lines-reset_env_text text)) (
    reset_lines-All IsCleared (split_lines text) (
      All-map IsLine _ (split_lines text) (λ l _. reset_line-IsCleared (drop_cr l))
        (split_lines-IsLine text)))
