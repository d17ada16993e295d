-- ===== src/NsLookup/Others.antt =====
-- Which lines of the hosts file are left to others by `SyncHosts` of
-- internal/domains/nslookup/service.go, and which are the orchestrators'.
use sdwan_agent.Prelude.{
  ◌≡◌, refl, sym, ap, ◌∙◌, subst, String, Bool, true, false, ◌&&◌, ◌||◌, ◌==◌, Option, none, some,
  List, [], ◌∷◌, ◌++◌, length, str_eq, All, if◌then◌else◌,
}
use sdwan_agent.NsLookup.{
  Line, HostPair, Texts, member, sdwan_section, blank_line, same_line, Kind, comment, host, other,
  is_orchestrator, kind_of, kind_of_words, keep, collect, kept, existing_hosts, synced,
}
use sdwan_agent.NsLookup.Synced.{Distinct, Members, IsReadBack, IsWritten, synced-IsWritten}

-- The comment `# SDWAN: generated section`.
abbrev pub is_section : Line → Bool
is_section (a ∷ b ∷ c ∷ d ∷ []) =
    str_eq a "#" && (str_eq b "SDWAN:" && (str_eq c "generated" && str_eq d "section"))
is_section _ = false

abbrev pub named : List String → String → Bool
named [] fqdn = false
named (o ∷ os) fqdn = str_eq fqdn o || named os fqdn

and-false : (b : Bool) → (b && false) ≡ false
and-false true = refl
and-false false = refl

and-true : (b : Bool) → (b && true) ≡ b
and-true true = refl
and-true false = refl

same_line-section : (l : Line) → same_line l sdwan_section ≡ is_section l
unfolding same_line
same_line-section [] = refl
same_line-section (a ∷ []) = and-false (str_eq a "#")
same_line-section (a ∷ b ∷ []) = rw (and-false (str_eq b "SDWAN:")) (and-false (str_eq a "#"))
same_line-section (a ∷ b ∷ c ∷ []) =
    rw (and-false (str_eq c "generated"), and-false (str_eq b "SDWAN:")) (and-false (str_eq a "#"))
same_line-section (a ∷ b ∷ c ∷ d ∷ []) = rw (and-true (str_eq d "section")) refl
same_line-section (a ∷ b ∷ c ∷ d ∷ e ∷ l) =
    rw
      (
        and-false (str_eq d "section"),
        and-false (str_eq c "generated"),
        and-false (str_eq b "SDWAN:"),
      )
      (and-false (str_eq a "#"))

is_orchestrator-named :
    (orchestrators : List String) (fqdn : String)
    → is_orchestrator orchestrators fqdn ≡ named orchestrators fqdn
is_orchestrator-named [] fqdn = refl
is_orchestrator-named (o ∷ os) fqdn = ap (λ b. str_eq fqdn o || b) (is_orchestrator-named os fqdn)

-- Whose a line is.
pub data Owner : Type 0 where
  others section : Owner
  orchestrators_pair : HostPair → Owner

abbrev to_kind : Owner → Kind
to_kind others = other
to_kind section = comment
to_kind (orchestrators_pair p) = host p

module _ (texts : Texts) (orchestrators : List String) where
  -- The second word of a line, trimmed, is an orchestrator's name, and the first one is its address.
  abbrev pub owner_of_words : Line → Owner
  owner_of_words (ip ∷ fqdn ∷ _) =
      if named orchestrators (texts.trim fqdn)
      then orchestrators_pair (record { fqdn = texts.trim fqdn; ip = texts.trim ip })
      else others
  owner_of_words _ = others

  abbrev pub owner : Line → Owner
  owner l = if is_section l then section else owner_of_words l

  -- The lines of others, and the orchestrators' pairs, each once.
  abbrev pub if_others : Owner → Line → List Line → List Line
  if_others others l ls = l ∷ ls
  if_others _ l ls = ls

  abbrev pub others_in : List Line → List Line
  others_in [] = []
  others_in (l ∷ ls) = if_others (owner l) l (others_in ls)

  abbrev pub with_pair : Owner → List HostPair → List HostPair
  with_pair (orchestrators_pair p) ps = if member p ps then ps else p ∷ ps
  with_pair _ ps = ps

  abbrev pub pairs_in : List Line → List HostPair
  pairs_in [] = []
  pairs_in (l ∷ ls) = with_pair (owner l) (pairs_in ls)

  kind_of_words-owner :
      (l : Line) → kind_of_words texts orchestrators l ≡ to_kind (owner_of_words l)
  kind_of_words-owner [] = refl
  kind_of_words-owner (ip ∷ []) = refl
  kind_of_words-owner (ip ∷ fqdn ∷ l) =
      rw (is_orchestrator-named orchestrators (texts.trim fqdn))
        (by_name (named orchestrators (texts.trim fqdn)))
    where
      by_name :
          (b : Bool)
          → (if b then host (record { fqdn = texts.trim fqdn; ip = texts.trim ip }) else other)
            ≡ to_kind (
                if b
                then orchestrators_pair (record { fqdn = texts.trim fqdn; ip = texts.trim ip })
                else others)
      by_name true = refl
      by_name false = refl

  kind_of-owner : (l : Line) → kind_of texts orchestrators l ≡ to_kind (owner l)
  unfolding kind_of
  kind_of-owner l = rw (same_line-section l, kind_of_words-owner l) (by_section (is_section l))
    where
      by_section :
          (b : Bool)
          → (if b then comment else to_kind (owner_of_words l))
            ≡ to_kind (if b then section else owner_of_words l)
      by_section true = refl
      by_section false = refl

  keep-to_kind :
      (o : Owner) (l : Line) (ls : List Line)
      → keep texts orchestrators (to_kind o) l ls ≡ if_others o l ls
  keep-to_kind others l ls = refl
  keep-to_kind section l ls = refl
  keep-to_kind (orchestrators_pair p) l ls = refl

  collect-to_kind :
      (o : Owner) (ps : List HostPair) → collect texts orchestrators (to_kind o) ps ≡ with_pair o ps
  collect-to_kind others ps = refl
  collect-to_kind section ps = refl
  collect-to_kind (orchestrators_pair p) ps = refl

  kept_lem : (ls : List Line) → kept texts orchestrators ls ≡ others_in ls
  kept_lem [] = refl
  kept_lem (l ∷ ls) = rw (kind_of-owner l, kept_lem ls) (keep-to_kind (owner l) l (others_in ls))

  existing_hosts_lem : (ls : List Line) → existing_hosts texts orchestrators ls ≡ pairs_in ls
  existing_hosts_lem [] = refl
  existing_hosts_lem (l ∷ ls) =
      rw (kind_of-owner l, existing_hosts_lem ls) (collect-to_kind (owner l) (pairs_in ls))

  module _ (new : List HostPair) (h : All (IsReadBack texts orchestrators) new)
      (d : Distinct new) where
    -- The file is left alone only if as many orchestrators' pairs stand in it as are wanted, all of
    -- them wanted. Otherwise the lines of others stay, in their order and with one empty line more;
    -- the orchestrators' pairs are the wanted ones, and the next run leaves the file alone.
    abbrev pub IsSynced : List Line → Option (List Line) → Type 0
    IsSynced ls none = ((length (pairs_in ls) == length new) ≡ true) × Members new (pairs_in ls)
    IsSynced ls (some written) =
        (others_in written ≡ others_in ls ++ (blank_line ∷ []))
        × (pairs_in written ≡ new)
        × (synced texts orchestrators new written ≡ none)

    IsSynced-of_IsWritten :
        (ls : List Line) (o : Option (List Line))
        → IsWritten texts orchestrators new h d ls o
        → IsSynced ls o
    IsSynced-of_IsWritten ls none w =
        subst (λ ps. ((length ps == length new) ≡ true) × Members new ps) (existing_hosts_lem ls) w
    IsSynced-of_IsWritten ls (some written) (w, w', w'') = (
      sym (kept_lem written) ∙ w ∙ ap (λ (xs : List Line). xs ++ (blank_line ∷ [])) (kept_lem ls),
      sym (existing_hosts_lem written) ∙ w',
      w'',
    )

    -- If each new pair is an orchestrator's, of texts that are trimmed already, and none comes twice,
    -- then `SyncHosts` leaves the file alone only if its orchestrators' pairs are as many as the new
    -- ones and all among them. What it writes otherwise keeps the lines of others, which are all but
    -- the section's comment and those whose second word is an orchestrator, in their order and with
    -- one empty line more, has exactly the new pairs as its orchestrators' ones, and is left alone by
    -- the next run with the same pairs.
    pub synced-IsSynced : (ls : List Line) → IsSynced ls (synced texts orchestrators new ls)
    synced-IsSynced ls =
        IsSynced-of_IsWritten ls (synced texts orchestrators new ls)
          (synced-IsWritten texts orchestrators new h d ls)
