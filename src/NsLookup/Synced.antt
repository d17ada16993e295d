-- ===== src/NsLookup/Synced.antt =====
-- What `SyncHosts` of internal/domains/nslookup/service.go writes to the hosts file.
use mathlib.Core.Bool.{true≢false}
use text.Mathlib.TextPositions.{eq_refl}
use sdwan_agent.Prelude.{
  ◌≡◌, refl, ap, ◌∙◌, String, ℕ, Bool, true, false, not, ◌&&◌, ◌||◌, ◌==◌, Option, none, some, List,
  [], ◌∷◌, ◌++◌, map, length, contains_by, str_eq, All, arith, if◌then◌else◌,
}
use sdwan_agent.NsLookup.{
  Line, HostPair, Texts, build_host_line, same_pair, member, sdwan_section, blank_line, same_line,
  Kind, comment, host, other, is_orchestrator, kind_of, keep, kept, existing_hosts, has_changes,
  rewritten, synced,
}

-- Each pair once.
abbrev pub Distinct : List HostPair → Type 0
Distinct [] = Unit
Distinct (p ∷ ps) = (member p ps ≡ false) × Distinct ps

same_pair_refl : (p : HostPair) → same_pair p p ≡ true
same_pair_refl p = rw (eq_refl p.ip) (eq_refl p.fqdn)

equal_refl : (n : ℕ) → (n == n) ≡ true
equal_refl n = ground arith

-- All pairs of a list are members of another.
abbrev pub Members : List HostPair → List HostPair → Type 0
Members new ps = All (λ p. member p new ≡ true) ps

or_true : (a b : Bool) → b ≡ true → (a || b) ≡ true
or_true true b h = refl
or_true false b h = h

Members-cons : (q : HostPair) (new ps : List HostPair) → Members new ps → Members (q ∷ new) ps
Members-cons q new [] h = tt
Members-cons q new (p ∷ ps) (h, hs) =
    (or_true (same_pair p q) (member p new) h, Members-cons q new ps hs)

Members-refl : (ps : List HostPair) → Members ps ps
Members-refl [] = tt
Members-refl (p ∷ ps) = (rw (same_pair_refl p) refl, Members-cons p ps ps (Members-refl ps))

no_stranger :
    (new ps : List HostPair) → Members new ps → contains_by (λ p. not (member p new)) ps ≡ false
no_stranger new [] h = refl
no_stranger new (p ∷ ps) (h, hs) = rw h (no_stranger new ps hs)

strangers :
    (new ps : List HostPair) → contains_by (λ p. not (member p new)) ps ≡ false → Members new ps
strangers new [] h = tt
strangers new (p ∷ ps) h = by_member (member p new) refl (strangers new ps) h
  where
    by_member :
        (b : Bool)
        → member p new ≡ b
        → (contains_by (λ q. not (member q new)) ps ≡ false → Members new ps)
        → (not b || contains_by (λ q. not (member q new)) ps) ≡ false
        → Members new (p ∷ ps)
    by_member true e ih h' = (e, ih h')
    by_member false e ih h' = absurd (true≢false h')

-- A host line is not the section's comment.
no_section : (p : HostPair) → same_line (build_host_line p) sdwan_section ≡ false
unfolding same_line
no_section p = two (str_eq p.ip "#") (str_eq p.fqdn "SDWAN:")
  where
    two : (a b : Bool) → (a && (b && false)) ≡ false
    two true true = refl
    two true false = refl
    two false b = refl

module _ (texts : Texts) (orchestrators : List String) where
  -- A pair that is read back as it was written: an orchestrator's, of trimmed texts.
  abbrev pub IsReadBack : HostPair → Type 0
  IsReadBack p =
      (texts.trim p.ip ≡ p.ip)
      × (texts.trim p.fqdn ≡ p.fqdn)
      × (is_orchestrator orchestrators p.fqdn ≡ true)

  kind_of-build_host_line :
      (p : HostPair) → IsReadBack p → kind_of texts orchestrators (build_host_line p) ≡ host p
  unfolding kind_of same_line
  kind_of-build_host_line p (h, h', o) = rw (no_section p) (rw h (rw h' (rw o refl)))

  read_back :
      (new : List HostPair)
      → All IsReadBack new
      → Distinct new
      → existing_hosts texts orchestrators (map build_host_line new) ≡ new
  read_back [] h d = refl
  read_back (p ∷ ps) (h, hs) (d, ds) =
      rw (kind_of-build_host_line p h) (rw (read_back ps hs ds) (rw d refl))

  dropped :
      (new : List HostPair)
      → All IsReadBack new
      → kept texts orchestrators (map build_host_line new) ≡ []
  dropped [] h = refl
  dropped (p ∷ ps) (h, hs) = rw (kind_of-build_host_line p h) (dropped ps hs)

  -- A kept line is kept again, and is no host's.
  abbrev Again : List Line → List Line → Type 0
  Again ls ys =
      (kept texts orchestrators (ls ++ ys) ≡ ls ++ kept texts orchestrators ys)
      × (existing_hosts texts orchestrators (ls ++ ys) ≡ existing_hosts texts orchestrators ys)

  kept-Again : (ls ys : List Line) → Again (kept texts orchestrators ls) ys
  kept-Again [] ys = (refl, refl)
  kept-Again (l ∷ ls) ys = by_kind (kind_of texts orchestrators l) refl (kept-Again ls ys)
    where
      by_kind :
          (k : Kind)
          → kind_of texts orchestrators l ≡ k
          → Again (kept texts orchestrators ls) ys
          → Again (keep texts orchestrators k l (kept texts orchestrators ls)) ys
      by_kind comment e h = h
      by_kind (host p) e h = h
      by_kind other e (h, h') = (rw e (ap (λ (xs : List Line). l ∷ xs) h), rw e h')

  kind_of-blank_line : kind_of texts orchestrators blank_line ≡ other
  unfolding kind_of same_line
  kind_of-blank_line = refl

  kind_of-sdwan_section : kind_of texts orchestrators sdwan_section ≡ comment
  unfolding kind_of same_line
  kind_of-sdwan_section = refl

  module _ (new : List HostPair) (h : All IsReadBack new) (d : Distinct new) where
    kept-rewritten :
        (ls : List Line)
        → kept texts orchestrators (rewritten texts orchestrators ls new)
          ≡ kept texts orchestrators ls ++ (blank_line ∷ [])
    kept-rewritten ls =
        (kept-Again ls (blank_line ∷ sdwan_section ∷ map build_host_line new)).0
        ∙ ap (λ (xs : List Line). kept texts orchestrators ls ++ xs)
            (rw kind_of-blank_line (rw kind_of-sdwan_section (rw (dropped new h) refl)))

    existing_hosts-rewritten :
        (ls : List Line)
        → existing_hosts texts orchestrators (rewritten texts orchestrators ls new) ≡ new
    existing_hosts-rewritten ls =
        (kept-Again ls (blank_line ∷ sdwan_section ∷ map build_host_line new)).1
        ∙ rw kind_of-blank_line (rw kind_of-sdwan_section (read_back new h d))

    settled : has_changes texts orchestrators new new ≡ false
    settled = rw (equal_refl (length new)) (no_stranger new new (Members-refl new))

    -- What is written, by the lines that the loop keeps and the pairs that it collects.
    abbrev pub IsWritten : List Line → Option (List Line) → Type 0
    IsWritten ls none =
        ((length (existing_hosts texts orchestrators ls) == length new) ≡ true)
        × Members new (existing_hosts texts orchestrators ls)
    IsWritten ls (some written) =
        (kept texts orchestrators written ≡ kept texts orchestrators ls ++ (blank_line ∷ []))
        × (existing_hosts texts orchestrators written ≡ new)
        × (synced texts orchestrators new written ≡ none)

    unchanged :
        (existing : List HostPair) (b : Bool)
        → (if b then contains_by (λ p. not (member p new)) existing else true) ≡ false
        → (b ≡ true) × Members new existing
    unchanged existing true e = (refl, strangers new existing e)
    unchanged existing false e = absurd (true≢false e)

    pub synced-IsWritten : (ls : List Line) → IsWritten ls (synced texts orchestrators new ls)
    unfolding synced
    synced-IsWritten ls =
        by_changes (has_changes texts orchestrators (existing_hosts texts orchestrators ls) new)
          refl
      where
        by_changes :
            (b : Bool)
            → has_changes texts orchestrators (existing_hosts texts orchestrators ls) new ≡ b
            → IsWritten ls (if b then some (rewritten texts orchestrators ls new) else none)
        by_changes true e = (
          kept-rewritten ls,
          existing_hosts-rewritten ls,
          rw (existing_hosts-rewritten ls) (rw settled refl),
        )
        by_changes false e =
            unchanged (existing_hosts texts orchestrators ls)
              (length (existing_hosts texts orchestrators ls) == length new) e
