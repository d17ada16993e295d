-- ===== src/Discovery/Primary.antt =====
-- What `FetchPrimary` answers, whatever the order in which the hosts do.
use mathlib.Core.List.{Permᴰ}
use Permᴰ.{nil, cons, swap, trans, refl as Perm_refl}
use text.Mathlib.TextEquality.{eq_iff}
use sdwan_agent.Prelude.{
  ◌≡◌, refl, ap, ◌∙◌, subst, String, suc, ◌≤◌, Bool, true, false, ◌&&◌, Option, none, some, List,
  [], ◌∷◌, map, length, str_eq, is_blank, if◌then◌else◌, All, Bool-cases, inl, inr, arith,
}
use sdwan_agent.Errors.{Result, ok, err, split_brain, primary_not_found}
use sdwan_agent.Discovery.{
  DiscoveryResult, discover, discovered, equal, set_hosts, Answer, choose, Pool, PoolLaws, answered,
  fetch_primary,
}

-- The hosts that say that they are the primary.
abbrev pub primaries : List DiscoveryResult → List String
primaries [] = []
primaries (r ∷ rs) = if r.is_primary then r.host ∷ primaries rs else primaries rs

-- The answer for the hosts that say so, in the order in which they do.
abbrev pub decide : List String → Answer
decide [] = ("", some primary_not_found)
decide (h ∷ []) = (h, none)
decide (h ∷ _ ∷ _) = (h, some split_brain)

abbrev pub HasHost : DiscoveryResult → Type 0
HasHost r = is_blank r.host ≡ false

All-Perm : {A : Type 0} (P : A → Type 0) {xs ys : List A} → Permᴰ xs ys → All P xs → All P ys
All-Perm P nil h = h
All-Perm P (cons e p) h = (subst P e h.0, All-Perm P p h.1)
All-Perm P (swap e e') h = (subst P e' h.1.0, (subst P e h.0, h.1.1))
All-Perm P (trans p q) h = All-Perm P q (All-Perm P p h)

-- With a first primary already found.
choose-some :
    (h : String) (rs : List DiscoveryResult)
    → is_blank h ≡ false
    → choose h rs ≡ decide (h ∷ primaries rs)
unfolding choose
choose-some h [] b = rw b refl
choose-some h (r ∷ rs) b =
    elim r.is_primary
      as (λ c.
        (if c
          then (if is_blank h then choose r.host rs else (h, some split_brain))
          else choose h rs)
        ≡ decide (h ∷ (if c then r.host ∷ primaries rs else primaries rs))) [
          | true ↦ rw b refl
          | false ↦ choose-some h rs b
        ]

choose-decide : (rs : List DiscoveryResult) → All HasHost rs → choose "" rs ≡ decide (primaries rs)
unfolding choose
choose-decide [] b = refl
choose-decide (r ∷ rs) b =
    elim r.is_primary
      as (λ c.
        (if c then choose r.host rs else choose "" rs)
        ≡ decide (if c then r.host ∷ primaries rs else primaries rs)) [
          | true ↦ choose-some r.host rs b.0
          | false ↦ choose-decide rs b.1
        ]

-- The order in which the results come in only orders the primaries.
abbrev PrimariesPerm : List DiscoveryResult → List DiscoveryResult → Type 0
PrimariesPerm xs ys = Permᴰ (primaries xs) (primaries ys)

primaries-cons :
    (r : DiscoveryResult) (xs ys : List DiscoveryResult)
    → PrimariesPerm xs ys
    → PrimariesPerm (r ∷ xs) (r ∷ ys)
primaries-cons r xs ys p =
    elim r.is_primary
      as (λ c.
        Permᴰ (if c then r.host ∷ primaries xs else primaries xs)
          (if c then r.host ∷ primaries ys else primaries ys)) [ true ↦ cons refl p | false ↦ p ]

primaries-swap :
    (q r : DiscoveryResult) (xs : List DiscoveryResult) → PrimariesPerm (q ∷ r ∷ xs) (r ∷ q ∷ xs)
primaries-swap q r xs = on q.is_primary r.is_primary
  where
    on :
        (b c : Bool)
        → Permᴰ
            (if b
              then q.host ∷ (if c then r.host ∷ primaries xs else primaries xs)
              else if c
              then r.host ∷ primaries xs
              else primaries xs)
            (if c
              then r.host ∷ (if b then q.host ∷ primaries xs else primaries xs)
              else if b
              then q.host ∷ primaries xs
              else primaries xs)
    on true true = swap refl refl
    on true false = Perm_refl _
    on false true = Perm_refl _
    on false false = Perm_refl _

primaries-Perm : {xs ys : List DiscoveryResult} → Permᴰ xs ys → PrimariesPerm xs ys
primaries-Perm nil = nil
primaries-Perm (cons {a = a} {l₁ = xs} {l₂ = ys} e p) =
    subst (λ b. PrimariesPerm (a ∷ xs) (b ∷ ys)) e (primaries-cons a xs ys (primaries-Perm p))
primaries-Perm (swap {a = a} {b = b} {b' = b'} {l = xs} e e') =
    subst (λ c. PrimariesPerm (a ∷ b ∷ xs) (c ∷ b' ∷ xs)) e'
      (subst (λ c. PrimariesPerm (a ∷ b ∷ xs) (b ∷ c ∷ xs)) e (primaries-swap a b xs))
primaries-Perm (trans p q) = trans (primaries-Perm p) (primaries-Perm q)

length-Perm : {A : Type 0} {xs ys : List A} → Permᴰ xs ys → length xs ≡ length ys
length-Perm nil = refl
length-Perm (cons e p) = ap suc (length-Perm p)
length-Perm (swap e e') = refl
length-Perm (trans p q) = length-Perm p ∙ length-Perm q

-- A list with one member is its only arrangement.
only : (h : String) (ys : List String) → Permᴰ (h ∷ []) ys → ys ≡ h ∷ []
only h [] p = absurd (omega (arith, length-Perm p))
only h (y ∷ []) p = ap (λ x. x ∷ []) (All-Perm (λ x. x ≡ h) p (refl, tt)).0
only h (y ∷ z ∷ zs) p = absurd (omega (arith, length-Perm p))

and-eq-true : (b c : Bool) → b && c ≡ true → (b ≡ true) × (c ≡ true)
and-eq-true true true e = (refl, refl)
and-eq-true true false e = cc
and-eq-true false c e = cc

equal-eq : (xs ys : List String) → equal xs ys ≡ true → xs ≡ ys
unfolding equal
equal-eq [] [] e = refl
equal-eq [] (y ∷ ys) e = cc
equal-eq (x ∷ xs) [] e = cc
equal-eq (x ∷ xs) (y ∷ ys) e =
    let both = and-eq-true (str_eq x y) (equal xs ys) e in
    cc ((eq_iff x y).0 both.0, equal-eq xs ys both.1)

-- The hosts are kept as they were given.
set_hosts_lem : (kept hosts : List String) → set_hosts kept hosts ≡ hosts
unfolding set_hosts
set_hosts_lem kept hosts = elim (Bool-cases (equal kept hosts)) [
  | inl p ↦ rw p (equal-eq kept hosts p)
  | inr p ↦ rw p refl
]

HasHost-discovered : (h : String) (r : Result Bool) → is_blank h ≡ false → HasHost (discovered h r)
HasHost-discovered h (ok b) e = e
HasHost-discovered h (err x) e = e

All-HasHost :
    (check : String → Result Bool) (hosts : List String)
    → All (λ h. is_blank h ≡ false) hosts
    → All HasHost (map (discover check) hosts)
All-HasHost check [] h = tt
All-HasHost check (x ∷ xs) h = (HasHost-discovered x (check x) h.0, All-HasHost check xs h.1)

-- A host that cannot be reached, or whose answer cannot be read, does not say that it is the primary.
abbrev pub claims : Result Bool → Bool
claims (ok b) = b
claims (err e) = false

module _ (check : String → Result Bool) (wait : Pool) (laws : PoolLaws wait) where
  -- The hosts that say that they are the primary, in the order in which they were given.
  abbrev pub claimants : List String → List String
  claimants [] = []
  claimants (h ∷ hosts) = if claims (check h) then h ∷ claimants hosts else claimants hosts

  primaries-discover :
      (hosts : List String) → primaries (map (discover check) hosts) ≡ claimants hosts
  primaries-discover [] = refl
  primaries-discover (h ∷ hosts) = by_reply (check h) (primaries-discover hosts)
    where
      by_reply :
          (r : Result Bool)
          → primaries (map (discover check) hosts) ≡ claimants hosts
          → primaries (discovered h r ∷ map (discover check) hosts)
            ≡ (if claims r then h ∷ claimants hosts else claimants hosts)
      by_reply (ok true) e = ap (λ l. h ∷ l) e
      by_reply (ok false) e = e
      by_reply (err x) e = e

  -- The service keeps the hosts, and the answer is that for some arrangement of the claimants.
  abbrev pub Decided : List String → List String × Option Answer → Type 0
  Decided hosts p =
      (p.0 ≡ hosts)
      × ((arranged : List String) × Permᴰ (claimants hosts) arranged
          × (p.1 ≡ some (decide arranged)))

  -- If the pool returns the results of its tasks in some order, and there is a host and no host's
  -- text is empty, then `FetchPrimary` does not panic, keeps the hosts, and answers with the
  -- one host that says that it is the primary, with "not found" if there is none, and with a split
  -- brain if there are several: the answer is `decide` of those hosts in some order.
  pub fetch_primary-Decided :
      (kept hosts : List String)
      → 1 ≤ length hosts
      → All (λ h. is_blank h ≡ false) hosts
      → Decided hosts (fetch_primary check wait kept hosts)
  unfolding fetch_primary
  fetch_primary-Decided kept hosts n b =
      let (arrived, p, e) = laws.wait_lem (length hosts) (map (discover check) hosts) n in
      (
        set_hosts_lem kept hosts,
        (
          primaries arrived,
          subst (λ l. Permᴰ l (primaries arrived)) (primaries-discover hosts) (primaries-Perm p),
          ap answered e
              ∙ ap some (choose-decide arrived (All-Perm HasHost p (All-HasHost check hosts b))),
        ),
      )

  -- If moreover exactly one host says that it is the primary, it is the answer, whatever the order
  -- in which the results come.
  pub fetch_primary_unique :
      (kept hosts : List String) (h : String)
      → 1 ≤ length hosts
      → All (λ x. is_blank x ≡ false) hosts
      → claimants hosts ≡ h ∷ []
      → (fetch_primary check wait kept hosts).1 ≡ some (h, none)
  fetch_primary_unique kept hosts h n b one =
      let (_, (arranged, p, e)) = fetch_primary-Decided kept hosts n b in
      e ∙ ap (λ l. some (decide l)) (only h arranged (subst (λ l. Permᴰ l arranged) one p))
