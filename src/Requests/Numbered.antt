-- ===== src/Requests/Numbered.antt =====
-- The rows that `formatDHCPLeaseToTable` of internal/domains/dhcp/formatter.go makes.
use sdwan_agent.Prelude.{
  ◌≡◌, refl, sym, ap, String, ℕ, suc, Bool, true, false, Option, none, some, List, [], ◌∷◌, All,
  if◌then◌else◌,
}
use sdwan_agent.Errors.{Result, ok, err, map_result, index_out_of_range}
use sdwan_agent.Requests.Leases.{
  Row, Contains, is_skipped, row_values, skip_unless, skip_row, row_of, append_row, format_leases,
}

-- The values of the lines that are not passed over.
abbrev pub cons_unless : Bool → List String → List (List String) → List (List String)
cons_unless true values rest = rest
cons_unless false values rest = values ∷ rest

abbrev pub candidates : List (List String) → List (List String)
candidates [] = []
candidates (line ∷ lines) = cons_unless (is_skipped line) (row_values "" line) (candidates lines)

-- A second value is there: the address.
abbrev pub HasAddress : List String → Type 0
HasAddress (v ∷ ip ∷ vs) = Unit
HasAddress _ = ⊥

-- The rows of the values, numbered from a number on.
abbrev pub numbered : ℕ → List (List String) → List Row
numbered n [] = []
numbered n (values ∷ rest) = record { number = n; values = values } ∷ numbered (suc n) rest

-- An address is excluded if there is a filter and its network does not contain the address. An
-- address or a filter that cannot be read excludes nothing.
abbrev pub outside : Result Bool → Bool
outside (ok true) = false
outside (ok false) = true
outside (err e) = false

abbrev pub excluded : Contains → Option String → String → Bool
excluded contains none ip = false
excluded contains (some network) ip = outside (contains network ip)

skip_unless-outside :
    (contains : Contains) (link : Option String) (r : Result Bool)
    → skip_unless contains link r ≡ outside r
skip_unless-outside contains link (ok true) = refl
skip_unless-outside contains link (ok false) = refl
skip_unless-outside contains link (err e) = refl

skip_row-excluded :
    (contains : Contains) (link : Option String) (ip : String)
    → skip_row contains link ip ≡ excluded contains link ip
skip_row-excluded contains none ip = refl
skip_row-excluded contains (some network) ip =
    skip_unless-outside contains (some network) (contains network ip)

module _ (contains : Contains) (link : Option String) where
  -- The candidates whose address the filter lets through.
  abbrev pub belonging : List (List String) → List (List String)
  belonging [] = []
  belonging ((v ∷ ip ∷ vs) ∷ rest) =
      cons_unless (excluded contains link ip) (v ∷ ip ∷ vs) (belonging rest)
  belonging (_ ∷ rest) = belonging rest

  abbrev pub Formatted : ℕ → List (List String) → Result (List Row) → Type 0
  Formatted n cs (ok rows) = All HasAddress cs × (rows ≡ numbered n (belonging cs))
  Formatted n cs (err e) = (e ≡ index_out_of_range) × ¬ (All HasAddress cs)

  module _ (n : ℕ) (v ip : String) (vs : List String) (cs : List (List String)) where
    passed_over :
        (r : Result (List Row))
        → excluded contains link ip ≡ true
        → Formatted n cs r
        → Formatted n ((v ∷ ip ∷ vs) ∷ cs) r
    passed_over (ok rows) e (h, h') = ((tt, h), rw e h')
    passed_over (err x) e (h, h') = (h, λ all. h' all.1)

    numbered_row :
        (r : Result (List Row))
        → excluded contains link ip ≡ false
        → Formatted (suc n) cs r
        → Formatted n
            ((v ∷ ip ∷ vs) ∷ cs)
            (map_result (λ rows. row_of contains link n (v ∷ ip ∷ vs) ∷ rows) r)
    numbered_row (ok rows) e (h, h') =
        ((tt, h), rw e (ap (λ (rs : List Row). row_of contains link n (v ∷ ip ∷ vs) ∷ rs) h'))
    numbered_row (err x) e (h, h') = (h, λ all. h' all.1)

    appended :
        (b : Bool) (rest : ℕ → Result (List Row))
        → excluded contains link ip ≡ b
        → ((k : ℕ) → Formatted k cs (rest k))
        → Formatted n ((v ∷ ip ∷ vs) ∷ cs) (
            if b
            then rest n
            else map_result (λ rows. row_of contains link n (v ∷ ip ∷ vs) ∷ rows) (rest (suc n)))
    appended true rest e h = passed_over (rest n) e (h n)
    appended false rest e h = numbered_row (rest (suc n)) e (h (suc n))

  append_row-Formatted :
      (n : ℕ) (values : List String) (cs : List (List String)) (rest : ℕ → Result (List Row))
      → ((k : ℕ) → Formatted k cs (rest k))
      → Formatted n (values ∷ cs) (append_row contains link n values rest)
  append_row-Formatted n [] cs rest h = (refl, λ all. all.0)
  append_row-Formatted n (v ∷ []) cs rest h = (refl, λ all. all.0)
  append_row-Formatted n (v ∷ ip ∷ vs) cs rest h =
      appended n v ip vs cs (skip_row contains link ip) rest
        (sym (skip_row-excluded contains link ip)) h

  -- The formatter makes one row, with consecutive numbers from the first number on, of each line
  -- that it does not pass over and whose address the filter does not exclude, in the order of the
  -- lines, if all lines that it does not pass over have a second value. It panics exactly if one of
  -- them has none.
  pub format_leases-Formatted :
      (lines : List (List String)) (n : ℕ)
      → Formatted n (candidates lines) (format_leases contains link n lines)
  unfolding format_leases
  format_leases-Formatted [] n = (tt, refl)
  format_leases-Formatted (line ∷ lines) n =
      by_skipped (is_skipped line) (λ k. format_leases-Formatted lines k)
    where
      by_skipped :
          (b : Bool)
          → ((k : ℕ) → Formatted k (candidates lines) (format_leases contains link k lines))
          → Formatted n (cons_unless b (row_values "" line) (candidates lines)) (
              if b
              then format_leases contains link n lines
              else append_row contains link n
                  (row_values "" line)
                  (λ k. format_leases contains link k lines))
      by_skipped true ih = ih n
      by_skipped false ih =
          append_row-Formatted n (row_values "" line) (candidates lines)
            (λ k. format_leases contains link k lines) ih
