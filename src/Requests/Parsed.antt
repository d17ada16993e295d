-- ===== src/Requests/Parsed.antt =====
-- What the lines of a modem's interface say: `parseInterfaceInfo` of internal/domains/lte/service.go.
use sdwan_agent.Prelude.{
  ◌≡◌, refl, ap, ◌∙◌, String, ℕ, ◌==◌, Option, none, some, List, [], ◌∷◌, ◌++◌, map, if◌then◌else◌,
}
use mathlib.Core.List.{append_assoc, append-nil}
use sdwan_agent.Errors.{Result, ok, err, map_result}
use sdwan_agent.Objects.Lte.{LteStat}
use sdwan_agent.Requests.Modems.{
  Texts, Field, type_field, hw_addr_field, mtu_field, general_state_field, connection_field,
  ip_gateway_field, ip_address_field, dns_field, other_field, entry_of, set_entry, set_mtu,
  or_failed, parse_lines,
}

-- Which field an entry has.
abbrev pub index : Field → ℕ
index type_field = 0
index hw_addr_field = 1
index mtu_field = 2
index general_state_field = 3
index connection_field = 4
index ip_gateway_field = 5
index ip_address_field = 6
index dns_field = 7
index other_field = 8

abbrev pub value_if : Field → Option (Field × String) → List String → List String
value_if f none rest = rest
value_if f (some (g, value)) rest = if index f == index g then value ∷ rest else rest

-- The last of some values, or a default.
abbrev pub last_or : {A : Type 0} → A → List A → A
last_or x [] = x
last_or x (y ∷ ys) = last_or y ys

-- The numbers that results hold, or the first error.
abbrev pub and_number : Result ℕ → Result (List ℕ) → Result (List ℕ)
and_number (ok n) rest = map_result (λ ns. n ∷ ns) rest
and_number (err e) rest = err e

abbrev pub all_numbers : List (Result ℕ) → Result (List ℕ)
all_numbers [] = ok []
all_numbers (r ∷ rs) = and_number r (all_numbers rs)

module _ (texts : Texts) where
  -- The values of the lines with a field, in order.
  abbrev pub values_of : Field → List String → List String
  values_of f [] = []
  values_of f (line ∷ lines) = value_if f (entry_of texts line) (values_of f lines)

  -- The statistics with the values of each field, and the numbers of its MTU values.
  abbrev pub filled : (Field → List String) → LteStat → List ℕ → LteStat
  filled values stat mtus = record stat {
    type_name = last_or stat.type_name (values type_field);
    hw_addr = last_or stat.hw_addr (values hw_addr_field);
    mtu = last_or stat.mtu mtus;
    general_state = last_or stat.general_state (values general_state_field);
    connection = last_or stat.connection (values connection_field);
    ip_gateway = last_or stat.ip_gateway (values ip_gateway_field);
    ip_addresses = stat.ip_addresses ++ values ip_address_field;
    dns = stat.dns ++ values dns_field;
  }

  abbrev pub mtu_numbers : (Field → List String) → Result (List ℕ)
  mtu_numbers values = all_numbers (map (λ value. texts.atoi value) (values mtu_field))

  -- What `parseInterfaceInfo` is to return.
  abbrev pub described : (Field → List String) → LteStat → Result LteStat
  described values stat = map_result (filled values stat) (mtu_numbers values)

  described-mtu :
      (values : Field → List String) (stat : LteStat) (n : ℕ) (r : Result (List ℕ))
      → map_result (filled values (record stat { mtu = n })) r
        ≡ map_result (filled values stat) (map_result (λ ns. n ∷ ns) r)
  described-mtu values stat n (ok ns) = refl
  described-mtu values stat n (err e) = refl

  set_mtu-described :
      (values : Field → List String) (next : LteStat → Result LteStat)
      → ((stat : LteStat) → next stat ≡ described values stat)
      → (stat : LteStat) (r : Result ℕ)
      → or_failed texts (set_mtu stat r) next
        ≡ map_result (filled values stat) (and_number r (mtu_numbers values))
  set_mtu-described values next ih stat (ok n) =
      ih (record stat { mtu = n }) ∙ described-mtu values stat n (mtu_numbers values)
  set_mtu-described values next ih stat (err e) = refl

  -- One more line before lines with some values.
  set_entry-described :
      (values : Field → List String) (next : LteStat → Result LteStat)
      → ((stat : LteStat) → next stat ≡ described values stat)
      → (o : Option (Field × String)) (stat : LteStat)
      → or_failed texts (set_entry texts o stat) next
        ≡ described (λ f. value_if f o (values f)) stat
  set_entry-described values next ih none stat = ih stat
  set_entry-described values next ih (some (type_field, v)) stat = ih _
  set_entry-described values next ih (some (hw_addr_field, v)) stat = ih _
  set_entry-described values next ih (some (mtu_field, v)) stat =
      set_mtu-described values next ih stat (texts.atoi v)
  set_entry-described values next ih (some (general_state_field, v)) stat = ih _
  set_entry-described values next ih (some (connection_field, v)) stat = ih _
  set_entry-described values next ih (some (ip_gateway_field, v)) stat = ih _
  set_entry-described values next ih (some (ip_address_field, v)) stat =
      ih _
      ∙ ap
          (λ l.
            map_result (λ mtus. record (filled values stat mtus) { ip_addresses = l })
              (mtu_numbers values))
          (append_assoc stat.ip_addresses (v ∷ []) (values ip_address_field))
  set_entry-described values next ih (some (dns_field, v)) stat =
      ih _
      ∙ ap
          (λ l.
            map_result (λ mtus. record (filled values stat mtus) { dns = l }) (mtu_numbers values))
          (append_assoc stat.dns (v ∷ []) (values dns_field))
  set_entry-described values next ih (some (other_field, v)) stat = ih stat

  described-none : (stat : LteStat) → ok stat ≡ described (λ _. []) stat
  described-none stat = rw (append-nil stat.ip_addresses, append-nil stat.dns) refl

  -- Parsing by the fields that the code finds.
  pub parse_lines-described :
      (lines : List String) (stat : LteStat)
      → parse_lines texts lines stat ≡ described (λ f. values_of f lines) stat
  unfolding parse_lines
  parse_lines-described [] stat = described-none stat
  parse_lines-described (line ∷ lines) stat =
      set_entry-described (λ f. values_of f lines) (parse_lines texts lines)
        (parse_lines-described lines) (entry_of texts line) stat
