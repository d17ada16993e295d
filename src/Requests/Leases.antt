-- ===== src/Requests/Leases.antt =====
-- internal/domains/dhcp: the leases of a DHCP server as a table. A line is its words, as
-- `strings.Split` at spaces makes them of the trimmed line.
use Prim.Native.String.{◌++◌}
use sdwan_agent.Prelude.{
  String, ℕ, suc, Bool, false, not, ◌&&◌, map, has_prefix, Option, none, some, List, [], ◌∷◌,
  is_blank, str_eq, contains_by, if◌then◌else◌,
}
use sdwan_agent.Errors.{Error, Result, ok, err, map_result, index_out_of_range}
use sdwan_agent.Objects.Bodies.{lease_table}
use sdwan_agent.Action.{Action, ret, query, lift, or_return, ◌>>=◌, ◌>>◌}
use sdwan_agent.Action.Calls.{lease_lines}
use sdwan_agent.Requests.{Incoming, Job, unmarshal_valid, respond, with_error_response}

-- `headerKeys`, which are the keys of `searchKeys` too.
abbrev pub header_keys : List String
header_keys = "#" ∷ "MAC" ∷ "IP" ∷ "HOSTNAME" ∷ "BEGIN" ∷ "END" ∷ "MANUFACTURER" ∷ []

unfoldable pub is_key : String → Bool
is_key word = contains_by (str_eq word) header_keys

-- A word is added to the buffer, after a space if it is not empty.
abbrev pub add_word : String → String → String
add_word buf word = if is_blank buf then word else buf ++ (" " ++ word)

-- A buffer that is not empty becomes a value of the row.
abbrev pub flush : String → List String → List String
flush buf values = if is_blank buf then values else buf ∷ values

-- The loop over the words, with the buffer.
unfoldable pub row_values : String → List String → List String
unfolding is_key
row_values buf [] = flush buf []
row_values buf (word ∷ words) =
    let rest = row_values "" words in
    let longer = row_values (add_word buf word) words in
    if is_key word then flush buf rest else longer

pub record Row : Type 0 where
  pub number : ℕ
  pub values : List String

-- Lines that are empty or that start with "To get manufacturer" are passed over.
abbrev pub is_skipped : List String → Bool
is_skipped (w ∷ []) = is_blank w
is_skipped (w ∷ v ∷ u ∷ _) = str_eq w "To" && (str_eq v "get" && has_prefix u "manufacturer")
is_skipped _ = false

-- `net.ParseCIDR`, `net.ParseIP` and `Contains`, as `skipRow` calls them with the filter and an
-- address: does the network contain the address, or is one of them no such text.
abbrev pub Contains : Type 0
Contains = String → String → Result Bool

module _ (contains : Contains) (filter_link_ip : Option String) where
  -- What `skipRow` says, with an error that is only logged.
  abbrev pub skip_unless : Result Bool → Bool
  skip_unless (ok inside) = not inside
  skip_unless (err e) = false

  abbrev pub skip_for : Option String → String → Bool
  skip_for none ip = false
  skip_for (some link) ip = skip_unless (contains link ip)

  abbrev pub skip_row : String → Bool
  skip_row ip = skip_for filter_link_ip ip

  abbrev pub row_of : ℕ → List String → Row
  row_of n values = record { number = n; values = values }

  -- The row is appended, unless it is skipped. Its address is the second value.
  abbrev pub append_row : ℕ → List String → (ℕ → Result (List Row)) → Result (List Row)
  append_row n (v ∷ ip ∷ vs) rest =
      if skip_row ip
      then rest n
      else map_result (λ rows. row_of n (v ∷ ip ∷ vs) ∷ rows) (rest (suc n))
  append_row n values rest = err index_out_of_range

  -- The loop of `formatDHCPLeaseToTable`, with the next row's number.
  unfoldable pub format_leases : ℕ → List (List String) → Result (List Row)
  unfolding row_values
  format_leases n [] = ok []
  format_leases n (line ∷ lines) =
      if is_skipped line
      then format_leases n lines
      else append_row n (row_values "" line) (λ k. format_leases k lines)

  abbrev pub format_output : List (List String) × Option Error → Action (List Row)
  format_output (lines, e) = do rows ← lift (format_leases 1 lines); or_return e; ret rows

-- The request of `FetchDHCPLeases`.
pub record LeaseRequest : Type 0 where
  pub vrf_name : String
  pub filter_link_ip : Option String

-- `FetchDHCPLeases`; the rows stand for the table that is rendered and encoded.
abbrev pub fetch_dhcp_leases : Contains → Incoming LeaseRequest → Action Job
fetch_dhcp_leases contains i = with_error_response (do
  r ← unmarshal_valid i
  lines ← query (lease_lines r.vrf_name)
  rows ← format_output contains r.filter_link_ip lines
  respond (lease_table (map (λ row. row.values) rows)))
