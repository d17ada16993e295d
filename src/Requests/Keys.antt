-- ===== src/Requests/Keys.antt =====
-- The keys of the lines of a modem's interface: `parseInterfaceInfo` of internal/domains/lte/service.go.
use text.Mathlib.TextEquality.{eq_iff}
use sdwan_agent.Prelude.{
  ◌≡◌, refl, sym, ap, ◌∙◌, subst, String, Bool, true, false, not, ◌&&◌, ◌||◌, ◌==◌, none, List, [],
  ◌∷◌, str_eq, has_prefix, all_by, All, Bool-cases, inl, inr, if◌then◌else◌,
}
use mathlib.Core.Path.{fun_ext}
use sdwan_agent.Objects.Lte.{LteStat}
use sdwan_agent.Requests.Modems.{
  Texts, Field, type_field, hw_addr_field, mtu_field, general_state_field, connection_field,
  ip_gateway_field, ip_address_field, dns_field, other_field, field_of, pair_of, parse_lines,
}
use sdwan_agent.Requests.Parsed.{index, value_if, values_of, described, parse_lines-described}

-- Does a key name a field.
abbrev pub names : Field → String → Bool
names type_field key = str_eq key "GENERAL.TYPE"
names hw_addr_field key = str_eq key "GENERAL.HWADDR"
names mtu_field key = str_eq key "GENERAL.MTU"
names general_state_field key = str_eq key "GENERAL.STATE"
names connection_field key = str_eq key "GENERAL.CONNECTION"
names ip_gateway_field key = str_eq key "IP4.GATEWAY"
names ip_address_field key = has_prefix key "IP4.ADDRESS"
names dns_field key = has_prefix key "IP4.DNS" && not (has_prefix key "IP4.ADDRESS")
names other_field key = not (
    str_eq key "GENERAL.TYPE"
    || (str_eq key "GENERAL.HWADDR"
        || (str_eq key "GENERAL.MTU"
            || (str_eq key "GENERAL.STATE"
                || (str_eq key "GENERAL.CONNECTION"
                    || (str_eq key "IP4.GATEWAY"
                        || (has_prefix key "IP4.ADDRESS" || has_prefix key "IP4.DNS")))))))

abbrev all_fields : List Field
all_fields =
    type_field ∷ hw_addr_field ∷ mtu_field ∷ general_state_field ∷ connection_field
    ∷ ip_gateway_field ∷ ip_address_field ∷ dns_field ∷ other_field ∷ []

abbrev iff : Bool → Bool → Bool
iff a b = if a then b else not b

iff-eq : (a b : Bool) → iff a b ≡ true → a ≡ b
iff-eq true true h = refl
iff-eq true false h = sym h
iff-eq false true h = h
iff-eq false false h = refl

and-left : (a b : Bool) → (a && b) ≡ true → a ≡ true
and-left true b h = refl
and-left false b h = h

and-right : (a b : Bool) → (a && b) ≡ true → b ≡ true
and-right true b h = h
and-right false b h = cc

-- A test that all fields pass.
passed : (p : Field → Bool) (fs : List Field) → all_by p fs ≡ true → All (λ f. p f ≡ true) fs
passed p [] h = tt
passed p (f ∷ fs) h =
    (and-left (p f) (all_by p fs) h, passed p fs (and-right (p f) (all_by p fs) h))

at : (p : Field → Bool) (f : Field) → All (λ g. p g ≡ true) all_fields → p f ≡ true
at p type_field h = h.0
at p hw_addr_field h = h.1.0
at p mtu_field h = h.1.1.0
at p general_state_field h = h.1.1.1.0
at p connection_field h = h.1.1.1.1.0
at p ip_gateway_field h = h.1.1.1.1.1.0
at p ip_address_field h = h.1.1.1.1.1.1.0
at p dns_field h = h.1.1.1.1.1.1.1.0
at p other_field h = h.1.1.1.1.1.1.1.1.0

all_fields-at : (p : Field → Bool) (f : Field) → all_by p all_fields ≡ true → p f ≡ true
all_fields-at p f h = at p f (passed p all_fields h)

-- The field that the code finds is the one that the key names.
abbrev agrees : String → Field → Bool
agrees key f = iff (index f == index (field_of key)) (names f key)

abbrev Agrees : String → Type 0
Agrees key = all_by (agrees key) all_fields ≡ true

equal_to : (key literal : String) → str_eq key literal ≡ true → Agrees literal → Agrees key
equal_to key literal e h = subst Agrees (sym ((eq_iff key literal).0 e)) h

agree : (key : String) → Agrees key
agree key = elim (Bool-cases (str_eq key "GENERAL.TYPE")) [
  | inl e ↦ equal_to key "GENERAL.TYPE" e refl
  | inr e1 ↦ elim (Bool-cases (str_eq key "GENERAL.HWADDR")) [
    | inl e ↦ equal_to key "GENERAL.HWADDR" e refl
    | inr e2 ↦ elim (Bool-cases (str_eq key "GENERAL.MTU")) [
      | inl e ↦ equal_to key "GENERAL.MTU" e refl
      | inr e3 ↦ elim (Bool-cases (str_eq key "GENERAL.STATE")) [
        | inl e ↦ equal_to key "GENERAL.STATE" e refl
        | inr e4 ↦ elim (Bool-cases (str_eq key "GENERAL.CONNECTION")) [
          | inl e ↦ equal_to key "GENERAL.CONNECTION" e refl
          | inr e5 ↦ elim (Bool-cases (str_eq key "IP4.GATEWAY")) [
            | inl e ↦ equal_to key "IP4.GATEWAY" e refl
            | inr e6 ↦ elim (Bool-cases (has_prefix key "IP4.ADDRESS")) [
              | inl p ↦ elim (Bool-cases (has_prefix key "IP4.DNS")) [
                | inl q ↦ rw (e1, e2, e3, e4, e5, e6, p, q) refl
                | inr q ↦ rw (e1, e2, e3, e4, e5, e6, p, q) refl
              ]
              | inr p ↦ elim (Bool-cases (has_prefix key "IP4.DNS")) [
                | inl q ↦ rw (e1, e2, e3, e4, e5, e6, p, q) refl
                | inr q ↦ rw (e1, e2, e3, e4, e5, e6, p, q) refl
              ]
            ]
          ]
        ]
      ]
    ]
  ]
]

field_of-names : (f : Field) (key : String) → (index f == index (field_of key)) ≡ names f key
field_of-names f key =
    iff-eq (index f == index (field_of key)) (names f key)
      (all_fields-at (agrees key) f (agree key))

module _ (texts : Texts) where
  -- The value of a line with a colon whose key, trimmed, names a field, if the line is not blank.
  abbrev pub value_after : Field → String × String × Bool → List String → List String
  value_after f (key, value, false) rest = rest
  value_after f (key, value, true) rest =
      if names f (texts.trim_space key) then texts.trim_space value ∷ rest else rest

  abbrev pub value_in : Field → String → List String → List String
  value_in f trimmed rest =
      if str_eq trimmed "" then rest else value_after f (texts.cut trimmed ":") rest

  -- The values of the lines whose key names a field, in order.
  abbrev pub values_named : Field → List String → List String
  values_named f [] = []
  values_named f (line ∷ lines) = value_in f (texts.trim_space line) (values_named f lines)

  value_after-pair_of :
      (f : Field) (parts : String × String × Bool) (rest : List String)
      → value_if f (pair_of texts parts) rest ≡ value_after f parts rest
  value_after-pair_of f (key, value, false) rest = refl
  value_after-pair_of f (key, value, true) rest = rw (field_of-names f (texts.trim_space key)) refl

  values_of-named :
      (f : Field) (lines : List String) → values_of texts f lines ≡ values_named f lines
  values_of-named f [] = refl
  values_of-named f (line ∷ lines) =
      rw (values_of-named f lines) (by_blank (str_eq (texts.trim_space line) ""))
    where
      by_blank :
          (b : Bool)
          → value_if f
              (if b then none else pair_of texts (texts.cut (texts.trim_space line) ":"))
              (values_named f lines)
            ≡ (if b
                then values_named f lines
                else value_after f (texts.cut (texts.trim_space line) ":") (values_named f lines))
      by_blank true = refl
      by_blank false =
          value_after-pair_of f (texts.cut (texts.trim_space line) ":") (values_named f lines)

  -- Parsing gives, for the type, the address, the state, the connection and the gateway, the value of
  -- the last line with the key that nmcli gives it, or what was there; for the IP addresses and the
  -- name servers what was there and then the values of all lines whose keys start with theirs, in
  -- order. The MTU is the number of the last line with its key, and the first one that is no number
  -- makes parsing fail with its error.
  pub parse_lines_lem :
      (lines : List String) (stat : LteStat)
      → parse_lines texts lines stat ≡ described texts (λ f. values_named f lines) stat
  parse_lines_lem lines stat =
      parse_lines-described texts lines stat
      ∙ ap (λ (values : Field → List String). described texts values stat)
          (fun_ext (λ f. values_of-named f lines))
