-- ===== src/Requests/Chosen.antt =====
-- Which configuration `GetPortConfigData` of internal/domains/port/service.go gives a port.
use text.Mathlib.TextEquality.{eq_iff}
use sdwan_agent.Prelude.{
  ◌≡◌, ◌≢◌, ◌⊎◌, inl, inr, subst, map, contains_by, ◌&&◌, ◌||◌, refl, ap, String, Bool, true, false,
  Option, none, some, List, [], ◌∷◌, ◌++◌, str_eq, All, if◌then◌else◌,
}
use sdwan_agent.Errors.{Result, ok, err, nil_dereference}
use sdwan_agent.Config.{PortConfig}
use sdwan_agent.Objects.Ports.{DevicePort}
use sdwan_agent.Requests.Ports.{
  configured_port, config_of, configs_of, is_untagged, is_parent, tag_exists, or_else,
}

abbrev pub IsNamed : String → PortConfig → Type 0
IsNamed name c = str_eq c.name name ≡ true

abbrev pub IsUnnamed : String → PortConfig → Type 0
IsUnnamed name c = str_eq c.name name ≡ false

-- The last of the name, or none of it.
abbrev pub LastNamed : String → List PortConfig → Option PortConfig → Type 0
LastNamed name cs none = All (IsUnnamed name) cs
LastNamed name cs (some c) =
    (before : List PortConfig) × (after : List PortConfig) × (cs ≡ before ++ (c ∷ after))
    × IsNamed name c
    × All (IsUnnamed name) after

module _ (name : String) where
  earlier :
      (d : PortConfig) (cs : List PortConfig) (b : Bool) (o : Option PortConfig)
      → str_eq d.name name ≡ b
      → LastNamed name cs o
      → LastNamed name (d ∷ cs) (or_else o (if b then some d else none))
  earlier d cs b (some c) e (before, after, e', h, others) =
      (d ∷ before, after, ap (λ l. d ∷ l) e', h, others)
  earlier d cs true none e h = ([], cs, refl, e, h)
  earlier d cs false none e h = (e, h)

  configured_port-LastNamed : (cs : List PortConfig) → LastNamed name cs (configured_port cs name)
  unfolding configured_port
  configured_port-LastNamed [] = tt
  configured_port-LastNamed (d ∷ cs) =
      earlier d cs (str_eq d.name name) (configured_port cs name) refl
        (configured_port-LastNamed cs)

-- A tagged port that stands on the port of a name.
abbrev pub StandsOn : String → PortConfig → Type 0
StandsOn name c = (c.is_tag ≡ true) × (c.tag_parent ≡ some name)

-- A list with an entry of a kind, or with none.
abbrev pub HasTagged : String → List PortConfig → Type 0
HasTagged name cs =
    (before : List PortConfig) × (c : PortConfig) × (after : List PortConfig) × (cs
      ≡ before ++ (c ∷ after))
    × StandsOn name c

abbrev pub HasNone : String → List PortConfig → Type 0
HasNone name = All (λ c. ¬ (StandsOn name c))

-- A port without a configuration: LAN, or WAN if a tagged port stands on it.
abbrev pub named_port : String → String → PortConfig
named_port name port_type = record {
  name = name;
  port_type = port_type;
  is_tag = false;
  tag_parent = none;
  table_ids = [];
  wan = none;
  lte = none;
}

abbrev pub IsDefault : List PortConfig → String → PortConfig → Type 0
IsDefault cs name chosen =
    (HasTagged name cs × (chosen ≡ named_port name "wan"))
    ⊎ (HasNone name cs × (chosen ≡ named_port name "lan"))

-- The port's name, with the last configuration of the name or the default.
abbrev pub Chosen : List PortConfig → DevicePort → PortConfig → Type 0
Chosen cs port chosen =
    (chosen.name ≡ port.name)
    × (LastNamed port.name cs (some chosen)
        ⊎ (LastNamed port.name cs none × IsDefault cs port.name chosen))

abbrev pub ChosenEach : List PortConfig → List DevicePort → List PortConfig → Type 0
ChosenEach cs [] [] = Unit
ChosenEach cs (port ∷ ports) (chosen ∷ rest) = Chosen cs port chosen × ChosenEach cs ports rest
ChosenEach cs _ _ = ⊥

-- A tagged port says on which port it stands.
abbrev pub IsTagged : PortConfig → Type 0
IsTagged c = c.is_tag ≡ true → c.tag_parent ≢ none

-- What the ports are reported with, or a panic.
abbrev pub Listed : List PortConfig → List DevicePort → Result (List PortConfig) → Type 0
Listed cs ports (ok chosen) = All IsTagged cs × ChosenEach cs ports chosen
Listed cs ports (err e) = (e ≡ nil_dereference) × ¬ (All IsTagged cs)

-- An entry that passes a test, or none.
abbrev Found : (PortConfig → Bool) → List PortConfig → Bool → Type 0
Found p cs true =
    (before : List PortConfig) × (c : PortConfig) × (after : List PortConfig) × (cs
      ≡ before ++ (c ∷ after))
    × (p c ≡ true)
Found p cs false = All (λ c. p c ≡ false) cs

Found-cons :
    (p : PortConfig → Bool) (c : PortConfig) (cs : List PortConfig) (b b' : Bool)
    → p c ≡ b
    → Found p cs b'
    → Found p (c ∷ cs) (b || b')
Found-cons p c cs true b' e h = ([], c, cs, refl, e)
Found-cons p c cs false true e (before, d, after, e', h) =
    (c ∷ before, d, after, ap (λ l. c ∷ l) e', h)
Found-cons p c cs false false e h = (e, h)

contains_by-Found : (p : PortConfig → Bool) (cs : List PortConfig) → Found p cs (contains_by p cs)
contains_by-Found p [] = tt
contains_by-Found p (c ∷ cs) =
    Found-cons p c cs (p c) (contains_by p cs) refl (contains_by-Found p cs)

All-implies :
    {P Q : PortConfig → Type 0} (cs : List PortConfig)
    → ((c : PortConfig) → P c → Q c)
    → All P cs
    → All Q cs
All-implies [] f h = tt
All-implies (c ∷ cs) f h = (f c h.0, All-implies cs f h.1)

All-middle :
    (P : PortConfig → Type 0) (before : List PortConfig) (c : PortConfig) (after : List PortConfig)
    → All P (before ++ (c ∷ after))
    → P c
All-middle P [] c after h = h.0
All-middle P (d ∷ before) c after h = All-middle P before c after h.1

-- The tests of the code say what they are to say.
module _ (name : String) where
  stands :
      (b : Bool) (o : Option String)
      → (b && elim o [ none ↦ false | some parent ↦ str_eq parent name ]) ≡ true
      → (b ≡ true) × (o ≡ some name)
  stands true none h = cc
  stands true (some p) h = (refl, ap some ((eq_iff p name).0 h))
  stands false o h = cc

  stands_not :
      (b : Bool) (o : Option String)
      → (b && elim o [ none ↦ false | some parent ↦ str_eq parent name ]) ≡ false
      → ¬ ((b ≡ true) × (o ≡ some name))
  stands_not true none h = λ q. cc (q.1)
  stands_not true (some p) h =
      λ q. let same_name : p ≡ name = cc (q.1) in cc (h, (eq_iff p name).1 same_name)
  stands_not false o h = λ q. cc (q.0)

untagged :
    (b : Bool) (o : Option String)
    → (b && elim o [ none ↦ true | some _ ↦ false ]) ≡ true
    → ¬ (b ≡ true → o ≢ none)
untagged true none h = λ q. q refl refl
untagged true (some p) h = cc
untagged false o h = cc

tagged :
    (b : Bool) (o : Option String)
    → (b && elim o [ none ↦ true | some _ ↦ false ]) ≡ false
    → b ≡ true
    → o ≢ none
tagged true none h = cc
tagged true (some p) h = λ _ e. cc
tagged false o h = λ t. cc

module _ (cs : List PortConfig) where
  by_configured :
      (port : DevicePort) (o : Option PortConfig) (b : Bool)
      → LastNamed port.name cs o
      → Found (is_parent port.name) cs b
      → Chosen cs port
          (elim o [ none ↦ named_port port.name (if b then "wan" else "lan") | some c ↦ c ])
  by_configured port none true h (before, c, after, e, p) =
      (refl, inr (h, inl ((before, c, after, e, stands port.name c.is_tag c.tag_parent p), refl)))
  by_configured port none false h f = (
    refl,
    inr (h, inr (All-implies cs (λ c. stands_not port.name c.is_tag c.tag_parent) f, refl)),
  )
  by_configured port (some c) b (before, after, e, h, others) f =
      ((eq_iff c.name port.name).0 h, inl (before, after, e, h, others))

  config_of-Chosen : (port : DevicePort) → Chosen cs port (config_of cs port)
  unfolding config_of configured_port tag_exists
  config_of-Chosen port =
      by_configured port (configured_port cs port.name) (tag_exists cs port.name)
        (configured_port-LastNamed port.name cs) (contains_by-Found (is_parent port.name) cs)

  map-ChosenEach : (ports : List DevicePort) → ChosenEach cs ports (map (config_of cs) ports)
  map-ChosenEach [] = tt
  map-ChosenEach (port ∷ ports) = (config_of-Chosen port, map-ChosenEach ports)

  by_tagged :
      (ports : List DevicePort) (b : Bool)
      → Found is_untagged cs b
      → Listed cs ports (if b then err nil_dereference else ok (map (config_of cs) ports))
  by_tagged ports true (before, c, after, e, p) = (
    refl,
    λ all.
        untagged c.is_tag c.tag_parent p
          (All-middle IsTagged before c after (subst (All IsTagged) e all)),
  )
  by_tagged ports false f =
      (All-implies cs (λ c. tagged c.is_tag c.tag_parent) f, map-ChosenEach ports)

  -- If a configuration is tagged and has no tag, the ports' configurations are not reported: the code
  -- panics, and only then. Otherwise each port of the device is reported, in order, with a
  -- configuration of its name: the last one of that name, and if there is none, a plain WAN port if a
  -- tagged configuration has the name as its parent, or a plain LAN port if none has.
  pub configs_of-Listed : (ports : List DevicePort) → Listed cs ports (configs_of cs ports)
  unfolding configs_of
  configs_of-Listed ports =
      by_tagged ports (contains_by is_untagged cs) (contains_by-Found is_untagged cs)
