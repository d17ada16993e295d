-- ===== src/Requests/Advertised.antt =====
-- What is sent on of an advertisement that the BGP daemon lists.
use sdwan_agent.Prelude.{
  ◌≡◌, refl, ℕ, String, true, false, Bool-cases, inl, inr, ◌==◌, Option, some, none, List, [], ◌∷◌,
  map, if◌then◌else◌, arith,
}
use sdwan_agent.Objects.Bgp.{
  Int64, Attr, NeighborAdvOutput, NeighborAdvertise, NeighborAdvertiseAsPath,
}
use sdwan_agent.Requests.Parsed.{last_or}
use sdwan_agent.Requests.Bgp.{convert_path, set_attrs, advertise}

-- The next hops of the attributes of type 3, and the paths of those of type 2.
abbrev nexthops : List Attr → List String
nexthops [] = []
nexthops (a ∷ attrs) = if a.attr_type == 3 then a.nexthop ∷ nexthops attrs else nexthops attrs

abbrev paths : List Attr → List (Option (List NeighborAdvertiseAsPath))
paths [] = []
paths (a ∷ attrs) =
    if a.attr_type == 2 then some (map convert_path a.as_paths) ∷ paths attrs else paths attrs

no_nexthop : (n : ℕ) → (n == 2) ≡ true → (n == 3) ≡ false
no_nexthop n h = ground arith

-- The attributes set the last next hop and the last paths.
set_attrs_lem :
    (result : NeighborAdvertise) (attrs : List Attr)
    → set_attrs result attrs ≡ record result {
      nexthop = last_or result.nexthop (nexthops attrs);
      as_paths = last_or result.as_paths (paths attrs);
    }
unfolding set_attrs
set_attrs_lem result [] = refl
set_attrs_lem result (a ∷ attrs) = elim (Bool-cases (a.attr_type == 2)) [
  | inl e ↦
      rw (e, no_nexthop a.attr_type e)
        (set_attrs_lem (record result { as_paths = some (map convert_path a.as_paths) }) attrs)
  | inr e ↦ elim (Bool-cases (a.attr_type == 3)) [
    | inl e' ↦ rw (e, e') (set_attrs_lem (record result { nexthop = a.nexthop }) attrs)
    | inr e' ↦ rw (e, e') (set_attrs_lem result attrs)
  ]
]

-- An advertisement has the network that the daemon lists, and the age that is given; its next hop is
-- that of the last attribute of type 3, or empty if there is none, and its AS paths are those of the
-- last attribute of type 2, or nil if there is none.
advertise_lem :
    (out : NeighborAdvOutput) (age : Int64)
    → advertise out age ≡ record {
      network = out.prefix;
      nexthop = last_or "" (nexthops out.attrs);
      age = age;
      as_paths = last_or none (paths out.attrs);
    }
advertise_lem out age = set_attrs_lem _ out.attrs
