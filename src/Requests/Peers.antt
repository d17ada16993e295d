-- ===== src/Requests/Peers.antt =====
-- Which peer `UpdateWgPeer` of internal/domains/config/handler.go replaces.
use sdwan_agent.Prelude.{
  ◌≡◌, refl, ap, Bool, true, false, Option, none, some, List, [], ◌∷◌, ◌++◌, str_eq, All,
  if◌then◌else◌,
}
use sdwan_agent.Config.{WgPeer, WgConfig}
use sdwan_agent.Requests.Configs.{replace_peer, replace_in_configs}

-- The peer has the key of the new one, or another.
abbrev pub HasKey : WgPeer → WgPeer → Type 0
HasKey new p = str_eq p.public_key new.public_key ≡ true

abbrev pub IsOther : WgPeer → WgPeer → Type 0
IsOther new p = str_eq p.public_key new.public_key ≡ false

-- The first peer of the key is replaced, and the rest stays.
abbrev pub FirstReplaced : WgPeer → List WgPeer → List WgPeer → Type 0
FirstReplaced new peers replaced =
    (before : List WgPeer) × (p : WgPeer) × (after : List WgPeer) × (peers ≡ before ++ (p ∷ after))
    × (replaced ≡ before ++ (new ∷ after))
    × HasKey new p
    × All (IsOther new) before

abbrev pub NoPeer : WgPeer → WgConfig → Type 0
NoPeer new c = All (IsOther new) c.peers

abbrev pub FirstConfigReplaced : WgPeer → List WgConfig → List WgConfig → Type 0
FirstConfigReplaced new cs replaced =
    (before : List WgConfig) × (c : WgConfig) × (after : List WgConfig) × (peers : List WgPeer)
    × (cs ≡ before ++ (c ∷ after))
    × (replaced ≡ before ++ (record c { peers = peers } ∷ after))
    × FirstReplaced new c.peers peers
    × All (NoPeer new) before

abbrev pub PeersUpdated : WgPeer → List WgPeer → Option (List WgPeer) → Type 0
PeersUpdated new peers none = All (IsOther new) peers
PeersUpdated new peers (some replaced) = FirstReplaced new peers replaced

abbrev pub Updated : WgPeer → List WgConfig → Option (List WgConfig) → Type 0
Updated new cs none = All (NoPeer new) cs
Updated new cs (some replaced) = FirstConfigReplaced new cs replaced

module _ (new : WgPeer) where
  later_peer :
      (p : WgPeer) (ps : List WgPeer) (rest : Option (List WgPeer))
      → IsOther new p
      → PeersUpdated new ps rest
      → PeersUpdated new (p ∷ ps) (elim rest [ none ↦ none | some replaced ↦ some (p ∷ replaced) ])
  later_peer p ps none o h = (o, h)
  later_peer p ps (some replaced) o (before, q, after, e, e', k, others) =
      (p ∷ before, q, after, ap (λ l. p ∷ l) e, ap (λ l. p ∷ l) e', k, (o, others))

  replace_peer-Updated : (ps : List WgPeer) → PeersUpdated new ps (replace_peer new ps)
  unfolding replace_peer
  replace_peer-Updated [] = tt
  replace_peer-Updated (p ∷ ps) =
      by_key (str_eq p.public_key new.public_key) refl (replace_peer-Updated ps)
    where
      by_key :
          (b : Bool)
          → str_eq p.public_key new.public_key ≡ b
          → PeersUpdated new ps (replace_peer new ps)
          → PeersUpdated new (p ∷ ps) (
              if b
              then some (new ∷ ps)
              else elim (replace_peer new ps) [ none ↦ none | some replaced ↦ some (p ∷ replaced) ])
      by_key true h ih = ([], p, ps, refl, refl, h, tt)
      by_key false h ih = later_peer p ps (replace_peer new ps) h ih

  later_config :
      (c : WgConfig) (cs : List WgConfig) (rest : Option (List WgConfig))
      → NoPeer new c
      → Updated new cs rest
      → Updated new (c ∷ cs) (elim rest [ none ↦ none | some replaced ↦ some (c ∷ replaced) ])
  later_config c cs none o h = (o, h)
  later_config c cs (some replaced) o (before, d, after, peers, e, e', r, others) =
      (c ∷ before, d, after, peers, ap (λ l. c ∷ l) e, ap (λ l. c ∷ l) e', r, (o, others))

  -- The configurations that `UpdateWgPeer` goes on with are those that were read, in which only the
  -- first peer with the key of the new one is replaced, in the first configuration that has one; there
  -- are none exactly if no configuration has such a peer.
  pub replace_in_configs-Updated : (cs : List WgConfig) → Updated new cs (replace_in_configs new cs)
  unfolding replace_in_configs replace_peer
  replace_in_configs-Updated [] = tt
  replace_in_configs-Updated (c ∷ cs) =
      by_peers (replace_peer new c.peers) (replace_peer-Updated c.peers)
        (replace_in_configs-Updated cs)
    where
      by_peers :
          (o : Option (List WgPeer))
          → PeersUpdated new c.peers o
          → Updated new cs (replace_in_configs new cs)
          → Updated new (c ∷ cs) (elim o [
            | some peers ↦ some (record c { peers = peers } ∷ cs)
            | none ↦ elim (replace_in_configs new cs) [
              | none ↦ none
              | some replaced ↦ some (c ∷ replaced)
            ]
          ])
      by_peers none h ih = later_config c cs (replace_in_configs new cs) h ih
      by_peers (some peers) h ih = ([], c, cs, peers, refl, refl, h, tt)
