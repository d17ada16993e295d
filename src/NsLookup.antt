-- ===== src/NsLookup.antt =====
-- internal/domains/nslookup: the orchestrators' addresses in the hosts file. A line of the file is
-- what `strings.Split` at spaces makes of it once it is trimmed.
pub mod Synced
pub mod Others
use sdwan_agent.Prelude.{
  String, ℕ, Bool, true, false, not, ◌&&◌, ◌==◌, Option, none, some, List, [], ◌∷◌, ◌++◌, map,
  length, is_empty, contains_by, str_eq, if◌then◌else◌,
}
use sdwan_agent.Config.{Config, AppSection}
use sdwan_agent.Errors.{Error}
use sdwan_agent.Action.{Action, ret, fail, done, call, query, or_return, ◌>>=◌, ◌>>◌}
use sdwan_agent.Action.Calls.{config, lookup_ip, stat_hosts, read_hosts, write_hosts}

abbrev pub Line : Type 0
Line = List String

-- `hostPair`.
pub record HostPair : Type 0 where
  pub fqdn : String
  pub ip : String

-- `buildHostLine`. The texts of two such lines are equal exactly if the pairs are: no part of a line
-- of the file has a space, nor has an address.
abbrev pub build_host_line : HostPair → Line
build_host_line p = p.ip ∷ p.fqdn ∷ []

abbrev pub same_pair : HostPair → HostPair → Bool
same_pair p q = str_eq p.ip q.ip && str_eq p.fqdn q.fqdn

abbrev pub member : HostPair → List HostPair → Bool
member p ps = contains_by (same_pair p) ps

-- `sdwanSection`, and the empty line.
abbrev pub sdwan_section : Line
sdwan_section = "#" ∷ "SDWAN:" ∷ "generated" ∷ "section" ∷ []

abbrev pub blank_line : Line
blank_line = "" ∷ []

unfoldable pub same_line : Line → Line → Bool
same_line [] [] = true
same_line (x ∷ xs) (y ∷ ys) = str_eq x y && same_line xs ys
same_line _ _ = false

-- What the loop does with a line: it drops the section's comment, collects an orchestrator's line and
-- keeps the others.
pub data Kind : Type 0 where
  comment : Kind
  host : HostPair → Kind
  other : Kind

-- A set of lines as a list without repetitions.
abbrev pub add : HostPair → List HostPair → List HostPair
add p ps = if member p ps then ps else p ∷ ps

-- `orchestratorMap[fqdn]`.
abbrev pub is_orchestrator : List String → String → Bool
is_orchestrator orchestrators fqdn = contains_by (str_eq fqdn) orchestrators

-- The loop that resolves the addresses; they come without their schema.
abbrev pub resolve : List String → Action (List HostPair)
resolve [] = ret []
resolve (fqdn ∷ addrs) = do
  ips ← query (lookup_ip fqdn)
  rest ← resolve addrs
  ret (map (λ ip. record { fqdn = fqdn; ip = ip }) ips ++ rest)

-- `strings.TrimSpace`, and the removal of the schemas by `strings.ReplaceAll`.
pub record Texts : Type 0 where
  pub trim : String → String
  pub strip_schemas : String → String

module _ (texts : Texts) (orchestrators : List String) where
  abbrev pub host_or_other : String → String → Kind
  host_or_other ip fqdn =
      if is_orchestrator orchestrators fqdn then host (record { fqdn = fqdn; ip = ip }) else other

  abbrev pub kind_of_words : Line → Kind
  kind_of_words (ip ∷ fqdn ∷ _) = host_or_other (texts.trim ip) (texts.trim fqdn)
  kind_of_words _ = other

  unfoldable pub kind_of : Line → Kind
  unfolding same_line
  kind_of line = if same_line line sdwan_section then comment else kind_of_words line

  abbrev pub keep : Kind → Line → List Line → List Line
  keep other line lines = line ∷ lines
  keep _ line lines = lines

  abbrev pub collect : Kind → List HostPair → List HostPair
  collect (host p) ps = add p ps
  collect _ ps = ps

  -- The buffer after the loop, and `existingHosts`.
  abbrev pub kept : List Line → List Line
  kept [] = []
  kept (l ∷ ls) = keep (kind_of l) l (kept ls)

  abbrev pub existing_hosts : List Line → List HostPair
  existing_hosts [] = []
  existing_hosts (l ∷ ls) = collect (kind_of l) (existing_hosts ls)

  -- `hasChanges`.
  abbrev pub has_changes : List HostPair → List HostPair → Bool
  has_changes existing new =
      if length existing == length new then contains_by (λ p. not (member p new)) existing else true

  -- The lines that are written, if there are changes.
  abbrev pub rewritten : List Line → List HostPair → List Line
  rewritten ls new = kept ls ++ (blank_line ∷ sdwan_section ∷ map build_host_line new)

  unfoldable pub synced : List HostPair → List Line → Option (List Line)
  unfolding kind_of
  synced new ls = if has_changes (existing_hosts ls) new then some (rewritten ls new) else none

  -- The end of `SyncHosts`.
  abbrev pub write_if : Option (List Line) → ℕ → Action (Unit {0})
  write_if none perm = done
  write_if (some ls) perm = call (write_hosts ls perm)

  abbrev pub update_file : List HostPair → Action (Unit {0})
  update_file new = do
    perm ← query stat_hosts
    lines ← query read_hosts
    or_return lines.1
    write_if (synced new lines.0) perm

  abbrev pub sync_resolved : List HostPair → Action (Unit {0})
  sync_resolved new = if is_empty new then done else update_file new

-- `SyncHosts`.
abbrev pub sync_addrs : Texts → List String → Action (Unit {0})
sync_addrs texts addrs =
    if is_empty addrs
    then done
    else resolve (map texts.strip_schemas addrs)
      >>= sync_resolved texts (map texts.strip_schemas addrs)

abbrev pub sync_app : Texts → Option AppSection → Action (Unit {0})
sync_app texts none = done
sync_app texts (some app) = sync_addrs texts app.orchestrator_addrs

abbrev pub sync_hosts : Texts → Action (Unit {0})
sync_hosts texts = do cfg ← query config; sync_app texts cfg.app
