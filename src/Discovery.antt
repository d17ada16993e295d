-- ===== src/Discovery.antt =====
-- internal/domains/discovery/service.go: the hosts are asked in parallel which of them is the
-- primary orchestrator.
pub mod Primary
pub mod Client
use mathlib.Core.List.{Permᴰ}
use sdwan_agent.Prelude.{
  String, ℕ, ◌≤◌, ◌≡◌, Bool, true, false, ◌&&◌, Option, none, some, List, [], ◌∷◌, map, length,
  str_eq, is_blank, if◌then◌else◌,
}
use sdwan_agent.Errors.{Error, Result, ok, err, split_brain, primary_not_found}

-- `discoveryResult`.
pub record DiscoveryResult : Type 0 where
  pub host : String
  pub is_primary : Bool
  pub error : Option Error

-- The task for one host, with the answer of `CheckPrimary`.
abbrev pub discovered : String → Result Bool → DiscoveryResult
discovered host (ok b) = record { host = host; is_primary = b; error = none }
discovered host (err e) = record { host = host; is_primary = false; error = some e }

abbrev pub discover : (String → Result Bool) → String → DiscoveryResult
discover check_primary host = discovered host (check_primary host)

-- `slices.Equal`.
unfoldable pub equal : List String → List String → Bool
equal [] [] = true
equal [] (_ ∷ _) = false
equal (_ ∷ _) [] = false
equal (x ∷ xs) (y ∷ ys) = str_eq x y && equal xs ys

-- `setHosts`.
unfoldable pub set_hosts : List String → List String → List String
unfolding equal
set_hosts kept hosts = if equal kept hosts then kept else hosts

-- The named results of `FetchPrimary`: the source returns a host with the error of a split brain.
abbrev pub Answer : Type 0
Answer = String × Option Error

-- The loop over the results, with the primary that was found so far.
unfoldable pub choose : String → List DiscoveryResult → Answer
choose primary [] = if is_blank primary then ("", some primary_not_found) else (primary, none)
choose primary (r ∷ rs) =
    let other = choose r.host rs in
    let rest = choose primary rs in
    if r.is_primary then if is_blank primary then other else (primary, some split_brain) else rest

-- The pool of the library `conc`: it is given the limit on goroutines and the tasks' results, and
-- `Wait` returns these in the order in which they came. It panics if the limit is not positive.
abbrev pub Pool : Type 0
Pool = ℕ → List DiscoveryResult → Option (List DiscoveryResult)

pub record PoolLaws (wait : Pool) : Type 0 where
  pub wait_lem :
      (n : ℕ) (rs : List DiscoveryResult)
      → 1 ≤ n
      → (arrived : List DiscoveryResult) × Permᴰ rs arrived × (wait n rs ≡ some arrived)
  pub panic_lem : (rs : List DiscoveryResult) → wait 0 rs ≡ none

abbrev pub answered : Option (List DiscoveryResult) → Option Answer
answered none = none
answered (some rs) = some (choose "" rs)

-- `FetchPrimary`: the hosts that the service keeps, and the answer; `none` is a panic.
unfoldable pub fetch_primary :
    (String → Result Bool) → Pool → List String → List String → List String × Option Answer
unfolding choose set_hosts
fetch_primary check_primary wait kept hosts =
    (set_hosts kept hosts, answered (wait (length hosts) (map (discover check_primary) hosts)))
