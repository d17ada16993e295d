-- ===== src/Tests/Discovery.antt =====
-- A pool that lets the second task finish first, and runs of the discovery with it.
use mathlib.Core.List.{Permᴰ}
use Permᴰ.{swap, refl as Perm_refl}
use sdwan_agent.Prelude.{
  ◌≡◌, refl, String, ℕ, zero, suc, ◌≤◌, Bool, ◌||◌, none, some, List, [], ◌∷◌, str_eq, arith,
}
use sdwan_agent.Errors.{Result, ok}
use sdwan_agent.Discovery.{DiscoveryResult, Pool, PoolLaws, fetch_primary}
use sdwan_agent.Discovery.Primary.{Decided, fetch_primary-Decided}

abbrev swap_first : List DiscoveryResult → List DiscoveryResult
swap_first [] = []
swap_first (r ∷ []) = r ∷ []
swap_first (q ∷ r ∷ rs) = r ∷ q ∷ rs

swap_first-Perm : (rs : List DiscoveryResult) → Permᴰ rs (swap_first rs)
swap_first-Perm [] = Perm_refl []
swap_first-Perm (r ∷ []) = Perm_refl (r ∷ [])
swap_first-Perm (q ∷ r ∷ rs) = swap refl refl

abbrev pub wait : Pool
wait zero rs = none
wait (suc n) rs = some (swap_first rs)

waited :
    (n : ℕ) (rs : List DiscoveryResult)
    → 1 ≤ n
    → (arrived : List DiscoveryResult) × Permᴰ rs arrived × (wait n rs ≡ some arrived)
waited zero rs n = absurd (omega arith)
waited (suc k) rs n = (swap_first rs, swap_first-Perm rs, refl)

pub wait_laws : PoolLaws wait
wait_laws = record { wait_lem = waited; panic_lem = λ rs. refl }

-- One host is the primary, or two are.
abbrev pub one_primary : String → Result Bool
one_primary host = ok (str_eq host "http://b")

abbrev two_primaries : String → Result Bool
two_primaries host = ok (str_eq host "http://a" || str_eq host "http://b")

abbrev pub hosts : List String
hosts = "http://a" ∷ "http://b" ∷ "http://c" ∷ []

fetch_primary-Decided_example :
    Decided two_primaries wait wait_laws hosts (fetch_primary two_primaries wait [] hosts)
fetch_primary-Decided_example =
    fetch_primary-Decided two_primaries wait wait_laws [] hosts (omega arith)
      (refl, (refl, (refl, tt)))
