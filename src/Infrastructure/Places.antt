-- ===== src/Infrastructure/Places.antt =====
-- Places of services, and the tests by them.
use sdwan_agent.Prelude.{
  ◌≡◌, refl, ◌⊎◌, ◌||◌, ℕ, ◌<◌, ◌≤◌, Bool, true, false, ◌==◌, List, [], ◌∷◌, ◌++◌, All, arith, inl,
  inr,
}
use sdwan_agent.Infrastructure.{same_variable, holds}
use sdwan_agent.Infrastructure.Injections.{Service, place, injects}

-- A service only injects services of smaller places.
pub injects-Lower : (s : Service) → All (λ d. place d < place s) (injects s)
unfolding place
injects-Lower Service.message_publisher = omega arith
injects-Lower Service.connection_factory = omega arith
injects-Lower Service.port = omega arith
injects-Lower Service.net_init = omega arith
injects-Lower Service.cmd = omega arith
injects-Lower Service.shell = omega arith
injects-Lower Service.pony = omega arith
injects-Lower Service.pony_route = omega arith
injects-Lower Service.connection = omega arith
injects-Lower Service.ovs = omega arith
injects-Lower Service.hostname = omega arith
injects-Lower Service.device_init = omega arith
injects-Lower Service.command_buffer = omega arith
injects-Lower Service.grafana = omega arith
injects-Lower Service.config = omega arith
injects-Lower Service.bgp = omega arith
injects-Lower Service.migration = omega arith
injects-Lower Service.ping = omega arith
injects-Lower Service.update_manager = omega arith
injects-Lower Service.app_state = omega arith
injects-Lower Service.systemd = omega arith
injects-Lower Service.mq = omega arith
injects-Lower Service.websocket = omega arith
injects-Lower Service.first_port = omega arith
injects-Lower Service.hub = omega arith
injects-Lower Service.net = omega arith
injects-Lower Service.activity = omega arith
injects-Lower Service.storage_adapter = omega arith
injects-Lower Service.wg_config = omega arith
injects-Lower Service.lte = omega arith
injects-Lower Service.dump_stat = omega arith
injects-Lower Service.pony_event = omega arith
injects-Lower Service.discovery = omega arith
injects-Lower Service.discovery_monitoring = omega arith
injects-Lower Service.discovery_http_client = omega arith
injects-Lower Service.ns_lookup = omega arith

places-lt : (s : Service) → place s < 36
unfolding place
places-lt Service.message_publisher = omega arith
places-lt Service.connection_factory = omega arith
places-lt Service.port = omega arith
places-lt Service.net_init = omega arith
places-lt Service.cmd = omega arith
places-lt Service.shell = omega arith
places-lt Service.pony = omega arith
places-lt Service.pony_route = omega arith
places-lt Service.connection = omega arith
places-lt Service.ovs = omega arith
places-lt Service.hostname = omega arith
places-lt Service.device_init = omega arith
places-lt Service.command_buffer = omega arith
places-lt Service.grafana = omega arith
places-lt Service.config = omega arith
places-lt Service.bgp = omega arith
places-lt Service.migration = omega arith
places-lt Service.ping = omega arith
places-lt Service.update_manager = omega arith
places-lt Service.app_state = omega arith
places-lt Service.systemd = omega arith
places-lt Service.mq = omega arith
places-lt Service.websocket = omega arith
places-lt Service.first_port = omega arith
places-lt Service.hub = omega arith
places-lt Service.net = omega arith
places-lt Service.activity = omega arith
places-lt Service.storage_adapter = omega arith
places-lt Service.wg_config = omega arith
places-lt Service.lte = omega arith
places-lt Service.dump_stat = omega arith
places-lt Service.pony_event = omega arith
places-lt Service.discovery = omega arith
places-lt Service.discovery_monitoring = omega arith
places-lt Service.discovery_http_client = omega arith
places-lt Service.ns_lookup = omega arith

pub All-places : (ss : List Service) → All (λ s. place s < 36) ss
All-places [] = tt
All-places (s ∷ ss) = (places-lt s, All-places ss)

-- Tests on numbers that differ, and on one.
==-false : (a b : ℕ) → (a < b) ⊎ (b < a) → (a == b) ≡ false
==-false a b h = ground arith

==-refl : (a : ℕ) → (a == a) ≡ true
==-refl a = ground arith

pub same_variable_refl : (s : Service) → same_variable s s ≡ true
unfolding same_variable
same_variable_refl s = ==-refl (place s)

same_variable-other :
    (s r : Service) → (place s < place r) ⊎ (place r < place s) → same_variable s r ≡ false
unfolding same_variable
same_variable-other s r h = ==-false (place s) (place r) h

||-true : (b c : Bool) → c ≡ true → (b || c) ≡ true
||-true true c h = refl
||-true false c h = h

||-false : {b c : Bool} → b ≡ false → c ≡ false → (b || c) ≡ false
||-false h h' = rw (h, h') refl

pub ||-here : {b : Bool} (c : Bool) → b ≡ true → (b || c) ≡ true
||-here c h = rw h refl

pub holds-append :
    (s : Service) (new built : List Service) → holds s built ≡ true → holds s (new ++ built) ≡ true
unfolding holds
holds-append s [] built h = h
holds-append s (r ∷ new) built h = ||-true (same_variable s r) _ (holds-append s new built h)

-- A service is not among others of greater, or smaller, places.
pub holds-above :
    (s : Service) (m : ℕ) (l : List Service)
    → place s < m
    → All (λ r. m ≤ place r) l
    → holds s l ≡ false
unfolding holds
holds-above s m [] h a = refl
holds-above s m (r ∷ l) h a =
    ||-false (same_variable-other s r (inl (omega (arith, a.0)))) (holds-above s m l h a.1)

pub holds-below :
    (s : Service) (new built : List Service)
    → All (λ r. place r < place s) new
    → holds s built ≡ false
    → holds s (new ++ built) ≡ false
unfolding holds
holds-below s [] built a h = h
holds-below s (r ∷ new) built a h =
    ||-false (same_variable-other s r (inr a.0)) (holds-below s new built a.1 h)
