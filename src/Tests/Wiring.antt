-- ===== src/Tests/Wiring.antt =====
-- The injections of a start.
use sdwan_agent.Prelude.{refl, [], arith}
use sdwan_agent.Infrastructure.{Kernel, inject, inject_each}
use sdwan_agent.Infrastructure.Handlers.{init_services_injects}
use sdwan_agent.Infrastructure.Constructed.{Constructed, inject_each-Constructed}

abbrev nothing_built : Kernel
nothing_built = record { built = []; running = [] }

inject_each-Constructed_example :
    Constructed init_services_injects nothing_built
      (inject_each (inject 36) init_services_injects nothing_built)
inject_each-Constructed_example =
    inject_each-Constructed 36 init_services_injects nothing_built (omega arith) refl tt
