-- ===== src/Examples/Interleaving.antt =====
-- Calls of a bridge that interleave, for one container.
use mathlib.Core.WellFounded.{Acc}
use registrator.Common.{All}
use registrator.Bridge.Threads.{copied, refreshing, reviving, synchronising}
use registrator.Bridge.Threads.AloneAdd.{once, Steps-trans}
use registrator.Bridge.Threads.Sound.{CarriesGenuine}
use registrator.Bridge.Threads.Descent.{IsNearer, next_descends}
use registrator.Common.{◌≡◌, ◌↔◌, refl, ap, String, true, false, none, some, List, [], ◌∷◌}
use registrator.Common.Int.{pos}
use registrator.Common.Map.{get, get_or}
use registrator.Bridge.Types.{Service}
use registrator.Bridge.Env.{Env}
use registrator.Bridge.World.{World, ok, ◌>>=◌}
use registrator.Bridge.Create.{new_service}
use registrator.Bridge.Tags.{combine_tags}
use registrator.Bridge.Tracking.{services_of}
use registrator.Bridge.Add.{container_ports, wanted_ports}
use registrator.Bridge.Add.Laws.{added, creations, add_registers}
use registrator.Bridge.Sync.{Call, add_call, refresh_call, step, synchronise}
use registrator.Bridge.Threads.{
  Thread, checking, registering, appending, removing, copying, pruning, spawn, next, begin, Steps,
  done, before_last,
}
use registrator.Bridge.Threads.Locking.{takes_lock, Has, IsFrozen, Steps-locked}
use registrator.Bridge.Threads.Release.{IsEarlyReturn, next_locks_iff}
use registrator.Bridge.Threads.Sections.{Holds}
use registrator.Bridge.Threads.Sound.{Genuine}
use registrator.Bridge.Threads.Kept.{Steps-Holds}
use registrator.Bridge.Threads.Ending.{synchronise_returns}
use registrator.Bridge.Threads.AloneAdd.{system}
use registrator.Bridge.Threads.Alone.{step-Steps}
use registrator.Bridge.Threads.Races.{remove_overtaken, restart_overtaken}
use registrator.Examples.Fixtures.{
  Event, log_registry, host, web, empty_world, web_world, web_service, web_port, web_ports,
  web_services,
}

abbrev id : String
id = "0123456789ab"

abbrev OnlyHost : Env → Type 0
OnlyHost env = env ≡ host

abbrev secure_service : Service
secure_service = record web_service {
  id = "host1:web.1:443";
  name = "secure";
  port = pos 8443;
  origin = record web_port { host_port = "8443"; exposed_port = "443" };
}

abbrev full_world : World (List Event)
full_world = added log_registry host id web_services empty_world

add_full : step log_registry host (add_call id "") empty_world ≡ ok (full_world, [])
unfolding step
add_full =
    ap (λ m. m >>= λ w. ok (w, []))
      (add_registers log_registry host (λ s r. refl) id "" web web_ports web_services empty_world
        refl (unfold get_or in refl) (unfold get in refl) refl
        (unfold container_ports wanted_ports in refl)
        (unfold creations new_service combine_tags in refl))

-- The container has been added, and a refresh has begun.
full-Steps : Steps log_registry OnlyHost (system empty_world []) (system full_world (copying ∷ []))
unfolding spawn
full-Steps =
    before_last
      (step-Steps log_registry OnlyHost host refl (add_call id "") empty_world full_world []
        add_full)
      (begin refresh_call)

-- The refresh has its copy.
refreshing-Steps :
    Steps log_registry OnlyHost
      (system empty_world [])
      (system full_world (refreshing (copied full_world.services) ∷ []))
refreshing-Steps = Steps-trans log_registry OnlyHost full-Steps (
    once log_registry OnlyHost host refl copying (refreshing (copied full_world.services) ∷ [])
      full_world full_world (unfold next in refl))

Steps-Holds_example :
    Holds (Genuine log_registry OnlyHost) {S = List Event} full_world
    × All (CarriesGenuine log_registry OnlyHost) (refreshing (copied full_world.services) ∷ [])
Steps-Holds_example =
    Steps-Holds log_registry OnlyHost (system empty_world [])
      (system full_world (refreshing (copied full_world.services) ∷ [])) (refl, refl, refl)
      refreshing-Steps

synchronise_returns_example :
    (x : World (List Event) × List Call) × (synchronise log_registry host
        (record { quiet = false; ip = "10.0.0.9" })
        full_world
      ≡ ok x)
    × (x.0.locked ≡ false)
synchronise_returns_example =
    synchronise_returns log_registry OnlyHost (system empty_world [])
      (system full_world (copying ∷ [])) (refl, refl, refl) full-Steps host
      (record { quiet = false; ip = "10.0.0.9" }) (id ∷ []) refl refl

-- The lock is held, the pruning waits for it, and a refresh begins.
abbrev held_world : World (List Event)
held_world = record web_world { locked = true }

Steps-locked_example :
    IsFrozen held_world held_world
    × ((t : Thread) → takes_lock t ≡ true → Has t (pruning ∷ []) → Has t (copying ∷ pruning ∷ []))
unfolding spawn
Steps-locked_example =
    Steps-locked log_registry OnlyHost {s = system held_world (pruning ∷ [])}
      {u = system held_world (copying ∷ pruning ∷ [])} (before_last done (begin refresh_call)) refl

next_locks_iff_example : (held_world.locked ≡ true) ↔ IsEarlyReturn (checking id "") web_world
next_locks_iff_example =
    next_locks_iff log_registry host (checking id "") web_world held_world [] refl
      (unfold next get_or in refl)

remove_overtaken_example :
    (w' : World (List Event)) × Steps log_registry OnlyHost
      (system empty_world (
        registering web true (record web_port { host_ip = "0.0.0.0" } ∷ [])
        ∷ removing id true
        ∷ []))
      (system w' [])
    × (services_of id w' ≡ web_service ∷ [])
    × (w'.registry ≡ (log_registry.register web_service []).0)
remove_overtaken_example =
    remove_overtaken log_registry OnlyHost host refl web true
      (record web_port { host_ip = "0.0.0.0" }) web_service empty_world refl (unfold get_or in refl)
      (unfold get in refl) (unfold new_service combine_tags in refl) refl

restart_overtaken_example :
    (w' : World (List Event)) × (w'' : World (List Event)) × Steps log_registry OnlyHost
      (system web_world (appending secure_service web true [] ∷ removing id false ∷ []))
      (system w' [])
    × (services_of id w' ≡ secure_service ∷ [])
    × (get id w'.dead_containers ≡ some (record { ttl = pos 30; services = web_service ∷ [] }))
    × Steps log_registry OnlyHost (system w' []) (system w'' (checking id "" ∷ []))
    × (services_of id w'' ≡ web_service ∷ [])
    × (get id w''.dead_containers ≡ none)
    × (w''.registry ≡ [])
restart_overtaken_example =
    restart_overtaken log_registry OnlyHost host refl web true "" web_service secure_service
      web_world refl refl (unfold get_or in refl)

-- A synchronisation of an empty bridge starts the adding of the container that runs.
next_descends_example :
    Acc IsNearer (synchronising (record { quiet = false; ip = "" }))
    × All
        (λ u. IsNearer u (synchronising (record { quiet = false; ip = "" })))
        (reviving id "" ∷ [])
next_descends_example =
    next_descends log_registry host (synchronising (record { quiet = false; ip = "" })) empty_world
      empty_world (reviving id "" ∷ []) (unfold next synchronise spawn in refl)
