-- ===== src/Examples/Syncing.antt =====
-- A container with two services that comes and goes, a clean-up, and a change of the address.
use registrator.Common.{◌≡◌, ◌↔◌, refl, String, true, some, List, [], ◌∷◌}
use registrator.Common.Int.{pos}
use registrator.Common.Map.{get, get_or}
use registrator.Bridge.Types.{Service}
use registrator.Bridge.World.{World, ok}
use registrator.Bridge.Create.{new_service, tail_name}
use registrator.Bridge.Tags.{combine_tags}
use registrator.Bridge.Tracking.{services_of}
use registrator.Bridge.Add.{add, container_ports, wanted_ports}
use registrator.Bridge.Add.Laws.{creations, register_all}
use registrator.Bridge.Remove.{remove, deregister_all}
use registrator.Bridge.Remove.Leak.{remove-add}
use registrator.Bridge.Sync.{cleanup_services, is_dangling}
use registrator.Bridge.Sync.Cleanup.{
  AllTracked, IsNamed, IsLeftOver, left_over, is_dangling_iff, cleanup_services_lem,
}
use registrator.Examples.Fixtures.{
  Event, log_registry, host, web, empty_world, web_world, web_service, web_port, web_ports,
  web_services,
}

abbrev id : String
id = "0123456789ab"

remove-add_example :
    (w' : World (List Event)) × (w'' : World (List Event)) × (add log_registry host id ""
        empty_world
      ≡ ok w')
    × (remove log_registry host id true w' ≡ ok w'')
    × (w''.registry
        ≡ (log_registry.deregister web_service (register_all log_registry host web_services [])).0)
    × (services_of id w'' ≡ [])
remove-add_example =
    remove-add log_registry host (λ s r. refl) id "" web web_ports web_service
      (record web_service {
        id = "host1:web.1:443";
        name = "secure";
        port = pos 8443;
        origin = record web_port { host_port = "8443"; exposed_port = "443" };
      }
        ∷ [])
      empty_world refl (unfold get_or in refl) (unfold get in refl) refl refl
      (unfold container_ports wanted_ports in refl)
      (unfold creations new_service combine_tags in refl)

-- A service that another run of this host has left behind.
abbrev old_service : Service
old_service = record web_service { id = "host1:old.7:80"; name = "old" }

web_world-IsNamed : AllTracked IsNamed web_world.services
web_world-IsNamed = ((("web.1", (unfold tail_name in refl)), tt), tt)

is_dangling_iff_example :
    (is_dangling "host1" web_world.services old_service ≡ some true)
    ↔ IsLeftOver "host1" web_world.services old_service
is_dangling_iff_example = is_dangling_iff "host1" web_world.services web_world-IsNamed old_service

cleanup_services_lem_example :
    cleanup_services log_registry host web_world.services (web_service ∷ old_service ∷ []) []
    ≡ ok (
        deregister_all log_registry host
          (left_over "host1" web_world.services (web_service ∷ old_service ∷ []))
          [])
cleanup_services_lem_example =
    cleanup_services_lem log_registry host web_world.services web_world-IsNamed
      (web_service ∷ old_service ∷ []) []

left_over_test :
    left_over "host1" web_world.services (web_service ∷ old_service ∷ []) ≡ old_service ∷ []
unfolding left_over is_dangling
left_over_test = refl
