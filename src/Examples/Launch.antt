-- ===== src/Examples/Launch.antt =====
-- A program that starts, with a container that it begins to add, and the adapters that it knows.
use registrator.Bridge.Env.{Env}
use registrator.Bridge.Threads.{Thread, reviving, checking, synchronising, spawn, next}
use registrator.Bridge.Threads.Sections.{Holds}
use registrator.Bridge.Threads.Sound.{Genuine, CarriesGenuine}
use registrator.Program.Concurrent.{
  Live, live, begin_all, Advances, docker_event, thread, here, later,
}
use registrator.Program.Concurrent.Timers.{IsMeant}
use registrator.Program.Concurrent.Laws.{start-Advances}
use registrator.Common.{◌≡◌, ◌⊎◌, ◌==◌, refl, All, true, false, none, some, List, [], ◌∷◌}
use registrator.Common.Map.{Map, get}
use registrator.Bridge.Sync.{Call, sync_call}
use registrator.Adapter.Uri.{Uri}
use registrator.Program.Connect.{connect, connect_from}
use registrator.Program.Events.{handle_event}
use registrator.Program.Lookup.{ip_from_external_source}
use registrator.Program.Settings.{
  Flags, IsSound, configure, discover, check_settings, has_bad_times,
}
use registrator.Adapter.Table.{Package, modules, imported}
use registrator.Adapter.Table.Schemes.{modules-Imports, HasScheme, Lacks}
use registrator.Program.Adapters.{new_bridge-imported}
use registrator.Program.Start.{Factory, made, unrecognized, new_bridge}
use registrator.Program.Loop.{
  Running, Outside, runs, start, with_bridge, with_settings, launch, answers, pinged, asks_version,
}
use registrator.Examples.Startup.{flags}
use registrator.Examples.Fixtures.{Event, log_registry, host, settings, empty_world}
use registrator.Examples.Containers.{id}

abbrev factories : Map Factory
factories = ("log", (λ uri. some (log_registry, []))) ∷ []

abbrev log_uri : Uri
log_uri = record { scheme = "log"; host = ""; path = "" }

-- No address is forced and none is looked up.
abbrev plain_flags : Flags
plain_flags = record flags { host_ip = ""; ip_lookup_source = "" }

abbrev outside : Outside
outside = record {
  args = "registrator" ∷ "log://" ∷ [];
  answer = λ attempt. none;
  docker = true;
  listens = true;
  type_name = λ f. "log";
  factories = factories;
  uri = some log_uri;
}

abbrev first_sync : Call
first_sync = sync_call (record { quiet = false; ip = "" })

abbrev launched : Running log_registry
launched = record { discovered_ip = ""; waiting = first_sync ∷ []; world = empty_world }

starts : start outside 1 plain_flags ≡ runs log_registry launched
unfolding start configure discover check_settings has_bad_times ip_from_external_source new_bridge
    connect connect_from get with_bridge with_settings launch answers pinged asks_version
starts = refl

abbrev log_factory : Package → Factory
log_factory p uri = some (log_registry, [])

abbrev tls_uri : Uri
tls_uri = record { scheme = "consul-tls"; host = "consul:8501"; path = "" }

abbrev known : Map Factory
known = imported (λ f. "Factory") (λ f iface. iface == "AdapterFactory") log_factory modules

new_bridge-imported_example :
    ((p : Package) × HasScheme p "consul-tls"
      × (new_bridge (λ f. "Factory") known (some tls_uri) settings
          ≡ made settings (log_factory p tls_uri)))
    ⊎ (((p : Package) → Lacks p "consul-tls")
        × (new_bridge (λ f. "Factory") known (some tls_uri) settings ≡ unrecognized))
new_bridge-imported_example =
    new_bridge-imported (λ f. "Factory") (λ f iface. iface == "AdapterFactory") log_factory
      (λ p. refl) modules modules-Imports tls_uri settings

abbrev OnlyHost : Env → Type 0
OnlyHost env = env ≡ host

abbrev first_thread : Thread
first_thread = synchronising (record { quiet = false; ip = "" })

-- The container's start has begun its addition, which goes on to its check.
abbrev adding : Live log_registry
adding = record {
  discovered_ip = "";
  system = record { world = empty_world; threads = checking id "" ∷ first_thread ∷ [] };
}

adding-Advances : Advances log_registry OnlyHost plain_flags (live log_registry launched) adding
unfolding live begin_all spawn handle_event
adding-Advances = later (later here (docker_event "start" id)) (
    thread host [] (reviving id "") (first_thread ∷ []) (checking id "" ∷ []) empty_world refl refl
      (unfold next in refl))

start-Advances_example :
    IsSound empty_world.config ""
    × Holds (Genuine log_registry OnlyHost) {S = List Event} empty_world
    × All (CarriesGenuine log_registry OnlyHost) (checking id "" ∷ first_thread ∷ [])
    × All (IsMeant plain_flags) (checking id "" ∷ first_thread ∷ [])
start-Advances_example =
    start-Advances outside 1 plain_flags log_registry OnlyHost launched adding starts
      adding-Advances
