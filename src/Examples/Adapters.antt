-- ===== src/Examples/Adapters.antt =====
-- The adapters on a store that is a list of entries, and on clients that answer one thing.
use registrator.Common.{
  ℕ, ◌≡◌, ◌≢◌, ◌↔◌, refl, String, ◌<>◌, true, false, none, some, [], ◌∷◌, ◌++◌, map, reverse,
  if◌then◌else◌, ◌^◌, ◌<◌, arith,
}
use registrator.Common.Int.{negsuc}
use registrator.Common.Map.{
  Map, get, put, delete, get-put_self, get-put_ne, get-delete_self, get-delete_ne,
}
use registrator.Common.Text.{chars, text, split, split_from, strip_prefix, contains}
use registrator.Bridge.Types.{Service}
use registrator.Bridge.World.{Registry, World, ok}
use registrator.Bridge.Tracking.{services_of}
use registrator.Bridge.Remove.{remove}
use registrator.Bridge.Remove.Laws.{aside_of}
use registrator.Adapter.Client.{StoreClient, IsStore, service_path, service_address}
use registrator.Adapter.Keyed.{IsKeyed, Releases, is_key, remove-view}
use registrator.Adapter.Etcd.{etcd, etcd-IsKeyed, etcd_register, etcd_deregister, uses_v0_client}
use registrator.Adapter.Etcd.Lifetime.{Lasts, etcd_register_lifetime}
use registrator.Adapter.Skydns.Domain.{domain_path, swap, swap_loop, join, domain_path-reverse}
use registrator.Adapter.Zookeeper.{
  ZkClient, zk_register, zk_deregister, zk_base_path, zk_service_path, zookeeper_reports,
}
use registrator.Adapter.Consul.Script.{replace_from, replace_all, interpolate_service}
use registrator.Examples.Fixtures.{host, settings, web_service}

-- A store that keeps every entry for ever.
abbrev map_store : StoreClient
map_store = record {
  State = Map String;
  set = λ k v ttl s. (put k v s, true);
  delete = λ k s. (delete k s, true);
  ask = λ s. (s, true);
}

abbrev stored : IsStore map_store
stored = record {
  contents = λ s k. get k s;
  set_own = λ k v ttl s e. get-put_self k v s;
  set_other = λ k v ttl s j n. get-put_ne k j v s n;
  delete_own = λ k s e. get-delete_self k s;
  delete_other = λ k s j n. get-delete_ne k j s n;
}

abbrev web_etcd : Registry
web_etcd = etcd map_store (λ r. (r, true)) "/services"

-- The web service in etcd, and an entry of another program.
abbrev etcd_world : World (Map String)
etcd_world = record {
  config = settings;
  locked = false;
  services = ("0123456789ab", web_service ∷ []) ∷ [];
  dead_containers = [];
  registry = ("/services/api-80/host1:web.1:80", "10.0.0.1:8080") ∷ ("/other", "kept") ∷ [];
}

abbrev keyed : IsKeyed web_etcd
keyed = etcd-IsKeyed map_store (λ r. (r, true)) stored (λ r k. refl) "/services"

web_etcd_releases : Releases web_etcd host keyed
unfolding etcd_deregister
web_etcd_releases s r = refl

remove-view_example :
    (w' : World web_etcd.State) × (remove web_etcd host "0123456789ab" true etcd_world ≡ ok w')
    × (keyed.view w'.registry "/other" ≡ (
        if is_key web_etcd host keyed "/other"
          (services_of "0123456789ab" etcd_world ++ aside_of "0123456789ab" etcd_world)
        then none
        else keyed.view etcd_world.registry "/other"))
remove-view_example =
    remove-view web_etcd host keyed web_etcd_releases "0123456789ab" etcd_world "/other" refl

-- A ttl below zero.
abbrev hasty_service : Service
hasty_service = record web_service { ttl = negsuc 29 }

etcd_register_lifetime_example :
    (lifetime : ℕ) × (etcd_register map_store (λ r. (r, true)) "/services" hasty_service []
      ≡ (put (service_path "/services" hasty_service) (service_address hasty_service) [], true))
    × (lifetime < 2 ^ 64)
    × Lasts (negsuc 29) lifetime
etcd_register_lifetime_example =
    etcd_register_lifetime map_store (λ r. (r, true)) "/services" hasty_service [] (omega arith)

domain_path-reverse_example :
    domain_path "web.example.org"
    ≡ some ("/skydns/" <> join "/" (reverse (map text (split b'.' (chars "web.example.org")))))
domain_path-reverse_example = domain_path-reverse "web.example.org"

domain_path_test : domain_path "web.example.org" ≡ some "/skydns/org/example/web"
unfolding domain_path swap_loop swap split split_from join
domain_path_test = refl

uses_v0_client_test :
    (uses_v0_client "etcd 0.4.6" ≡ true)
    × (uses_v0_client "etcd 2.0.4" ≡ true)
    × (uses_v0_client "etcd 2.3.7" ≡ false)
unfolding uses_v0_client contains strip_prefix
uses_v0_client_test = (refl, refl, refl)

-- A client whose nodes exist and that creates and deletes none.
abbrev stubborn : ZkClient
stubborn = record {
  State = Map String;
  exists = λ path r. some true;
  children = λ path r. some ("web" ∷ []);
  create = λ path body flags r. (r, false);
  delete = λ path r. (r, false);
}

zookeeper_reports_example :
    (((zk_register stubborn "/" web_service []).1 ≡ true)
      ↔ (stubborn.exists (zk_base_path "/" web_service) [] ≢ none))
    × (((zk_deregister stubborn "/" web_service []).1 ≡ true) ↔ (
        stubborn.children
          (zk_base_path "/" web_service)
          (stubborn.delete (zk_service_path "/" web_service) []).0
        ≢ none))
zookeeper_reports_example = zookeeper_reports stubborn "/" web_service []

interpolate_service_test :
    interpolate_service "ping $SERVICE_IP:$SERVICE_PORT" web_service ≡ "ping 10.0.0.1:8080"
unfolding interpolate_service replace_all replace_from strip_prefix
interpolate_service_test = refl
