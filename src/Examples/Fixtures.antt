-- ===== src/Examples/Fixtures.antt =====
-- A registry that keeps a log of its calls, a host with Docker, and containers.
use registrator.Common.{String, ◌==◌, true, false, some, List, [], ◌∷◌, ◌++◌, if◌then◌else◌}
use registrator.Common.Int.{pos}
use registrator.Bridge.Types.{Container, Config, Service, ServicePort, DeadContainer}
use registrator.Bridge.Env.{Env, found, no_such_container}
use registrator.Bridge.World.{Registry, World}

pub data Event : Type 0 where
  registered deregistered refreshed : String → Event

-- Every call succeeds; the registry lists nothing.
abbrev pub log_registry : Registry
log_registry = record {
  State = List Event;
  register = λ s r. (r ++ registered s.id ∷ [], true);
  deregister = λ s r. (r ++ deregistered s.id ∷ [], true);
  refresh = λ s r. (r ++ refreshed s.id ∷ [], true);
  services = λ r. some [];
  ping = λ r. (r, true);
}

-- A container of two published ports, named by its environment.
abbrev pub web : Container
web = record {
  id = "0123456789ab";
  name = "/web.1";
  image = "repo/nginx:1.9";
  container_hostname = "web";
  env = "SERVICE_NAME=api" ∷ "SERVICE_443_NAME=secure" ∷ [];
  labels = some [];
  exposed_ports = "80/tcp" ∷ "443/tcp" ∷ [];
  ports =
      ("80/tcp", record { host_ip = "0.0.0.0"; host_port = "8080" } ∷ [])
      ∷ ("443/tcp", record { host_ip = "0.0.0.0"; host_port = "8443" } ∷ [])
      ∷ [];
  network_mode = "bridge";
  ip_address = "172.17.0.2";
  networks = [];
  running = true;
  exit_code = pos 0;
}

abbrev pub host : Env
host = record {
  hostname = "host1";
  resolve_ip = λ name. some "10.0.0.1";
  port_order = [];
  port_number = λ port. if port == "80/tcp" then "80" else "443";
  inspect = λ id. if id == "0123456789ab" then found web else no_such_container;
  running_ids = some ("0123456789ab" ∷ []);
  non_exited_ids = some ("0123456789ab" ∷ []);
}

abbrev pub settings : Config
settings = record {
  host_ip = "";
  internal = false;
  use_ip_from_label = "";
  force_tags = "";
  refresh_ttl = pos 30;
  refresh_interval = pos 10;
  deregister_check = "on-success";
  cleanup = true;
  require_label = false;
  exit_on_ip_lookup_failure = false;
}

abbrev pub empty_world : World (List Event)
empty_world = record {
  config = settings;
  locked = false;
  services = [];
  dead_containers = [];
  registry = [];
}

abbrev pub web_port : ServicePort
web_port = record {
  host_port = "8080";
  host_ip = "10.0.0.1";
  exposed_port = "80";
  exposed_ip = "172.17.0.2";
  port_type = "tcp";
  container_hostname = "web";
  container_id = "0123456789ab";
  container_name = "/web.1";
}

abbrev pub web_service : Service
web_service = record {
  id = "host1:web.1:80";
  name = "api-80";
  port = pos 8080;
  ip = "10.0.0.1";
  use_exposed_ports = false;
  tags = [];
  attrs = [];
  ttl = pos 30;
  origin = web_port;
}

-- The bridge that tracks the web container.
abbrev pub web_world : World (List Event)
web_world = record empty_world { services = ("0123456789ab", web_service ∷ []) ∷ [] }

abbrev pub dead_web : DeadContainer
dead_web = record { ttl = pos 30; services = web_service ∷ [] }

abbrev pub dead_world : World (List Event)
dead_world = record empty_world { dead_containers = ("0123456789ab", dead_web) ∷ [] }

abbrev pub web_ports : List ServicePort
web_ports =
    record web_port { host_ip = "0.0.0.0" }
    ∷ record web_port { host_ip = "0.0.0.0"; host_port = "8443"; exposed_port = "443" }
    ∷ []

abbrev pub web_services : List Service
web_services =
    web_service
    ∷ record web_service {
      id = "host1:web.1:443";
      name = "secure";
      port = pos 8443;
      origin = record web_port { host_port = "8443"; exposed_port = "443" };
    }
    ∷ []
