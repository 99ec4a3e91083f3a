-- ===== src/Adapter/Consul.antt =====
-- consul/consul.go over the agent of a third party.
pub mod Script
pub mod Checks
use registrator.Common.{
  is_some, ℕ, zero, suc, ◌-◌, String, ◌<>◌, Char, Bool, true, false, ◌&&◌, not, Option, none, some,
  List, [], ◌∷◌, ◌++◌, map, length, if◌then◌else◌, ◌==◌,
}
use registrator.Common.Int.{ℤ, pos}
use registrator.Common.Map.{get_or}
use registrator.Common.Text.{chars, text, strip_prefix}
use registrator.Common.Decimal.{itoa}
use registrator.Bridge.Types.{Service}
use registrator.Bridge.World.{Registry}
use registrator.Adapter.Uri.{Uri}
use registrator.Adapter.Consul.Script.{interpolate_service, short_id}

-- consulapi's AgentServiceCheck, AgentServiceRegistration and AgentService, with the fields that are
-- used here
pub record AgentCheck : Type 0 where
  pub status : String
  pub http : String
  pub timeout : String
  pub script : String
  pub ttl : String
  pub tcp : String
  pub interval : String

pub record AgentRegistration : Type 0 where
  pub id : String
  pub name : String
  pub port : ℤ
  pub tags : List String
  pub address : String
  pub check : Option AgentCheck

pub record AgentService : Type 0 where
  pub id : String
  pub service : String
  pub port : ℤ
  pub tags : List String
  pub address : String

pub record Agent : Type 1 where
  pub State : Type 0
  pub service_register : AgentRegistration → State → State × Bool
  pub service_deregister : String → State → State × Bool
  pub services : State → Option (List AgentService)
  pub leader : State → Option String

abbrev no_check : AgentCheck
no_check = record {
  status = "";
  http = "";
  timeout = "";
  script = "";
  ttl = "";
  tcp = "";
  interval = "";
}

abbrev pub attr : String → Service → String
attr key s = get_or "" key s.attrs

-- The default interval
abbrev pub default_interval : String
default_interval = "10s"

-- The last step: a check that polls has an interval.
unfoldable pub with_interval : Service → AgentCheck → AgentCheck
unfolding get_or
with_interval s check =
    if not (check.script == "" && (check.http == "" && check.tcp == ""))
    then record check {
      interval =
          if attr "check_interval" s == "" then default_interval else attr "check_interval" s;
    }
    else check

abbrev timed : Service → AgentCheck → AgentCheck
timed s check = record check { timeout = attr "check_timeout" s }

unfoldable pub url_of : String → Service → String → String
unfolding itoa
url_of scheme s path = scheme <> (s.ip <> (":" <> (itoa s.port <> path)))

-- `check-cmd` with the container's short id; `none` is a panic.
unfoldable pub command_of : Service → String → Option String
unfolding short_id
command_of s cmd = elim (short_id 12 (chars s.origin.container_id)) [
  | none ↦ none
  | some id ↦ some ("check-cmd " <> (text id <> (" " <> (s.origin.exposed_port <> (" " <> cmd)))))
]

-- The chain of attributes: the check before its interval, or none. The outer `none` is a panic.
unfoldable pub check_kind : Service → Option (Option AgentCheck)
unfolding get_or url_of command_of interpolate_service itoa
check_kind s =
    let base : AgentCheck = record no_check { status = attr "check_initial_status" s } in
    if not (attr "check_http" s == "")
    then some (some (timed s (record base { http = url_of "http://" s (attr "check_http" s) })))
    else if not (attr "check_https" s == "")
    then some (some (timed s (record base { http = url_of "https://" s (attr "check_https" s) })))
    else if not (attr "check_cmd" s == "")
    then elim (command_of s (attr "check_cmd" s)) [
      | none ↦ none
      | some script ↦ some (some (record base { script = script }))
    ]
    else if not (attr "check_script" s == "")
    then some (some (record base { script = interpolate_service (attr "check_script" s) s }))
    else if not (attr "check_ttl" s == "")
    then some (some (record base { ttl = attr "check_ttl" s }))
    else if not (attr "check_tcp" s == "")
    then some (some (timed s (record base { tcp = s.ip <> (":" <> itoa s.port) })))
    else some none

unfoldable pub build_check : Service → Option (Option AgentCheck)
unfolding check_kind with_interval
build_check s = elim (check_kind s) [
  | none ↦ none
  | some none ↦ some none
  | some (some check) ↦ some (some (with_interval s check))
]

unfoldable pub agent_registration : Service → Option AgentRegistration
unfolding build_check
agent_registration s = elim (build_check s) [
  | none ↦ none
  | some check ↦ some (record {
    id = s.id;
    name = s.name;
    port = s.port;
    tags = s.tags;
    address = s.ip;
    check = check;
  })
]

-- A service that the agent lists, with the zero values of the other fields
unfoldable pub listed_service : AgentService → Service
listed_service v = record {
  id = v.id;
  name = v.service;
  port = v.port;
  ip = v.address;
  use_exposed_ports = false;
  tags = v.tags;
  attrs = [];
  ttl = pos 0;
  origin = record {
    host_port = "";
    host_ip = "";
    exposed_port = "";
    exposed_ip = "";
    port_type = "";
    container_hostname = "";
    container_id = "";
    container_name = "";
  };
}

-- The address that the factory gives to the client: the client's default one, the socket or the
-- host. For consul-tls the transport is set up besides. The second argument is the URI as a text.
unfoldable pub consul_address : String → String → Uri → String
unfolding strip_prefix
consul_address default uri_text uri =
    if uri.scheme == "consul-unix"
    then elim (strip_prefix (chars "consul-") (chars uri_text)) [
      | none ↦ uri_text
      | some rest ↦ text rest
    ]
    else if uri.scheme == "consul-tls"
    then uri.host
    else if uri.host == ""
    then default
    else uri.host

-- What the factory sets of the client's configuration. The TLS transport comes with the scheme https.
pub record ClientConfig : Type 0 where
  pub address : String
  pub https : Bool

-- The first argument is whether SetupTLSConfig succeeds; `none` is log.Fatal.
unfoldable pub consul_config : Bool → String → String → Uri → Option ClientConfig
unfolding consul_address
consul_config tls_ready default uri_text uri =
    if uri.scheme == "consul-tls"
    then if tls_ready then some (record { address = uri.host; https = true }) else none
    else some (record { address = consul_address default uri_text uri; https = false })

module _ (A : Agent) where
  -- Register; `none` is a panic in the check.
  unfoldable pub consul_register : Service → A.State → Option (A.State × Bool)
  unfolding agent_registration
  consul_register s r = elim (agent_registration s) [
    | none ↦ none
    | some registration ↦ some (A.service_register registration r)
  ]

  unfoldable pub consul_services : A.State → Option (List Service)
  unfolding listed_service
  consul_services r = elim (A.services r) [ none ↦ none | some vs ↦ some (map listed_service vs) ]

  -- Ping: an answer for the leader, an empty one too.
  unfoldable pub consul_ping : A.State → A.State × Bool
  consul_ping r = (r, is_some (A.leader r))

  -- The adapter as a registry, for ids of twelve characters, where no check panics.
  abbrev pub consul : Registry
  consul = record {
    State = A.State;
    register = λ s r. elim (consul_register s r) [ none ↦ (r, false) | some x ↦ x ];
    deregister = λ s r. A.service_deregister s.id r;
    refresh = λ s r. (r, true);
    services = consul_services;
    ping = consul_ping;
  }

abbrev consul_client : Option ((A : Agent) × A.State) → Option ((R : Registry) × R.State)
consul_client none = none
consul_client (some (A, r)) = some (consul A, r)

-- The factory, over NewClient; `none` is log.Fatal.
unfoldable pub consul_new :
    Bool
    → String
    → (Uri → String)
    → (ClientConfig → Option ((A : Agent) × A.State))
    → Uri
    → Option ((R : Registry) × R.State)
unfolding consul_config consul_register consul_services consul_ping
consul_new tls_ready default uri_text new_client uri =
    elim (consul_config tls_ready default (uri_text uri) uri) [
      | none ↦ none
      | some config ↦ consul_client (new_client config)
    ]
