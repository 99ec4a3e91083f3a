-- ===== src/Bridge/Types.antt =====
-- The data of bridge/types.go and bridge/bridge.go, and what the source reads of go-dockerclient's
-- containers. A missing pointer to a Config, HostConfig or NetworkSettings is not modelled: Docker's
-- answers hold them.
use registrator.Common.{String, Bool, Option, List}
use registrator.Common.Int.{ℤ}
use registrator.Common.Map.{Map}

-- dockerapi.PortBinding
pub record PortBinding : Type 0 where
  pub host_ip : String
  pub host_port : String

-- What the source reads of a dockerapi.Container. `labels` is `none` for a nil map. `networks` gives
-- each network's IPAddress. The keys of `exposed_ports` and `ports` are dockerapi.Port texts.
pub record Container : Type 0 where
  pub id : String
  pub name : String
  pub image : String
  pub container_hostname : String
  pub env : List String
  pub labels : Option (Map String)
  pub exposed_ports : List String
  pub ports : Map (List PortBinding)
  pub network_mode : String
  pub ip_address : String
  pub networks : Map String
  pub running : Bool
  pub exit_code : ℤ

-- ServicePort. The container that it points to is an argument of the functions that read it.
pub record ServicePort : Type 0 where
  pub host_port : String
  pub host_ip : String
  pub exposed_port : String
  pub exposed_ip : String
  pub port_type : String
  pub container_hostname : String
  pub container_id : String
  pub container_name : String

pub record Config : Type 0 where
  pub host_ip : String
  pub internal : Bool
  pub use_ip_from_label : String
  pub force_tags : String
  pub refresh_ttl : ℤ
  pub refresh_interval : ℤ
  pub deregister_check : String
  pub cleanup : Bool
  pub require_label : Bool
  pub exit_on_ip_lookup_failure : Bool

-- A Service. Its lock guards one field update at a time and is not modelled.
pub record Service : Type 0 where
  pub id : String
  pub name : String
  pub port : ℤ
  pub ip : String
  pub use_exposed_ports : Bool
  pub tags : List String
  pub attrs : Map String
  pub ttl : ℤ
  pub origin : ServicePort

pub record DeadContainer : Type 0 where
  pub ttl : ℤ
  pub services : List Service

pub record SyncMessage : Type 0 where
  pub quiet : Bool
  pub ip : String
