-- ===== src/Bridge/Env.antt =====
-- What the package bridge calls and does not implement: the Docker client, name resolution and the
-- host's name. A call's answers are functions of its arguments at the time of one operation.
use registrator.Common.{ℕ, String, Option, List}
use registrator.Bridge.Types.{Container}

-- InspectContainer: a container, the error NoSuchContainer, or another error.
pub data Inspected : Type 0 where
  found : Container → Inspected
  no_such_container : Inspected
  inspect_error : Inspected

pub record Env : Type 0 where
  -- os.Hostname, as the package variable `Hostname`
  pub hostname : String
  -- net.ResolveIPAddr("ip", name), `none` for its error
  pub resolve_ip : String → Option String
  -- the order in which `range` visits a container's ports: the place of each among those behind it
  pub port_order : List ℕ
  -- the method Port of a dockerapi.Port
  pub port_number : String → String
  pub inspect : String → Inspected
  -- ListContainers with no filter and with the filter of the statuses that have not exited, as the
  -- ids of the listings; `none` for an error
  pub running_ids : Option (List String)
  pub non_exited_ids : Option (List String)
