-- ===== src/Bridge/Create.antt =====
-- newService of bridge/bridge.go, in the order of its steps.
mod Fields
pub mod Laws
pub mod Origin
use Prim.Native.String.{len}
use registrator.Common.{
  ℕ, String, ◌<>◌, Char, Bool, true, false, ◌&&◌, ◌||◌, not, Option, none, some, List, [], ◌∷◌,
  ◌++◌, map, reverse, if◌then◌else◌, ◌==◌,
}
use registrator.Common.Int.{ℤ, pos, negsuc}
use registrator.Common.Map.{Map, get, get_or, put, delete}
use registrator.Common.Text.{chars, text, is, split, strip_prefix, to_lower, atoi}
use registrator.Bridge.Types.{Container, ServicePort, Config, Service}
use registrator.Bridge.Env.{Env, Inspected, found, no_such_container, inspect_error}
use registrator.Bridge.Tags.{combine_tags}
use registrator.Bridge.Metadata.{map_default, merge_env, Collected, service_meta_data}
unfoldable pub use Fields.{
  default_name, origin_hostname, resolve_host_ip, is_refused, service_number, before_last_slash,
  address_of_label, label_ip, linked_id, network_ip, is_ecs_label, add_ecs_labels, tail_name,
  lower_is, origin_id, service_name, tag_parts, service_id, service_attrs,
}

-- A service, `nil`, or a panic.
pub data Created : Type 0 where
  created : Service → Created
  declined : Created
  panicked : Created

-- The service, from its tags on.
abbrev pub with_tags : Option (List String) → (List String → Service) → Created
with_tags none f = panicked
with_tags (some tags) f = created (f tags)

-- The service, from the address of a linked container on.
abbrev pub with_ip : Option String → (String → Created) → Created
with_ip none f = panicked
with_ip (some ip) f = f ip

-- `hostname` is read before the port's address is resolved. The service that the collected metadata
-- describes, under a name that is not the default one.
pub build_service :
    Env
    → Config
    → Container
    → String
    → ServicePort
    → Bool
    → Map String
    → Collected
    → String
    → Created
unfolding origin_id service_name tag_parts service_id service_attrs add_ecs_labels lower_is
    service_number label_ip network_ip
build_service env config c hostname port is_group labels collected name =
    let use_exposed = lower_is (map_default collected.values "use_exposed_ports" "false") "true" in
    let metadata = add_ecs_labels collected.values labels in
    with_ip (network_ip env c.network_mode (label_ip config labels port)) λ ip.
      with_tags (combine_tags (tag_parts config port collected.values)) λ tags. record {
        id = service_id port metadata (origin_id hostname port name);
        name = service_name port is_group collected (default_name c);
        port = service_number config port use_exposed;
        ip = ip;
        use_exposed_ports = use_exposed;
        tags = tags;
        attrs = service_attrs metadata;
        ttl = config.refresh_ttl;
        origin = port;
      }

abbrev pub labels_or_empty : Option (Map String) → Map String
labels_or_empty none = []
labels_or_empty (some m) = m

-- `newService` on the labels as serviceMetaData leaves them.
pub create_from :
    Env → Config → Container → String → ServicePort → Bool → Map String → Collected → Created
unfolding is_refused default_name build_service map_default tail_name
create_from env config c hostname port is_group labels collected =
    if is_refused config collected.values then declined else elim (tail_name (chars c.name)) [
      | none ↦ panicked
      | some name ↦
          if map_default collected.values "name" (default_name c) == default_name c
          then declined
          else build_service env config c hostname port is_group labels collected name
    ]

unfoldable pub new_service : Env → Config → Container → ServicePort → Bool → Created
unfolding create_from merge_env service_meta_data resolve_host_ip origin_hostname
new_service env config c port is_group = elim (merge_env c.labels c.env) [
  | none ↦ panicked
  | some merged ↦
      let labels = labels_or_empty merged in
      create_from env config c (origin_hostname env port) (resolve_host_ip env config port) is_group
        labels (service_meta_data port.exposed_port labels)
]
