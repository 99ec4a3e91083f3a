-- ===== src/Bridge/Create/Fields.antt =====
-- The fields of a service, each as newService of bridge/bridge.go computes it.
use registrator.Common.{
  String, ◌<>◌, Char, Bool, false, ◌&&◌, ◌||◌, not, Option, none, some, List, [], ◌∷◌, reverse,
  if◌then◌else◌, ◌==◌, ltb, length,
}
use registrator.Common.Int.{ℤ, pos}
use registrator.Common.Map.{Map, get_or, put, delete}
use registrator.Common.Text.{chars, text, is, split, strip_prefix, contains, to_lower, atoi}
use registrator.Bridge.Types.{Container, ServicePort, Config}
use registrator.Bridge.Env.{Env, Inspected, found, no_such_container, inspect_error}
use registrator.Bridge.Metadata.{map_default, Collected}

strip_slashes : List Char → List Char
strip_slashes [] = []
strip_slashes (c ∷ s) = if is b'/' c then strip_slashes s else c ∷ s

abbrev last_of : List Char → List (List Char) → List Char
last_of d [] = d
last_of d (x ∷ xs) = last_of x xs

-- path.Base
base : List Char → List Char
unfolding strip_slashes split
base path = elim (reverse (strip_slashes (reverse path))) [
  | [] ↦ elim path [ [] ↦ chars "." | _ ∷ _ ↦ chars "/" ]
  | c ∷ s ↦ last_of [] (split b'/' (c ∷ s))
]

abbrev first_of_parts : List (List Char) → List Char
first_of_parts [] = []
first_of_parts (x ∷ xs) = x

-- strings.Split(path.Base(image), ":")[0]
unfoldable pub default_name : Container → String
unfolding base split
default_name c = text (first_of_parts (split b':' (base (chars c.image))))

-- The host's name, or the port's address where there is none.
unfoldable pub origin_hostname : Env → ServicePort → String
origin_hostname env port = if env.hostname == "" then port.host_ip else env.hostname

abbrev or_ip : String → Option String → String
or_ip ip none = ip
or_ip ip (some ip') = ip'

-- `port.HostIP`: an unspecified address is resolved, and a configured one takes precedence.
unfoldable pub resolve_host_ip : Env → Config → ServicePort → ServicePort
unfolding origin_hostname
resolve_host_ip env config port =
    let ip =
      if port.host_ip == "0.0.0.0"
      then or_ip port.host_ip (env.resolve_ip (origin_hostname env port))
      else port.host_ip in
    record port { host_ip = if config.host_ip == "" then ip else config.host_ip }

-- Whether the metadata keeps the service out of the registry.
unfoldable pub is_refused : Config → Map String → Bool
unfolding map_default to_lower
is_refused config metadata =
    not (map_default metadata "ignore" "" == "")
    || (config.require_label
        && (text (to_lower (chars (map_default metadata "register" "false"))) == "false"))

abbrev or_zero : Option ℤ → ℤ
or_zero none = pos 0
or_zero (some n) = n

unfoldable pub service_number : Config → ServicePort → Bool → ℤ
unfolding atoi
service_number config port use_exposed =
    or_zero
      (atoi (chars (if config.internal || use_exposed then port.exposed_port else port.host_port)))

-- The text up to the last slash, or all of it: containerIp[:strings.LastIndex(containerIp, "/")].
unfoldable pub before_last_slash : List Char → Option (List Char)
before_last_slash [] = none
before_last_slash (c ∷ s) = elim (before_last_slash s) [
  | some p ↦ some (c ∷ p)
  | none ↦ if is b'/' c then some [] else none
]

unfoldable pub address_of_label : String → String
unfolding before_last_slash
address_of_label label = elim (before_last_slash (chars label)) [ none ↦ label | some p ↦ text p ]

-- The address: the exposed or the published one, then one from a label.
unfoldable pub label_ip : Config → Map String → ServicePort → String
unfolding get_or address_of_label
label_ip config labels port =
    let ip = if config.internal then port.exposed_ip else port.host_ip in
    let label = get_or "" config.use_ip_from_label labels in
    if config.use_ip_from_label == ""
    then ip
    else if label == ""
    then ip
    else address_of_label label

abbrev inspected_ip : String → Inspected → String
inspected_ip ip (found c) = c.ip_address
inspected_ip ip no_such_container = ip
inspected_ip ip inspect_error = ip

abbrev second_part : List (List Char) → List Char
second_part (x ∷ y ∷ zs) = y
second_part _ = []

-- networkContainerId
unfoldable pub linked_id : String → List Char
unfolding split
linked_id mode = second_part (split b':' (chars mode))

-- A network mode `container:id` takes the address of that container; `none` where the slice of the
-- id to twelve bytes is out of range.
unfoldable pub network_ip : Env → String → String → Option String
unfolding strip_prefix linked_id
network_ip env mode ip = elim (strip_prefix (chars "container:") (chars mode)) [
  | none ↦ some ip
  | some _ ↦
      if ltb (length (linked_id mode)) 12
      then none
      else some (inspected_ip ip (env.inspect (text (linked_id mode))))
]

unfoldable pub is_ecs_label : String → Bool
unfolding contains
is_ecs_label k = contains (chars "com.amazonaws.ecs") (chars k)

unfoldable pub add_ecs_labels : Map String → Map String → Map String
unfolding is_ecs_label put
add_ecs_labels metadata [] = metadata
add_ecs_labels metadata ((k, v) ∷ labels) =
    add_ecs_labels (if is_ecs_label k then put k v metadata else metadata) labels

-- `container.Name[1:]`, `none` at an empty name
unfoldable pub tail_name : List Char → Option String
tail_name [] = none
tail_name (c ∷ s) = some (text s)

unfoldable pub lower_is : String → String → Bool
unfolding to_lower
lower_is s t = text (to_lower (chars s)) == t

-- The ID before a tag or the metadata changes it.
unfoldable pub origin_id : String → ServicePort → String → String
origin_id hostname port name = hostname <> (":" <> (name <> (":" <> port.exposed_port)))

unfoldable pub service_name : ServicePort → Bool → Collected → String → String
unfolding map_default get_or
service_name port is_group c default =
    let name = map_default c.values "name" default in
    if is_group && not (get_or false "name" c.from_port)
    then name <> ("-" <> port.exposed_port)
    else name

unfoldable pub tag_parts : Config → ServicePort → Map String → List String
unfolding map_default
tag_parts config port metadata =
    let tags = map_default metadata "tags" "" in
    if port.port_type == "udp"
    then tags ∷ config.force_tags ∷ "udp" ∷ []
    else tags ∷ config.force_tags ∷ []

unfoldable pub service_id : ServicePort → Map String → String → String
unfolding map_default
service_id port metadata id =
    let own = if port.port_type == "udp" then id <> ":udp" else id in map_default metadata "id" own

-- What is left of the metadata.
unfoldable pub service_attrs : Map String → Map String
unfolding delete
service_attrs metadata = delete "name" (delete "tags" (delete "id" metadata))
