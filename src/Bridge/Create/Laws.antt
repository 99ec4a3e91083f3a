-- ===== src/Bridge/Create/Laws.antt =====
-- What newService of bridge/bridge.go makes of a container's port.
use package.text.Mathlib.TextLemmas.{
  append_assoc as text_append_assoc, append-nil as text_append-nil,
}
use registrator.Common.{
  ◌≡◌, ◌≢◌, refl, String, ◌<>◌, Bool, none, some, List, [], ◌∷◌, All, Bool-cases, Option-cases,
  ◌==◌, inl, inr, ◌⊎◌, ◌≤◌, length, ltb, ℕ, false, arith,
}
use registrator.Common.Map.{Map, get, put, get-delete}
use registrator.Common.Text.{chars, text, strip_prefix}
use registrator.Bridge.Types.{Container, ServicePort, Config}
use registrator.Bridge.Env.{Env}
use registrator.Bridge.Tags.Laws.{combine_tags_lem}
use registrator.Bridge.Metadata.{
  map_default, merge_env, split_variable, Collected, service_meta_data,
}
use registrator.Bridge.ServiceId.{find_service_id, is_end}
use registrator.Bridge.ServiceId.Laws.{IsHost, IsContainerName, IsNumber, find_of_parts}
use registrator.Bridge.Create.{
  panicked, with_tags, with_ip, linked_id, network_ip, label_ip, build_service, create_from,
  new_service, origin_hostname, resolve_host_ip, origin_id, service_id, service_attrs, tail_name,
  tag_parts, is_refused, default_name,
}

udp_id :
    (h n p : String)
    → (h <> (":" <> (n <> (":" <> p)))) <> ":udp" ≡ h <> (":" <> (n <> (":" <> (p <> ":udp"))))
udp_id h n p = simp text_append_assoc

tcp_id :
    (h n p : String) → h <> (":" <> (n <> (":" <> p))) ≡ h <> (":" <> (n <> (":" <> (p <> ""))))
tcp_id h n p = rw text_append-nil refl

-- The ID of a service whose metadata names none is read back by the pattern of the clean-up as the
-- host's name and the container's, for both protocols. The host's name holds no colon and no line
-- feed, the container's is one that Docker accepts, and the exposed port is a number.
pub find_service_id-service_id :
    (hostname name : String) (port : ServicePort) (metadata : Map String)
    → IsHost (chars hostname)
    → IsContainerName (chars name)
    → IsNumber (chars port.exposed_port)
    → get "id" metadata ≡ none
    → find_service_id (service_id port metadata (origin_id hostname port name))
      ≡ some (hostname, name)
unfolding service_id map_default origin_id
find_service_id-service_id hostname name port metadata hh hn hp h =
    rw (h, service_id)
      (elim (Bool-cases (port.port_type == "udp")) [
        | inl e ↦ rw e (
            rw (udp_id hostname name port.exposed_port) (
              find_of_parts hostname name port.exposed_port hh hn hp ":udp"
                (unfold is_end in refl)))
        | inr e ↦ rw e (
            rw (tcp_id hostname name port.exposed_port)
              (find_of_parts hostname name port.exposed_port hh hn hp "" (unfold is_end in refl)))
      ])

-- The attributes never hold the keys that have become the ID, the tags and the name.
service_attrs_lem :
    (metadata : Map String)
    → (get "id" (service_attrs metadata) ≡ none)
      × (get "tags" (service_attrs metadata) ≡ none)
      × (get "name" (service_attrs metadata) ≡ none)
unfolding service_attrs
service_attrs_lem metadata = (simp get-delete, simp get-delete, simp get-delete)

-- A variable of the environment holds a `=`.
abbrev IsAssignment : String → Type 0
IsAssignment v = (split_variable v).1 ≢ none

merge_env-total :
    (m : Map String) (env : List String)
    → All IsAssignment env
    → (m' : Map String) × (merge_env (some m) env ≡ some (some m'))
unfolding merge_env
merge_env-total m [] h = (m, refl)
merge_env-total m (v ∷ env) (hv, h) = elim (Option-cases (split_variable v).1) [
  | inl e ↦ absurd (hv e)
  | inr (value, e) ↦ rw (e, merge_env) (merge_env-total (put (split_variable v).0 value m) env h)
]

-- A network mode that links another container names it with twelve bytes at least.
abbrev IsLinkable : String → Type 0
IsLinkable mode =
    (strip_prefix (chars "container:") (chars mode) ≡ none) ⊎ (12 ≤ length (linked_id mode))

long_enough : (n : ℕ) → 12 ≤ n → ltb n 12 ≡ false
long_enough n h = ground arith

network_ip-total :
    (env : Env) (mode ip : String)
    → IsLinkable mode
    → (ip' : String) × (network_ip env mode ip ≡ some ip')
unfolding network_ip
network_ip-total env mode ip (inl e) = rw (e, network_ip) (ip, refl)
network_ip-total env mode ip (inr h) =
    elim (Option-cases (strip_prefix (chars "container:") (chars mode))) [
      | inl e ↦ rw (e, network_ip) (ip, refl)
      | inr (rest, e) ↦ rw (e, long_enough (length (linked_id mode)) h, network_ip) (_, refl)
    ]

build_service_total :
    (env : Env) (config : Config) (c : Container) (hostname : String) (port : ServicePort)
    (is_group : Bool) (labels : Map String) (collected : Collected) (name : String)
    → IsLinkable c.network_mode
    → build_service env config c hostname port is_group labels collected name ≢ panicked
unfolding build_service
build_service_total env config c hostname port is_group labels collected name linked e =
    let (ip, i) = network_ip-total env c.network_mode (label_ip config labels port) linked in
    let e' =
      rw (i, with_ip, combine_tags_lem (tag_parts config port collected.values), with_tags) at e in
    cc

tail_name-none : (s : String) → tail_name (chars s) ≡ none → s ≡ ""
unfolding tail_name
tail_name-none String.[] h = refl
tail_name-none (String.◌∷◌ c s) h = cc

create_from_total :
    (env : Env) (config : Config) (c : Container) (hostname : String) (port : ServicePort)
    (is_group : Bool) (labels : Map String) (collected : Collected)
    → c.name ≢ ""
    → IsLinkable c.network_mode
    → create_from env config c hostname port is_group labels collected ≢ panicked
unfolding create_from tail_name
create_from_total env config c hostname port is_group labels collected hn linked e =
    elim (Bool-cases (is_refused config collected.values)) [
      | inl r ↦ let e' = rw (r, create_from) at e in cc
      | inr r ↦ elim (Option-cases (tail_name (chars c.name))) [
        | inl n ↦ hn (tail_name-none c.name n)
        | inr (name, n) ↦
            elim (Bool-cases
              (map_default collected.values "name" (default_name c) == default_name c)) [
                | inl d ↦ let e' = rw (r, n, d, create_from) at e in cc
                | inr d ↦
                    build_service_total env config c hostname port is_group labels collected name
                      linked (rw (r, n, d, create_from) at e)
              ]
      ]
    ]

-- newService never panics on a container that has labels, a name, only assignments in its
-- environment, and a network mode that either links no container or links one by an id of twelve
-- bytes at least, whatever else it holds.
pub new_service_total :
    (env : Env) (config : Config) (c : Container) (port : ServicePort) (is_group : Bool)
    (m : Map String)
    → c.labels ≡ some m
    → All IsAssignment c.env
    → c.name ≢ ""
    → IsLinkable c.network_mode
    → new_service env config c port is_group ≢ panicked
unfolding new_service
new_service_total env config c port is_group m hl he hn linked e =
    let (m', merged) = merge_env-total m c.env he in
    let merged' : merge_env c.labels c.env ≡ some (some m') = rw hl merged in
    create_from_total env config c (origin_hostname env port) (resolve_host_ip env config port)
      is_group m' (service_meta_data port.exposed_port m') hn linked
      (rw (merged', new_service) at e)
