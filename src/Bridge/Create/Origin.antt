-- ===== src/Bridge/Create/Origin.antt =====
-- The port that newService of bridge/bridge.go notes as a service's origin.
use registrator.Common.{
  ◌≡◌, inl, inr, refl, String, Bool, none, some, Option, List, Bool-cases, Option-cases, ◌==◌,
}
use registrator.Common.Map.{Map}
use registrator.Common.Text.{chars}
use registrator.Bridge.Types.{Container, ServicePort, Config, Service}
use registrator.Bridge.Env.{Env}
use registrator.Bridge.Metadata.{map_default, merge_env, Collected, service_meta_data}
use registrator.Bridge.Create.{
  Created, created, declined, panicked, with_tags, with_ip, network_ip, label_ip, build_service,
  labels_or_empty, create_from, new_service, tail_name, is_refused, default_name, resolve_host_ip,
  origin_hostname,
}

-- A service that is made is such.
abbrev pub WhenCreated : (Service → Type 0) → Created → Type 0
WhenCreated P (created s) = P s
WhenCreated P declined = Unit
WhenCreated P panicked = Unit

-- The service is of this port, and its container has a name.
abbrev pub IsOf : Container → ServicePort → Service → Type 0
IsOf c port s = (s.origin ≡ port) × (n : String) × (tail_name (chars c.name) ≡ some n)

with_tags-IsOf :
    (c : Container) (port : ServicePort) (tags : Option (List String)) (f : List String → Service)
    → ((ts : List String) → IsOf c port (f ts))
    → WhenCreated (IsOf c port) (with_tags tags f)
with_tags-IsOf c port none f h = tt
with_tags-IsOf c port (some ts) f h = h ts

module _ (env : Env) (config : Config) (c : Container) where
  build_service-IsOf :
      (hostname : String) (port : ServicePort) (is_group : Bool) (labels : Map String)
      (collected : Collected) (name : String)
      → tail_name (chars c.name) ≡ some name
      → WhenCreated
          (IsOf c port)
          (build_service env config c hostname port is_group labels collected name)
  unfolding build_service
  build_service-IsOf hostname port is_group labels collected name e =
      elim (Option-cases (network_ip env c.network_mode (label_ip config labels port))) [
        | inl i ↦ rw (i, with_ip) tt
        | inr (ip, i) ↦ rw (i, with_ip) (with_tags-IsOf c port _ _ (λ ts. (refl, name, e)))
      ]

  create_from-IsOf :
      (hostname : String) (port : ServicePort) (is_group : Bool) (labels : Map String)
      (collected : Collected)
      → WhenCreated (IsOf c port) (create_from env config c hostname port is_group labels collected)
  unfolding create_from
  create_from-IsOf hostname port is_group labels collected =
      elim (Bool-cases (is_refused config collected.values)) [
        | inl r ↦ rw (r, create_from) tt
        | inr r ↦ elim (Option-cases (tail_name (chars c.name))) [
          | inl n ↦ rw (r, n, create_from) tt
          | inr (name, n) ↦
              elim (Bool-cases
                (map_default collected.values "name" (default_name c) == default_name c)) [
                  | inl d ↦ rw (r, n, d, create_from) tt
                  | inr d ↦
                      rw (r, n, d, create_from)
                        (build_service-IsOf hostname port is_group labels collected name n)
                ]
        ]
      ]

  pub new_service-IsOf :
      (port : ServicePort) (is_group : Bool)
      → WhenCreated
          (IsOf c (resolve_host_ip env config port))
          (new_service env config c port is_group)
  unfolding new_service
  new_service-IsOf port is_group = elim (Option-cases (merge_env c.labels c.env)) [
    | inl e ↦ rw (e, new_service) tt
    | inr (merged, e) ↦
        rw (e, new_service)
          (create_from-IsOf (origin_hostname env port) (resolve_host_ip env config port) is_group
            (labels_or_empty merged) (service_meta_data port.exposed_port (labels_or_empty merged)))
  ]
