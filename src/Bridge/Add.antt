-- ===== src/Bridge/Add.antt =====
-- `add` of bridge/bridge.go. The log is not modelled; neither are the slices of a container's id to
-- twelve bytes that are made for it, so ids are taken to have twelve bytes.
pub mod Laws
pub mod Ports
use registrator.Common.{
  ℕ, zero, suc, String, Bool, true, false, ◌&&◌, ◌||◌, not, Option, none, some, List, [], ◌∷◌, ◌++◌,
  if◌then◌else◌, ◌==◌, ltb, num_eq, ◌/◌, ◌%◌,
}
use registrator.Common.Int.{ℤ, pos, negsuc, ◌-ℤ◌, leb_ℤ, eq_ℤ}
use registrator.Common.Map.{Map, get, get_or, put, delete}
use registrator.Bridge.Types.{Container, ServicePort, PortBinding, Config, Service, DeadContainer}
use registrator.Bridge.Env.{Env, Inspected, found, no_such_container, inspect_error}
use registrator.Bridge.Metadata.{lookup_meta_data}
use registrator.Bridge.Port.{service_port}
use registrator.Bridge.Create.{Created, created, declined, panicked, new_service}
use registrator.Bridge.World.{
  Registry, World, Outcome, ok, blocked, panic, exit, ◌>>=◌, lock, unlock,
}
use registrator.Bridge.Tracking.{
  is_nil, services_of, revive, delete_dead_container, append_once, append_service,
}

-- The first two loops of `add`: the exposed ports, then the published ones over them.
exposed_ports : Env → Container → String → List String → Map ServicePort → Map ServicePort
unfolding service_port put
exposed_ports env c new_ip [] ports = ports
exposed_ports env c new_ip (port ∷ rest) ports =
    let binding : PortBinding = record { host_ip = "0.0.0.0"; host_port = env.port_number port } in
    let p = service_port c port (binding ∷ []) in
    let p' = if new_ip == "" then p else record p { host_ip = new_ip } in
    exposed_ports env c new_ip rest (put port p' ports)

published_ports : Container → Map (List PortBinding) → Map ServicePort → Map ServicePort
unfolding service_port put
published_ports c [] ports = ports
published_ports c ((port, published) ∷ rest) ports =
    published_ports c rest (put port (service_port c port published) ports)

module _ {ℓ} {A : Type ℓ} where
  abbrev pub insert_at : ℕ → A → List A → List A
  insert_at n x [] = x ∷ []
  insert_at zero x (y ∷ ys) = x ∷ y ∷ ys
  insert_at (suc n) x (y ∷ ys) = y ∷ insert_at n x ys

  -- The list in another order: each element is inserted at its place. Every order is one of these.
  abbrev pub arranged : List ℕ → List A → List A
  arranged [] xs = xs
  arranged (n ∷ ns) [] = []
  arranged (n ∷ ns) (x ∷ xs) = insert_at n x (arranged ns xs)

-- The map that the third loop visits, in the order in which it does. The ports that it keeps go to
-- the last loop in that order.
unfoldable pub container_ports : Env → Container → String → Map ServicePort
unfolding exposed_ports published_ports
container_ports env c new_ip =
    arranged env.port_order
      (published_ports c c.ports (exposed_ports env c new_ip c.exposed_ports []))

-- Whether the third loop keeps a port; `none` is a panic in lookupMetaData.
unfoldable pub is_wanted : Config → Container → ServicePort → Option Bool
unfolding lookup_meta_data
is_wanted config c port = elim (lookup_meta_data c.env "SERVICE_USE_EXPOSED_PORTS") [
  | none ↦ none
  | some exposed ↦ some (not (not config.internal && (exposed == "") && (port.host_port == "")))
]

abbrev keep_port : Option Bool → ServicePort → Option (List ServicePort) → Option (List ServicePort)
keep_port none port rest = none
keep_port (some b) port none = none
keep_port (some true) port (some rest) = some (port ∷ rest)
keep_port (some false) port (some rest) = some rest

unfoldable pub wanted_ports : Config → Container → Map ServicePort → Option (List ServicePort)
unfolding is_wanted
wanted_ports config c [] = some []
wanted_ports config c ((key, port) ∷ ports) =
    keep_port (is_wanted config c port) port (wanted_ports config c ports)

abbrev pub is_group_of : List ServicePort → Bool
is_group_of (p ∷ q ∷ ps) = true
is_group_of _ = false

module _ (R : Registry) (env : Env) where
  -- One round of the last loop: what becomes of a port.
  unfoldable pub register_created : String → Created → World R.State → Outcome (World R.State)
  unfolding append_service
  register_created id panicked w = panic
  register_created id declined w = ok w
  register_created id (created service) w =
      let (r, registered) = R.register service w.registry in
      let w' = record w { registry = r } in
      if registered then append_service id service w' else ok w'

  unfoldable pub register_ports :
      Container → Bool → List ServicePort → World R.State → Outcome (World R.State)
  unfolding register_created new_service
  register_ports c is_group [] w = ok w
  register_ports c is_group (port ∷ ports) w =
      register_created c.id (new_service env w.config c port is_group) w
      >>= register_ports c is_group ports

  -- The part of `add` behind the inspection. With no port at all it ends early or goes through empty
  -- loops, as `quiet` says.
  unfoldable pub add_container : Container → String → World R.State → Outcome (World R.State)
  unfolding container_ports wanted_ports register_ports
  add_container c new_ip w = elim (wanted_ports w.config c (container_ports env c new_ip)) [
    | none ↦ panic
    | some ports ↦ register_ports c (is_group_of ports) ports w
  ]

  abbrev pub add_inspected : Inspected → String → World R.State → Outcome (World R.State)
  add_inspected (found c) new_ip w = add_container c new_ip w
  add_inspected no_such_container new_ip w = ok w
  add_inspected inspect_error new_ip w = ok w

  -- `add`. A container that has services already ends it with the lock held.
  unfoldable pub add : String → String → World R.State → Outcome (World R.State)
  unfolding delete_dead_container add_container get_or
  add id new_ip w = do
    w ← delete_dead_container id w
    w ← lock w
    if is_nil (services_of id w) then add_inspected (env.inspect id) new_ip (unlock w) else ok w
