-- ===== src/Bridge/Remove.antt =====
-- `remove`, `shouldRemove`, `RemoveOnExit`, `Refresh` and `PruneDeadContainers` of bridge/bridge.go.
pub mod Laws
pub mod Pruning
pub mod Leak
use registrator.Common.{
  ℕ, String, Bool, true, false, ◌&&◌, ◌||◌, not, Option, none, some, List, [], ◌∷◌, ◌++◌,
  if◌then◌else◌, ◌==◌, ltb, num_eq, ◌/◌, ◌%◌,
}
use registrator.Common.Int.{ℤ, pos, negsuc, ◌-ℤ◌, leb_ℤ, eq_ℤ}
use registrator.Common.Map.{Map, get, get_or, put, delete}
use registrator.Bridge.Types.{Container, ServicePort, PortBinding, Config, Service, DeadContainer}
use registrator.Bridge.Env.{Env, Inspected, found, no_such_container, inspect_error}
use registrator.Bridge.Metadata.{lookup_meta_data}
use registrator.Bridge.Port.{service_port}
use registrator.Bridge.Create.{Created, created, declined, panicked, new_service}
use registrator.Bridge.World.{
  Registry, World, Outcome, ok, blocked, panic, exit, ◌>>=◌, lock, unlock,
}
use registrator.Bridge.Tracking.{
  is_nil, services_of, revive, delete_dead_container, append_once, append_service,
}

-- `container.State.ExitCode & dockerSignaledBit == dockerSignaledBit` on a two's complement number
abbrev pub is_signaled : ℤ → Bool
is_signaled (pos n) = num_eq (n / 128 % 2) 1
is_signaled (negsuc n) = num_eq (n / 128 % 2) 0

abbrev inspected_remove : Inspected → Bool
inspected_remove no_such_container = true
inspected_remove inspect_error = false
inspected_remove (found c) =
    if c.running then false else if eq_ℤ c.exit_code (pos 0) then true else is_signaled c.exit_code

unfoldable pub should_remove : Env → Config → String → Bool
should_remove env config id =
    if config.deregister_check == "always" then true else inspected_remove (env.inspect id)

-- The loop of PruneDeadContainers. An entry is deleted when its time has run out; what is left has
-- the new time, since the map holds pointers.
unfoldable pub prune_dead : ℤ → Map DeadContainer → Map DeadContainer
unfolding ◌-ℤ◌
prune_dead interval [] = []
prune_dead interval ((id, d) ∷ dead) =
    let ttl = d.ttl -ℤ interval in
    if leb_ℤ ttl (pos 0)
    then prune_dead interval dead
    else (id, record d { ttl = ttl }) ∷ prune_dead interval dead

module _ {S : Type 0} where
  unfoldable pub prune_dead_containers : World S → Outcome (World S)
  unfolding prune_dead
  prune_dead_containers w = do
    w ← lock w
    ok (
        unlock
          (record w { dead_containers = prune_dead w.config.refresh_interval w.dead_containers }))

module _ (R : Registry) (env : Env) where
  -- deregisterAll: a call that fails is logged, and the loop goes on.
  unfoldable pub deregister_all : List Service → R.State → R.State
  deregister_all [] r = r
  deregister_all (s ∷ ss) r = deregister_all ss (R.deregister s r).0

  -- The deregistration of a container that is among the dead ones.
  unfoldable pub deregister_dead : String → World R.State → World R.State
  unfolding deregister_all get delete
  deregister_dead id w = elim (get id w.dead_containers) [
    | none ↦ w
    | some d ↦ record w {
      registry = deregister_all d.services w.registry;
      dead_containers = delete id w.dead_containers;
    }
  ]

  -- The services of a container that may come back are set aside for a time to live.
  unfoldable pub set_aside : String → World R.State → World R.State
  unfolding put get_or
  set_aside id w =
      if not (eq_ℤ w.config.refresh_ttl (pos 0)) && not (is_nil (services_of id w))
      then record w {
        dead_containers =
            put id (record { ttl = w.config.refresh_ttl; services = services_of id w })
              w.dead_containers;
      }
      else w

  unfoldable pub remove_body : String → Bool → World R.State → World R.State
  unfolding deregister_dead set_aside delete deregister_all get_or
  remove_body id deregister w =
      let w' =
        if deregister
        then deregister_dead id
            (record w { registry = deregister_all (services_of id w) w.registry })
        else set_aside id w in
      record w' { services = delete id w'.services }

  unfoldable pub remove : String → Bool → World R.State → Outcome (World R.State)
  unfolding remove_body
  remove id deregister w = do w ← lock w; ok (unlock (remove_body id deregister w))

  unfoldable pub remove_on_exit : String → World R.State → Outcome (World R.State)
  unfolding remove should_remove
  remove_on_exit id w = remove id (should_remove env w.config id) w

  -- The loops of Refresh, over the copy of the services that getServicesCopy makes.
  unfoldable pub refresh_services : List Service → R.State → R.State
  refresh_services [] r = r
  refresh_services (s ∷ ss) r = refresh_services ss (R.refresh s r).0

  unfoldable pub refresh_containers : Map (List Service) → R.State → R.State
  unfolding refresh_services
  refresh_containers [] r = r
  refresh_containers ((id, ss) ∷ m) r = refresh_containers m (refresh_services ss r)

  unfoldable pub refresh : World R.State → Outcome (World R.State)
  unfolding refresh_containers
  refresh w = do
    w ← lock w
    let copy = w.services
    ok (record w { registry = refresh_containers copy w.registry; locked = false })
