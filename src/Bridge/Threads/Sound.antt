-- ===== src/Bridge/Threads/Sound.antt =====
-- The services in a Bridge's maps and in its threads, under a step of one thread (bridge/bridge.go,
-- bridge/servicesync.go).
use registrator.Common.{
  ◌≡◌, inl, inr, refl, String, Bool, true, false, none, some, Option, List, [], ◌∷◌, All,
  Bool-cases, map,
}
use registrator.Common.Lists.{All-append}
use registrator.Common.Map.{Map}
use registrator.Common.Values.{AllValues}
use registrator.Bridge.Types.{Container, ServicePort, Config, Service}
use registrator.Bridge.Env.{Env, Inspected, found, no_such_container, inspect_error}
use registrator.Bridge.World.{Registry, World, ok, ◌>>=◌, lock, unlock}
use registrator.Bridge.Create.{Created, created, declined, panicked, new_service}
use registrator.Bridge.Tracking.{
  is_nil, services_of, revive, append_once, delete_dead_container, append_service,
}
use registrator.Bridge.Add.{container_ports}
use registrator.Bridge.Remove.{remove_body, remove, prune_dead, prune_dead_containers}
use registrator.Bridge.Sync.{Call, moved, synchronise}
use registrator.Bridge.Ensures.{Ensures, Ensures-bind}
use registrator.Bridge.Sync.Adding.{lock-Inv}
use registrator.Bridge.Threads.{
  Thread, reviving, checking, inspecting, registering, appending, deciding, removing, copying,
  refreshing, pruning, synchronising, spawn, copied, leaving, checked, with_wanted, inspect_ports,
  with_calls, after_register, register_next, next,
}
use registrator.Bridge.Threads.Sections.{
  Full, Holds, revive-Holds, append_once-Holds, prune-Holds, remove_body-Holds,
}
use registrator.Bridge.Threads.Syncing.{synchronise-Holds}
use registrator.Bridge.Add.Ports.{
  IsPortOf, IsPort, container_ports-IsPortOf, AllSome, wanted_ports-AllSome,
}

-- A service that newService made of a port of the container with this id and that the registry took,
-- or such a one at the address that a synchronisation moved it to.
pub data Genuine (R : Registry) (Possible : Env → Type 0) : String → Service → Type 0 where
  fresh :
      (env : Env) (config : Config) (c : Container) (key : String) (port : ServicePort)
      (is_group : Bool) (s : Service) (r : R.State)
      → Possible env
      → IsPortOf Possible c key port
      → new_service env config c port is_group ≡ created s
      → (R.register s r).1 ≡ true
      → Genuine R Possible c.id s
  readdressed :
      {id : String} (s : Service) (ip : String)
      → Genuine R Possible id s
      → Genuine R Possible id (moved s ip)

module _ (R : Registry) (Possible : Env → Type 0) where
  abbrev IsGenuine : String → Service → Type 0
  IsGenuine = Genuine R Possible

  -- A service that is genuine for some container.
  abbrev IsSome : Service → Type 0
  IsSome s = (id : String) × IsGenuine id s

  -- What holds of the local variables of a thread.
  unfoldable pub CarriesGenuine : Thread → Type 0
  CarriesGenuine (registering c is_group ports) = All (IsPort Possible c) ports
  CarriesGenuine (appending s c is_group ports) = IsGenuine c.id s × All (IsPort Possible c) ports
  CarriesGenuine (refreshing ss) = All IsSome ss
  CarriesGenuine _ = Unit

  abbrev pub Sound : World R.State × List Thread → Type 0
  Sound (w, ts) = Holds IsGenuine w × All CarriesGenuine ts

  pub spawn-CarriesGenuine : (calls : List Call) → All CarriesGenuine (map spawn calls)
  unfolding CarriesGenuine spawn
  spawn-CarriesGenuine [] = tt
  spawn-CarriesGenuine (Call.add_call id ip ∷ calls) = (tt, spawn-CarriesGenuine calls)
  spawn-CarriesGenuine (Call.remove_call id ∷ calls) = (tt, spawn-CarriesGenuine calls)
  spawn-CarriesGenuine (Call.remove_on_exit_call id ∷ calls) = (tt, spawn-CarriesGenuine calls)
  spawn-CarriesGenuine (Call.refresh_call ∷ calls) = (tt, spawn-CarriesGenuine calls)
  spawn-CarriesGenuine (Call.prune_call ∷ calls) = (tt, spawn-CarriesGenuine calls)
  spawn-CarriesGenuine (Call.sync_call message ∷ calls) = (tt, spawn-CarriesGenuine calls)

  copied-All : (m : Map (List Service)) → AllValues (Full IsGenuine) m → All IsSome (copied m)
  unfolding copied
  copied-All [] h = tt
  copied-All ((id, ss) ∷ m) ((_, f), h) =
      All-append IsSome ss (copied m) (of_one ss f) (copied-All m h)
    where
      of_one : (ss : List Service) → All (IsGenuine id) ss → All IsSome ss
      of_one [] h = tt
      of_one (s ∷ ss) (p, h) = ((id, p), of_one ss h)

  -- The lock and the registry do not matter.
  held :
      (b : Bool) (r : R.State) (w : World R.State)
      → Holds IsGenuine w
      → Holds IsGenuine (record w { locked = b; registry = r })
  held b r w v = record {
    keys = v.keys;
    dead_keys = v.dead_keys;
    tracked = v.tracked;
    aside = v.aside;
  }

  -- A section under the lock that keeps the services, and then the thread goes on.
  section-Sound :
      (w : World R.State) (f : World R.State → World R.State) (ts : List Thread)
      → Holds IsGenuine w
      → ((w' : World R.State) → Holds IsGenuine w' → Holds IsGenuine (f w'))
      → All CarriesGenuine ts
      → Ensures ((lock w >>= λ w. ok (unlock (f w))) >>= leaving ts) Sound
  section-Sound w f ts v keeps h =
      Ensures-bind (lock w >>= λ w. ok (unlock (f w))) (leaving ts) (Holds IsGenuine) Sound
        (Ensures-bind (lock w) _ (Holds IsGenuine) (Holds IsGenuine)
          (lock-Inv (Holds IsGenuine) w (held true w.registry w v))
          (λ w' v'. held false (f w').registry (f w') (keeps w' v')))
        (λ w' v'. (v', h))

  checked-Sound :
      (id ip : String) (w : World R.State) → Holds IsGenuine w → Ensures (checked id ip w) Sound
  unfolding CarriesGenuine
  checked-Sound id ip w v = elim (Bool-cases (is_nil (services_of id w))) [
    | inl e ↦ rw e (held false w.registry w v, (tt, tt))
    | inr e ↦ rw e (v, tt)
  ]

  module _ (env : Env) (possible : Possible env) where
    with_wanted-Sound :
        (c : Container) (w : World R.State) (ports : Option (List ServicePort))
        → AllSome (IsPort Possible c) ports
        → Holds IsGenuine w
        → Ensures (with_wanted c w ports) Sound
    unfolding CarriesGenuine
    with_wanted-Sound c w none h v = tt
    with_wanted-Sound c w (some ports) h v = (v, (h, tt))

    inspect_ports-Sound :
        (ip : String) (w : World R.State) (x : Inspected)
        → Holds IsGenuine w
        → Ensures (inspect_ports env ip w x) Sound
    unfolding inspect_ports
    inspect_ports-Sound ip w (found c) v =
        with_wanted-Sound c w _
          (wanted_ports-AllSome (IsPortOf Possible c) w.config c (container_ports env c ip)
            (container_ports-IsPortOf Possible c env ip possible))
          v
    inspect_ports-Sound ip w no_such_container v = (v, tt)
    inspect_ports-Sound ip w inspect_error v = (v, tt)

    register_next-Sound :
        (c : Container) (port : ServicePort) (is_group : Bool) (ports : List ServicePort)
        (w : World R.State) (x : Created)
        → new_service env w.config c port is_group ≡ x
        → IsPort Possible c port
        → All (IsPort Possible c) ports
        → Holds IsGenuine w
        → Ensures (register_next R env c is_group ports w x) Sound
    unfolding register_next CarriesGenuine
    register_next-Sound c port is_group ports w panicked e p h v = tt
    register_next-Sound c port is_group ports w declined e p h v = (v, (h, tt))
    register_next-Sound c port is_group ports w (created s) e (key, p) h v =
        elim (Bool-cases (R.register s w.registry).1) [
          | inl t ↦
              rw (t, after_register)
                (
                  held w.locked (R.register s w.registry).0 w v,
                  ((fresh env w.config c key port is_group s w.registry possible p e t, h), tt),
                )
          | inr t ↦ rw (t, after_register) (held w.locked (R.register s w.registry).0 w v, (h, tt))
        ]

    pub next-Sound :
        (t : Thread) (w : World R.State)
        → CarriesGenuine t
        → Holds IsGenuine w
        → Ensures (next R env t w) Sound
    unfolding next CarriesGenuine delete_dead_container append_service remove prune_dead_containers
    next-Sound (reviving id ip) w h v =
        section-Sound w (revive id) (checking id ip ∷ []) v
          (λ w' v'. revive-Holds IsGenuine w' v' id) (tt, tt)
    next-Sound (checking id ip) w h v =
        Ensures-bind (lock w) _ (Holds IsGenuine) Sound
          (lock-Inv (Holds IsGenuine) w (held true w.registry w v))
          (λ w' v'. checked-Sound id ip w' v')
    next-Sound (inspecting id ip) w h v = inspect_ports-Sound ip w (env.inspect id) v
    next-Sound (registering c g []) w h v = (v, tt)
    next-Sound (registering c g (p ∷ ps)) w (q, h) v =
        register_next-Sound c p g ps w (new_service env w.config c p g) refl q h v
    next-Sound (appending s c g ps) w (q, h) v =
        section-Sound w (append_once c.id s) (registering c g ps ∷ []) v
          (λ w' v'. append_once-Holds IsGenuine w' v' c.id s q) (h, tt)
    next-Sound (deciding id) w h v = (v, (tt, tt))
    next-Sound (removing id d) w h v =
        section-Sound w (remove_body R env id d) [] v
          (λ w' v'. remove_body-Holds IsGenuine R env id d w' v') tt
    next-Sound copying w h v =
        Ensures-bind (lock w) _ (Holds IsGenuine) Sound
          (lock-Inv (Holds IsGenuine) w (held true w.registry w v))
          (λ w' v'. (held false w'.registry w' v', (copied-All w'.services v'.tracked, tt)))
    next-Sound (refreshing []) w h v = (v, tt)
    next-Sound (refreshing (s ∷ ss)) w (q, h) v =
        (held w.locked (R.refresh s w.registry).0 w v, (h, tt))
    next-Sound pruning w h v =
        section-Sound w
          (λ w. record w {
            dead_containers = prune_dead w.config.refresh_interval w.dead_containers;
          })
          [] v (λ w' v'. prune-Holds IsGenuine w' v' w'.config.refresh_interval) tt
    next-Sound (synchronising message) w h v =
        Ensures-bind (synchronise R env message w) with_calls (λ x. Holds IsGenuine x.0) Sound
          (synchronise-Holds IsGenuine (λ id. readdressed {id = id}) R env message w v)
          (λ x v'. (v', spawn-CarriesGenuine x.1))
