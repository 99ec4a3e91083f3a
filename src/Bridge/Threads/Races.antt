-- ===== src/Bridge/Threads/Races.antt =====
-- Two interleavings of the calls for one container, bridge/bridge.go.
use registrator.Common.{
  ◌≡◌, ap, refl, String, Bool, true, false, none, some, List, [], ◌∷◌, eq_self,
}
use registrator.Common.Int.{pos, eq_ℤ}
use registrator.Common.Map.{
  Map, get, get_or, put, delete, get-put_self, get-delete_self, get_or-put, get_or-delete_self,
}
use registrator.Bridge.Types.{Container, Service, ServicePort, DeadContainer}
use registrator.Bridge.Env.{Env}
use registrator.Bridge.World.{Registry, World, ok, lock, unlock}
use registrator.Bridge.Create.{created, new_service}
use registrator.Bridge.Tracking.{
  services_of, revive, append_once, delete_dead_container, append_service,
}
use registrator.Bridge.Add.{register_created, register_ports}
use registrator.Bridge.Remove.{remove, set_aside, remove_body, deregister_dead, deregister_all}
use registrator.Bridge.Threads.{
  reviving, checking, registering, appending, removing, spawn, leaving, next, begin, move, Steps,
  done, before_last,
}
use registrator.Bridge.Threads.AloneAdd.{system, bind-ok, Steps-trans, once, registering_alone}
use registrator.Bridge.Sync.{add_call}

get_or-put_self :
    (id : String) (ss : List Service) (m : Map (List Service)) → get_or [] id (put id ss m) ≡ ss
get_or-put_self id ss m = rw (get_or-put [] id id ss m, eq_self id) refl

module _ (R : Registry) (Possible : Env → Type 0) (env : Env) (possible : Possible env) where
  remove-untracked :
      (id : String) (w : World R.State)
      → w.locked ≡ false
      → services_of id w ≡ []
      → get id w.dead_containers ≡ none
      → remove R env id true w ≡ ok (record w { locked = false; services = delete id w.services })
  unfolding remove remove_body deregister_dead deregister_all
  remove-untracked id w free n d = rw (free, n, lock) (rw (d, deregister_dead) refl)

  -- The world behind the registration of a service of a container that is not tracked.
  abbrev tracked_alone : String → Service → World R.State → World R.State
  tracked_alone id s w = record w {
    locked = false;
    services = put id (s ∷ []) (delete id w.services);
    registry = (R.register s w.registry).0;
  }

  register_ports-one :
      (c : Container) (g : Bool) (port : ServicePort) (s : Service) (w : World R.State)
      → new_service env w.config c port g ≡ created s
      → (R.register s w.registry).1 ≡ true
      → register_ports R env c g
          (port ∷ [])
          (record w { locked = false; services = delete c.id w.services })
        ≡ ok (tracked_alone c.id s w)
  unfolding register_ports register_created append_service append_once
  register_ports-one c g port s w made taken =
      rw (made, taken) (rw (get_or-delete_self [] c.id w.services) refl)

  -- With a free lock and a container that is neither tracked nor set aside: if `add` stands before
  -- the registration of its last port, and the container is removed in the meantime, then the
  -- removal deregisters nothing, and both calls end with a service of the removed container registered
  -- and tracked. The registry takes the service that newService makes of the port.
  pub remove_overtaken :
      (c : Container) (g : Bool) (port : ServicePort) (s : Service) (w : World R.State)
      → w.locked ≡ false
      → services_of c.id w ≡ []
      → get c.id w.dead_containers ≡ none
      → new_service env w.config c port g ≡ created s
      → (R.register s w.registry).1 ≡ true
      → (w' : World R.State) × Steps R Possible
          (system w (registering c g (port ∷ []) ∷ removing c.id true ∷ []))
          (system w' [])
        × (services_of c.id w' ≡ s ∷ [])
        × (w'.registry ≡ (R.register s w.registry).0)
  unfolding next
  remove_overtaken c g port s w free n d made taken = (
    tracked_alone c.id s w,
    Steps-trans R Possible
        (before_last done (
          move env (registering c g (port ∷ []) ∷ []) (removing c.id true) [] [] _ possible refl
            (bind-ok _ (leaving []) _ (remove-untracked c.id w free n d))))
        (registering_alone R Possible env possible c g (port ∷ []) _ (tracked_alone c.id s w)
          (register_ports-one c g port s w made taken)),
    get_or-put_self c.id (s ∷ []) (delete c.id w.services),
    refl,
  )

  abbrev set_apart : String → Service → World R.State → World R.State
  set_apart id s w = record w {
    locked = false;
    services = delete id w.services;
    dead_containers =
        put id (record { ttl = w.config.refresh_ttl; services = s ∷ [] }) w.dead_containers;
  }

  remove-set_apart :
      (id : String) (s : Service) (w : World R.State)
      → w.locked ≡ false
      → eq_ℤ w.config.refresh_ttl (pos 0) ≡ false
      → services_of id w ≡ s ∷ []
      → remove R env id false w ≡ ok (set_apart id s w)
  unfolding remove remove_body set_aside
  remove-set_apart id s w free t n = rw (free, t, n, lock) refl

  abbrev in_both : String → Service → Service → World R.State → World R.State
  in_both id s s' w =
      let w' = set_apart id s w in record w' { services = put id (s' ∷ []) w'.services }

  append-in_both :
      (id : String) (s s' : Service) (w : World R.State)
      → append_service id s' (set_apart id s w) ≡ ok (in_both id s s' w)
  unfolding append_service append_once
  append-in_both id s s' w = rw (get_or-delete_self [] id w.services) refl

  abbrev back : String → Service → Service → World R.State → World R.State
  back id s s' w =
      let w' = in_both id s s' w in
      record w' {
        services = put id (s ∷ []) w'.services;
        dead_containers = delete id w'.dead_containers;
      }

  revive-some :
      (id : String) (d : DeadContainer) (w : World R.State)
      → get id w.dead_containers ≡ some d
      → revive id w ≡ record w {
        services = put id d.services w.services;
        dead_containers = delete id w.dead_containers;
      }
  unfolding revive
  revive-some id d w e = rw (e, revive) refl

  delete_dead_container-back :
      (id : String) (s s' : Service) (w : World R.State)
      → delete_dead_container id (in_both id s s' w) ≡ ok (back id s s' w)
  unfolding delete_dead_container
  delete_dead_container-back id s s' w =
      let d : DeadContainer = record { ttl = w.config.refresh_ttl; services = s ∷ [] } in
      ap (λ v. ok (unlock v))
        (revive-some id d (record (in_both id s s' w) { locked = true })
          (get-put_self id d w.dead_containers))

  -- With a free lock, a time to live that is not zero and a container with one tracked service:
  -- if `add` stands before appendService with another service that the registry took, and the
  -- container exits in the meantime without being deregistered, then the calls end with the first
  -- service set aside and the second tracked. The next start drops the second from the map, and
  -- the registry is not told.
  pub restart_overtaken :
      (c : Container) (g : Bool) (ip : String) (s s' : Service) (w : World R.State)
      → w.locked ≡ false
      → eq_ℤ w.config.refresh_ttl (pos 0) ≡ false
      → services_of c.id w ≡ s ∷ []
      → (w' : World R.State) × (w'' : World R.State) × Steps R Possible
          (system w (appending s' c g [] ∷ removing c.id false ∷ []))
          (system w' [])
        × (services_of c.id w' ≡ s' ∷ [])
        × (get c.id w'.dead_containers
            ≡ some (record { ttl = w.config.refresh_ttl; services = s ∷ [] }))
        × Steps R Possible (system w' []) (system w'' (checking c.id ip ∷ []))
        × (services_of c.id w'' ≡ s ∷ [])
        × (get c.id w''.dead_containers ≡ none)
        × (w''.registry ≡ w.registry)
  unfolding next spawn
  restart_overtaken c g ip s s' w free t n = (
    in_both c.id s s' w,
    back c.id s s' w,
    Steps-trans R Possible
        (before_last done (
          move env (appending s' c g [] ∷ []) (removing c.id false) [] [] _ possible refl
            (bind-ok _ (leaving []) _ (remove-set_apart c.id s w free t n))))
        (Steps-trans R Possible
          (once R Possible env possible (appending s' c g []) (registering c g [] ∷ []) _
            (in_both c.id s s' w) (bind-ok _ (leaving _) _ (append-in_both c.id s s' w)))
          (once R Possible env possible (registering c g []) [] _ _ refl)),
    get_or-put_self c.id (s' ∷ []) (delete c.id w.services),
    get-put_self c.id _ w.dead_containers,
    Steps-trans R Possible (before_last done (begin (add_call c.id ip))) (
        once R Possible env possible (reviving c.id ip) (checking c.id ip ∷ []) _ _
          (bind-ok _ (leaving _) _ (delete_dead_container-back c.id s s' w))),
    get_or-put_self c.id (s ∷ []) _,
    get-delete_self c.id _,
    refl,
  )
