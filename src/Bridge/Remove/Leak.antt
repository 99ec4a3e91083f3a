-- ===== src/Bridge/Remove/Leak.antt =====
-- `add` and then `remove` of bridge/bridge.go, for a container with several services.
use registrator.Common.{◌≡◌, refl, ◌∙◌, ap, String, true, false, none, some, List, [], ◌∷◌, eq_self}
use registrator.Common.Map.{get, get_or-put}
use registrator.Bridge.Types.{Container, ServicePort, Service}
use registrator.Bridge.Env.{Env, found}
use registrator.Bridge.World.{Registry, World, ok}
use registrator.Bridge.Tracking.{services_of}
use registrator.Bridge.Add.{container_ports, wanted_ports, is_group_of, add}
use registrator.Bridge.Add.Laws.{Accepts, creations, register_all, keep_first, added, add_registers}
use registrator.Bridge.Remove.{deregister_all, remove}
use registrator.Bridge.Remove.Laws.{remove_deregisters, aside_of}

none_aside :
    {S : Type 0} (id : String) (w : World S) → get id w.dead_containers ≡ none → aside_of id w ≡ []
none_aside id w e = rw (e, aside_of) refl

module _ (R : Registry) (env : Env) where
  kept_one :
      (id : String) (s : Service) (ss : List Service) (w : World R.State)
      → services_of id w ≡ []
      → services_of id (added R env id (s ∷ ss) w) ≡ s ∷ []
  unfolding keep_first
  kept_one id s ss w n = rw n (rw (get_or-put [] id id (s ∷ []) w.services, eq_self id) refl)

  deregister_one :
      (s : Service) (r : R.State) → deregister_all R env (s ∷ []) r ≡ (R.deregister s r).0
  unfolding deregister_all
  deregister_one s r = refl

  -- With a free lock, a container that is neither tracked nor set aside and that Docker finds is
  -- added and then removed. With a registry that accepts every service, and where the making of
  -- the services does not panic and makes one at least, all the services of its wanted ports have
  -- been registered, and of them the first alone is deregistered: the others stay in the
  -- registry.
  pub remove-add :
      Accepts R env
      → (id ip : String) (c : Container) (ports : List ServicePort) (s : Service)
        (ss : List Service) (w : World R.State)
      → w.locked ≡ false
      → services_of id w ≡ []
      → get id w.dead_containers ≡ none
      → env.inspect id ≡ found c
      → c.id ≡ id
      → wanted_ports w.config c (container_ports env c ip) ≡ some ports
      → creations env w.config c (is_group_of ports) ports ≡ some (s ∷ ss)
      → (w' : World R.State) × (w'' : World R.State) × (add R env id ip w ≡ ok w')
        × (remove R env id true w' ≡ ok w'')
        × (w''.registry ≡ (R.deregister s (register_all R env (s ∷ ss) w.registry)).0)
        × (services_of id w'' ≡ [])
  remove-add accepts id ip c ports s ss w h n d i cid wanted made =
      let w' = added R env id (s ∷ ss) w in
      let (w'', removed, registry, gone, _, _, _) = remove_deregisters R env id w' h in
      (
        w',
        w'',
        add_registers R env accepts id ip c ports (s ∷ ss) w h n d i wanted made
            ∙ ap (λ j. ok (added R env j (s ∷ ss) w)) cid,
        removed,
        registry
            ∙ rw (kept_one id s ss w n, none_aside id (added R env id (s ∷ ss) w) d)
                (deregister_one s _),
        gone,
      )
