-- ===== src/Bridge/Sync/Adding.antt =====
-- The invariant of a Bridge's maps, as `add`, `appendService`, `deleteDeadContainer` and
-- PruneDeadContainers of bridge/bridge.go keep it.
use registrator.Common.{
  ◌≡◌, refl, String, Bool, true, none, List, [], ◌∷◌, ◌++◌, inl, inr, Option-cases, Bool-cases,
}
use registrator.Common.Map.{get, get-delete_self}
use registrator.Bridge.Types.{Container, ServicePort, Service}
use registrator.Bridge.Env.{Env, Inspected, found, no_such_container, inspect_error}
use registrator.Bridge.World.{Registry, World, ok, lock, unlock}
use registrator.Bridge.Create.{Created, created, declined, panicked, new_service}
use registrator.Bridge.Tracking.{
  is_nil, services_of, revive, delete_dead_container, append_once, append_service,
}
use registrator.Bridge.Add.{
  container_ports, wanted_ports, register_created, register_ports, add_container, add_inspected,
  add,
}
use registrator.Bridge.Remove.{prune_dead_containers}
use registrator.Bridge.Sync.Consistency.{
  IsConsistent, track-IsConsistent, exhume-IsConsistent, prune-IsConsistent,
}
use registrator.Bridge.Ensures.{Ensures, Ensures-bind, Ensures-mono}

module _ {S : Type 0} where
  abbrev pub Inv : World S → Type 0
  Inv w = IsConsistent w.services w.dead_containers

  -- The same, with nothing set aside for a container.
  abbrev InvFor : String → World S → Type 0
  InvFor id w = Inv w × (get id w.dead_containers ≡ none)

  pub lock-Inv :
      (P : World S → Type 0) (w : World S) → P (record w { locked = true }) → Ensures (lock w) P
  lock-Inv P w h = elim (Bool-cases w.locked) [ inl e ↦ rw (e, lock) tt | inr e ↦ rw (e, lock) h ]

  revive-Inv : (id : String) (w : World S) → Inv w → InvFor id (revive id w)
  unfolding revive
  revive-Inv id w v = elim (Option-cases (get id w.dead_containers)) [
    | inl e ↦ rw (e, revive) (v, e)
    | inr (d, e) ↦
        rw (e, revive)
          (
            exhume-IsConsistent w.services w.dead_containers v id d,
            get-delete_self id w.dead_containers,
          )
  ]

  append_once-Inv :
      (id : String) (s : Service) (w : World S) → InvFor id w → InvFor id (append_once id s w)
  unfolding append_once
  append_once-Inv id s w (v, e) = elim (Bool-cases (is_nil (services_of id w))) [
    | inl h ↦
        rw (h, append_once)
          (track-IsConsistent w.services w.dead_containers v id (services_of id w ++ s ∷ []) e, e)
    | inr h ↦ rw (h, append_once) (v, e)
  ]

  delete_dead_container-Inv :
      (id : String) (w : World S) → Inv w → Ensures (delete_dead_container id w) (InvFor id)
  unfolding delete_dead_container
  delete_dead_container-Inv id w v =
      Ensures-bind (lock w) (λ w'. ok (unlock (revive id w'))) Inv (InvFor id) (lock-Inv Inv w v)
        (λ w' v'. revive-Inv id w' v')

  append_service-Inv :
      (id : String) (s : Service) (w : World S)
      → InvFor id w
      → Ensures (append_service id s w) (InvFor id)
  unfolding append_service
  append_service-Inv id s w v =
      Ensures-bind (lock w) (λ w'. ok (unlock (append_once id s w'))) (InvFor id) (InvFor id)
        (lock-Inv (InvFor id) w v) (λ w' v'. append_once-Inv id s w' v')

  pub prune-Inv : (w : World S) → Inv w → Ensures (prune_dead_containers w) Inv
  unfolding prune_dead_containers
  prune-Inv w v =
      Ensures-bind (lock w) _ Inv Inv (lock-Inv Inv w v)
        (λ w' v'. prune-IsConsistent w'.services w'.dead_containers w'.config.refresh_interval v')

-- An inspection by an id finds the container of that id.
abbrev pub FindsById : Env → Type 0
FindsById env = (id : String) (c : Container) → env.inspect id ≡ found c → c.id ≡ id

module _ (R : Registry) (env : Env) where
  register_created-Inv :
      (id : String) (x : Created) (w : World R.State)
      → InvFor id w
      → Ensures (register_created R env id x w) (InvFor id)
  unfolding register_created
  register_created-Inv id panicked w v = tt
  register_created-Inv id declined w v = v
  register_created-Inv id (created s) w v =
      let w' = record w { registry = (R.register s w.registry).0 } in
      elim (Bool-cases (R.register s w.registry).1) [
        | inl e ↦ rw (e, register_created) (append_service-Inv id s w' v)
        | inr e ↦ rw (e, register_created) v
      ]

  register_ports-Inv :
      (c : Container) (is_group : Bool) (ports : List ServicePort) (w : World R.State)
      → InvFor c.id w
      → Ensures (register_ports R env c is_group ports w) (InvFor c.id)
  unfolding register_ports
  register_ports-Inv c is_group [] w v = v
  register_ports-Inv c is_group (p ∷ ps) w v =
      Ensures-bind (register_created R env c.id (new_service env w.config c p is_group) w)
        (register_ports R env c is_group ps) (InvFor c.id) (InvFor c.id)
        (register_created-Inv c.id (new_service env w.config c p is_group) w v)
        (λ w' v'. register_ports-Inv c is_group ps w' v')

  add_container-Inv :
      (c : Container) (ip : String) (w : World R.State)
      → InvFor c.id w
      → Ensures (add_container R env c ip w) Inv
  unfolding add_container
  add_container-Inv c ip w v =
      elim (Option-cases (wanted_ports w.config c (container_ports env c ip))) [
        | inl e ↦ rw (e, add_container) tt
        | inr (ports, e) ↦
            rw (e, add_container)
              (Ensures-mono (register_ports R env c _ ports w) (InvFor c.id) Inv
                (register_ports-Inv c _ ports w v) (λ w' v'. v'.0))
      ]

  add_inspected-Inv :
      (id ip : String) (x : Inspected) (w : World R.State)
      → ((c : Container) → x ≡ found c → c.id ≡ id)
      → InvFor id w
      → Ensures (add_inspected R env x ip w) Inv
  add_inspected-Inv id ip (found c) w h v = add_container-Inv c ip w (rw (h c refl) v)
  add_inspected-Inv id ip no_such_container w h v = v.0
  add_inspected-Inv id ip inspect_error w h v = v.0

  pub add-Inv :
      FindsById env → (id ip : String) (w : World R.State) → Inv w → Ensures (add R env id ip w) Inv
  unfolding add
  add-Inv finds id ip w v =
      Ensures-bind (delete_dead_container id w) _ (InvFor id) Inv (delete_dead_container-Inv id w v)
        (λ w' v'. Ensures-bind (lock w') _ (InvFor id) Inv (lock-Inv (InvFor id) w' v') (λ w'' v''.
          elim (Bool-cases (is_nil (services_of id w''))) [
            | inl e ↦
                rw e (
                  add_inspected-Inv id ip (env.inspect id) (unlock w'') (λ c e'. finds id c e') v'')
            | inr e ↦ rw e v''.0
          ]))
