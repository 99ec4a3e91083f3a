-- ===== src/Bridge/Add/Laws.antt =====
-- What `add` of bridge/bridge.go registers, and what it keeps.
use registrator.Common.{
  ◌≡◌, ◌⊎◌, refl, ◌∙◌, String, Bool, true, false, Option, none, some, List, [], ◌∷◌, inl, inr,
  if◌then◌else◌, eq_self, Bool-cases, arith,
}
use registrator.Common.Map.{Map, get, get_or, put, get_or-put}
use registrator.Bridge.Types.{Container, ServicePort, Config, Service}
use registrator.Bridge.Env.{Env, found}
use registrator.Bridge.World.{Registry, World, ok}
use registrator.Bridge.Create.{Created, created, declined, panicked, new_service}
use registrator.Bridge.Tracking.{
  is_nil, services_of, revive, delete_dead_container, append_once, append_service,
}
use registrator.Bridge.Add.{
  container_ports, wanted_ports, is_group_of, register_created, register_ports, add_container,
  add_inspected, add,
}

-- The services of the ports that newService does not decline; `none` if one of them panics.
abbrev add_created : Created → Option (List Service) → Option (List Service)
add_created panicked ss = none
add_created declined ss = ss
add_created (created s) none = none
add_created (created s) (some ss) = some (s ∷ ss)

unfoldable pub creations :
    Env → Config → Container → Bool → List ServicePort → Option (List Service)
creations env config c is_group [] = some []
creations env config c is_group (p ∷ ps) =
    add_created (new_service env config c p is_group) (creations env config c is_group ps)

-- The services of a container are tracked once, by the first of the new ones.
unfoldable pub keep_first : String → List Service → Map (List Service) → Map (List Service)
keep_first id [] m = m
keep_first id (s ∷ ss) m = if is_nil (get_or [] id m) then put id (s ∷ []) m else m

nil_of_is_nil : (ss : List Service) → is_nil ss ≡ true → ss ≡ []
nil_of_is_nil [] h = refl
nil_of_is_nil (s ∷ ss) h = cc

add_created_cases :
    (x : Created) (rest : Option (List Service)) (ss : List Service)
    → add_created x rest ≡ some ss
    → ((x ≡ declined) × (rest ≡ some ss))
      ⊎ ((s : Service) × (ss' : List Service) × (x ≡ created s)
          × (rest ≡ some ss')
          × (ss ≡ s ∷ ss'))
add_created_cases panicked rest ss e = cc
add_created_cases declined rest ss e = inl (refl, e)
add_created_cases (created s) none ss e = cc
add_created_cases (created s) (some ss') ss e = inr (s, ss', refl, refl, ground arith)

append_once-keep_first :
    {S : Type 0} (id : String) (s : Service) (w : World S)
    → append_once id s w ≡ record w { services = keep_first id (s ∷ []) w.services }
unfolding append_once keep_first
append_once-keep_first id s w = elim (Bool-cases (is_nil (services_of id w))) [
  | inl e ↦ rw e (rw (nil_of_is_nil _ e) refl)
  | inr e ↦ rw e
]

keep_first-twice :
    (id : String) (s : Service) (ss : List Service) (m : Map (List Service))
    → keep_first id ss (keep_first id (s ∷ []) m) ≡ keep_first id (s ∷ ss) m
unfolding keep_first
keep_first-twice id s [] m = refl
keep_first-twice id s (t ∷ ss) m = elim (Bool-cases (is_nil (get_or [] id m))) [
  | inl e ↦ rw e (rw (get_or-put [] id id (s ∷ []) m, eq_self id) refl)
  | inr e ↦ rw (e, e)
]

module _ (R : Registry) (env : Env) where
  unfoldable pub register_all : List Service → R.State → R.State
  register_all [] r = r
  register_all (s ∷ ss) r = register_all ss (R.register s r).0

  abbrev pub Accepts : Type 0
  Accepts = (s : Service) (r : R.State) → (R.register s r).1 ≡ true

  -- The state after the last loop of `add`.
  abbrev pub added : String → List Service → World R.State → World R.State
  added id ss w = record w {
    registry = register_all ss w.registry;
    services = keep_first id ss w.services;
  }

  register_created_lem :
      Accepts
      → (id : String) (s : Service) (w : World R.State) → w.locked ≡ false
      → register_created R env id (created s) w
        ≡ ok (record w {
          locked = false;
          registry = (R.register s w.registry).0;
          services = keep_first id (s ∷ []) w.services;
        })
  unfolding register_created append_service append_once keep_first
  register_created_lem accepts id s w h =
      rw (accepts s w.registry, h) (rw (append_once-keep_first id s _) refl)

  -- With a registry that accepts every service, the ports' services are registered one after the
  -- other, and the first alone is kept.
  register_ports_lem :
      Accepts
      → (c : Container) (is_group : Bool) (ports : List ServicePort) (ss : List Service)
        (w : World R.State)
      → w.locked ≡ false
      → creations env w.config c is_group ports ≡ some ss
      → register_ports R env c is_group ports w ≡ ok (added c.id ss w)
  unfolding register_ports creations register_all keep_first
  register_ports_lem accepts c is_group [] ss w h e =
      let none_left : ss ≡ [] = ground arith in rw none_left refl
  register_ports_lem accepts c is_group (p ∷ ps) ss w h e =
      elim (add_created_cases (new_service env w.config c p is_group) _ ss e) [
        | inl (x, rest) ↦
            rw (x, register_ports, register_created)
              (register_ports_lem accepts c is_group ps ss w h rest)
        | inr (s, ss', x, rest, eq) ↦
            rw (x, register_ports)
              (rw (register_created_lem accepts c.id s w h, eq)
                (register_ports_lem accepts c is_group ps ss' _ refl rest
                  ∙ rw (keep_first-twice c.id s ss' w.services, h) refl))
      ]

  -- Before the ports are looked at: a container without services and with none set aside is
  -- inspected.
  add_fresh :
      (id ip : String) (w : World R.State)
      → w.locked ≡ false
      → services_of id w ≡ []
      → get id w.dead_containers ≡ none
      → add R env id ip w ≡ add_inspected R env (env.inspect id) ip w
  unfolding add delete_dead_container revive
  add_fresh id ip w h s d = ground arith

  -- With a free lock, a container that is neither tracked nor set aside and that Docker finds is
  -- added: with a registry that accepts every service, and where no panic stops the choice of its
  -- ports and the making of their services, the services of all its wanted ports are registered
  -- in turn, and the first of them alone is kept for the container.
  pub add_registers :
      Accepts
      → (id ip : String) (c : Container) (ports : List ServicePort) (ss : List Service)
        (w : World R.State)
      → w.locked ≡ false
      → services_of id w ≡ []
      → get id w.dead_containers ≡ none
      → env.inspect id ≡ found c
      → wanted_ports w.config c (container_ports env c ip) ≡ some ports
      → creations env w.config c (is_group_of ports) ports ≡ some ss
      → add R env id ip w ≡ ok (added c.id ss w)
  unfolding add_container
  add_registers accepts id ip c ports ss w h s d i p e =
      add_fresh id ip w h s d
      ∙ rw (i, add_inspected)
          (rw (p, add_container) (register_ports_lem accepts c (is_group_of ports) ports ss w h e))
