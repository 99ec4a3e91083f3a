-- ===== src/Examples/Containers.antt =====
-- The bridge through the life of a container.
use registrator.Common.{
  sym, ap, ◌∙◌, ◌*◌, ◌-◌, ◌≡◌, ◌≢◌, refl, String, Bool, true, false, some, none, List, [], ◌∷◌,
  ◌++◌, arith, leb, if◌then◌else◌, ◌==◌, eq_iff,
}
use registrator.Common.Int.{pos}
use registrator.Common.Map.{get, get_or, has_key}
use registrator.Bridge.Types.{DeadContainer, Container}
use registrator.Bridge.World.{World, ok, blocked}
use registrator.Bridge.Create.{new_service}
use registrator.Bridge.Tags.{combine_tags}
use registrator.Bridge.Tracking.{services_of}
use registrator.Bridge.Add.{add, container_ports, wanted_ports}
use registrator.Bridge.Add.Laws.{add_registers, added, creations}
use registrator.Bridge.Remove.{remove_body, remove, deregister_all}
use registrator.Bridge.Remove.Laws.{remove_deregisters, SameAt, aside_of}
use registrator.Bridge.Remove.Pruning.{dead_container_lifetime, prune_rounds}
use registrator.Bridge.Sync.{refresh_call, remove_on_exit_call, step}
use registrator.Bridge.Sync.Adding.{FindsById, Inv}
use registrator.Bridge.Sync.Invariant.{step-Inv}
use registrator.Bridge.Env.{found, no_such_container}
use registrator.Bridge.Sync.Locking.{restart_blocks}
use registrator.Examples.Fixtures.{
  Event, log_registry, host, web, empty_world, web_world, web_ports, web_services, dead_web,
  dead_world,
}

abbrev pub id : String
id = "0123456789ab"

restart_blocks_example :
    (w' : World (List Event)) × (w'' : World (List Event)) × (remove log_registry host id false
        web_world
      ≡ ok w')
    × (add log_registry host id "" w' ≡ ok w'')
    × (services_of id w'' ≡ services_of id web_world)
    × (w''.registry ≡ web_world.registry)
    × (step log_registry host refresh_call w'' ≡ blocked)
restart_blocks_example =
    restart_blocks log_registry host id "" refresh_call web_world refl refl (unfold get_or in refl)

add_registers_example :
    add log_registry host id "" empty_world
    ≡ ok (added log_registry host id web_services empty_world)
add_registers_example =
    add_registers log_registry host (λ s r. refl) id "" web web_ports web_services empty_world refl
      (unfold get_or in refl) (unfold get in refl) refl
      (unfold container_ports wanted_ports in refl)
      (unfold creations new_service combine_tags in refl)

remove_deregisters_example :
    (w' : World (List Event)) × (remove log_registry host id true dead_world ≡ ok w')
    × (w'.registry
        ≡ deregister_all log_registry host (services_of id dead_world ++ aside_of id dead_world) [])
    × (services_of id w' ≡ [])
    × (get id w'.dead_containers ≡ none)
    × (w'.locked ≡ false)
    × ((j : String) → id ≢ j → SameAt j dead_world w')
remove_deregisters_example = remove_deregisters log_registry host id dead_world refl

dead_container_lifetime_example :
    (w' : World (List Event)) × (prune_rounds 2 dead_world ≡ ok w')
    × (get id w'.dead_containers
        ≡ (if leb 30 (2 * 10) then none else some (record dead_web { ttl = pos (30 - 2 * 10) })))
    × (w'.services ≡ [])
    × (w'.registry ≡ [])
    × (w'.locked ≡ false)
dead_container_lifetime_example =
    dead_container_lifetime 2 30 10 id dead_web dead_world refl (unfold has_key in (refl, tt)) refl
      (unfold get in refl) refl (omega arith)

same_found : (c c' : Container) → found c ≡ found c' → c ≡ c'
same_found c c' e = cc

found_web :
    (b : Bool) (c : Container)
    → (if b then found web else no_such_container) ≡ found c
    → (b ≡ true) × (web ≡ c)
found_web true c e = (refl, same_found web c e)
found_web false c e = cc

host_finds : FindsById host
host_finds j c e =
    let (t, same) = found_web (j == id) c e in
    let j_is : j ≡ id = (eq_iff j id).0 t in ap (λ x. x.id) (sym same) ∙ sym j_is

nothing : {d : DeadContainer} → none ≡ some d → ⊥
nothing e = cc

web_world-Inv : Inv web_world
unfolding get get_or
web_world-Inv = record {
  keys = (unfold has_key in refl, tt);
  dead_keys = tt;
  separate = λ j h. refl;
  inhabited = λ j d e. elim (nothing (unfold get in e)) [ ];
}

step-Inv_example :
    Inv {S = List Event} (record web_world { services = []; dead_containers = (id, dead_web) ∷ [] })
step-Inv_example =
    step-Inv log_registry host host_finds (remove_on_exit_call id) web_world
      (record web_world { services = []; dead_containers = (id, dead_web) ∷ [] }) []
      (unfold step remove_body in refl) web_world-Inv
