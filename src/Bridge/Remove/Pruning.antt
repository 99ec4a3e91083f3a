-- ===== src/Bridge/Remove/Pruning.antt =====
-- The life of a dead container under PruneDeadContainers of bridge/bridge.go.
use mathlib.Core.Path.{subst}
use registrator.Common.{
  ℕ, zero, suc, ◌-◌, ◌*◌, ◌<◌, ◌≡◌, refl, ◌∙◌, Bool-cases, String, true, false, Option, none, some,
  [], ◌∷◌, inl, inr, if◌then◌else◌, eq-cases, leb, arith,
}
use registrator.Common.Int.{ℤ, pos, leb_ℤ, ◌-ℤ◌}
use registrator.Common.Map.{Map, get, has_key, UniqueKeys, get_of_missing}
use registrator.Bridge.Types.{DeadContainer}
use registrator.Bridge.World.{World, Outcome, ok, ◌>>=◌}
use registrator.Bridge.Remove.{prune_dead, prune_dead_containers}

-- What a pruning makes of an entry.
abbrev pub pruned : ℤ → Option DeadContainer → Option DeadContainer
pruned interval none = none
pruned interval (some d) =
    let ttl = d.ttl -ℤ interval in if leb_ℤ ttl (pos 0) then none else some (record d { ttl = ttl })

has_key-prune :
    (interval : ℤ) (k : String) (dead : Map DeadContainer)
    → has_key k dead ≡ false
    → has_key k (prune_dead interval dead) ≡ false
unfolding has_key prune_dead
has_key-prune interval k [] h = refl
has_key-prune interval k ((j, d) ∷ dead) h = ground (arith, has_key-prune interval k dead)

pub prune-UniqueKeys :
    (interval : ℤ) (dead : Map DeadContainer)
    → UniqueKeys dead
    → UniqueKeys (prune_dead interval dead)
unfolding prune_dead
prune-UniqueKeys interval [] u = tt
prune-UniqueKeys interval ((j, d) ∷ dead) (h, u) =
    ground (arith, has_key-prune interval j dead h, prune-UniqueKeys interval dead u)

pub get-prune :
    (interval : ℤ) (k : String) (dead : Map DeadContainer)
    → UniqueKeys dead
    → get k (prune_dead interval dead) ≡ pruned interval (get k dead)
unfolding prune_dead get ◌-ℤ◌
get-prune interval k [] u = refl
get-prune interval k ((j, d) ∷ dead) (h, u) = elim (eq-cases j k) [
  | inl (e, t) ↦ ground (
    arith,
    get_of_missing k (prune_dead interval dead),
    has_key-prune interval k dead,
    get-prune interval k dead u,
  )
  | inr (e, t) ↦ ground (arith, get-prune interval k dead u)
]

-- PruneDeadContainers called n times.
pub prune_rounds : {S : Type 0} → ℕ → World S → Outcome (World S)
prune_rounds zero w = ok w
prune_rounds (suc n) w = prune_dead_containers w >>= prune_rounds n

pruned_entry :
    (d : DeadContainer) (t i : ℕ)
    → d.ttl ≡ pos t
    → pruned (pos i) (some d) ≡ (if leb t i then none else some (record d { ttl = pos (t - i) }))
unfolding ◌-ℤ◌
pruned_entry d t i h = rw h (ground arith)

-- What n rounds make of an entry with the time t.
abbrev aged : ℕ → ℕ → ℕ → DeadContainer → Option DeadContainer
aged n t i d = if leb t (n * i) then none else some (record d { ttl = pos (t - n * i) })

expired_later : (n t i : ℕ) (d : DeadContainer) → leb t i ≡ true → none ≡ aged (suc n) t i d
expired_later n t i d h = ground arith

kept_later :
    (n t i : ℕ) (d : DeadContainer)
    → leb t i ≡ false
    → aged n (t - i) i (record d { ttl = pos (t - i) }) ≡ aged (suc n) t i d
kept_later n t i d h = ground arith

module _ {S : Type 0} where
  abbrev pruned_world : World S → World S
  pruned_world w = record w {
    locked = false;
    dead_containers = prune_dead w.config.refresh_interval w.dead_containers;
  }

  prune_round : (w : World S) → w.locked ≡ false → prune_dead_containers w ≡ ok (pruned_world w)
  unfolding prune_dead_containers
  prune_round w h = rw h refl

  -- What n rounds leave: everything but the dead containers is as it was.
  abbrev Rounds : ℕ → World S → String → Option DeadContainer → Type 0
  Rounds n w id o =
      (w' : World S) × (prune_rounds n w ≡ ok w')
      × (get id w'.dead_containers ≡ o)
      × (w'.services ≡ w.services)
      × (w'.registry ≡ w.registry)
      × (w'.locked ≡ false)

  pruned_after :
      (n : ℕ) (w : World S) (id : String) (o : Option DeadContainer)
      → w.locked ≡ false
      → Rounds n (pruned_world w) id o
      → Rounds (suc n) w id o
  unfolding prune_rounds
  pruned_after n w id o h (w', runs, e, s, r, l) =
      (w', rw (prune_round w h, prune_rounds) runs, e, s, r, l)

  pruned_missing :
      (n : ℕ) (w : World S) (id : String)
      → w.locked ≡ false
      → UniqueKeys w.dead_containers
      → get id w.dead_containers ≡ none
      → Rounds n w id none
  unfolding prune_rounds
  pruned_missing zero w id h u e = (w, refl, e, refl, refl, h)
  pruned_missing (suc n) w id h u e = pruned_after n w id none h (
      pruned_missing n (pruned_world w) id refl (prune-UniqueKeys _ _ u)
        (rw (get-prune w.config.refresh_interval id w.dead_containers u, e) refl))

  -- With a free lock, containers that stand once each among those set aside, and an interval i of
  -- the refresh that is not negative: a container that was set aside with a time to live t above
  -- zero is forgotten by the first round n of the pruning with t ≤ n * i, and not by an earlier
  -- one; until then its services are kept and its time runs down. The tracked services and the
  -- registry do not change, and the lock is free.
  pub dead_container_lifetime :
      (n t i : ℕ) (id : String) (d : DeadContainer) (w : World S)
      → w.locked ≡ false
      → UniqueKeys w.dead_containers
      → w.config.refresh_interval ≡ pos i
      → get id w.dead_containers ≡ some d
      → d.ttl ≡ pos t
      → 0 < t
      → (w' : World S) × (prune_rounds n w ≡ ok w')
        × (get id w'.dead_containers
            ≡ (if leb t (n * i) then none else some (record d { ttl = pos (t - n * i) })))
        × (w'.services ≡ w.services)
        × (w'.registry ≡ w.registry)
        × (w'.locked ≡ false)
  unfolding prune_rounds
  dead_container_lifetime zero t i id d w h u c e dt pt =
      (w, refl, rw e (ground arith), refl, refl, h)
  dead_container_lifetime (suc n) t i id d w h u c e dt pt =
      let next : get id (prune_dead w.config.refresh_interval w.dead_containers)
          ≡ (if leb t i then none else some (record d { ttl = pos (t - i) })) =
        get-prune w.config.refresh_interval id w.dead_containers u
        ∙ rw (e, c) (pruned_entry d t i dt) in
      elim (Bool-cases (leb t i)) [
        | inl over ↦ pruned_after n w id _ h (
            subst (Rounds n (pruned_world w) id) (expired_later n t i d over) (
              pruned_missing n (pruned_world w) id refl (prune-UniqueKeys _ _ u) (rw over at next)))
        | inr left ↦
            let d' : DeadContainer = record d { ttl = pos (t - i) } in
            pruned_after n w id _ h (
              subst (Rounds n (pruned_world w) id) (kept_later n t i d left) (
                dead_container_lifetime n (t - i) i id d' (pruned_world w) refl
                  (prune-UniqueKeys _ _ u) c (rw left at next) refl (ground arith)))
      ]
