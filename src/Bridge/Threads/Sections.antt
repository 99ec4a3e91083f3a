-- ===== src/Bridge/Threads/Sections.antt =====
-- What the sections of bridge/bridge.go and bridge/servicesync.go keep of the services in a Bridge's
-- maps, whatever state the other threads have left the maps in.
use mathlib.Core.Path.{subst}
use registrator.Common.{
  ◌≡◌, inl, inr, refl, String, Bool, true, false, not, ◌&&◌, List, [], ◌∷◌, ◌++◌, All, Bool-cases,
  Option-cases, arith, eq-cases,
}
use registrator.Common.Int.{ℤ, pos, ◌-ℤ◌, leb_ℤ, eq_ℤ}
use registrator.Common.Map.{Map, get, get_or, delete, UniqueKeys, put-UniqueKeys, delete-UniqueKeys}
use registrator.Common.Values.{AllValues, put-AllValues, delete-AllValues, get-AllValues}
use registrator.Bridge.Types.{Service, DeadContainer}
use registrator.Bridge.Env.{Env}
use registrator.Bridge.World.{Registry, World}
use registrator.Bridge.Tracking.{is_nil, services_of, revive, append_once}
use registrator.Bridge.Remove.{prune_dead, deregister_all, deregister_dead, set_aside, remove_body}
use registrator.Bridge.Remove.Pruning.{prune-UniqueKeys}

module _ (P : String → Service → Type 0) where
  -- Some services, and all of them such for the container.
  abbrev pub Full : String → List Service → Type 0
  Full id ss = (is_nil ss ≡ false) × All (P id) ss

  abbrev FullDead : String → DeadContainer → Type 0
  FullDead id d = Full id d.services

  pub record Holds {S : Type 0} (w : World S) : Type 0 where
    pub keys : UniqueKeys w.services
    pub dead_keys : UniqueKeys w.dead_containers
    pub tracked : AllValues Full w.services
    pub aside : AllValues FullDead w.dead_containers

  pub All-get_or :
      (id : String) (m : Map (List Service)) → AllValues Full m → All (P id) (get_or [] id m)
  unfolding get_or
  All-get_or id [] h = tt
  All-get_or id ((j, ss) ∷ m) (f, h) = elim (eq-cases j id) [
    | inl (same, e) ↦ rw (e, get_or) (subst (λ k. All (P k) ss) same f.1)
    | inr (_, e) ↦ rw (e, get_or) (All-get_or id m h)
  ]

  module _ {S : Type 0} (w : World S) (v : Holds w) where
    pub revive-Holds : (id : String) → Holds (revive id w)
    unfolding revive
    revive-Holds id = elim (Option-cases (get id w.dead_containers)) [
      | inl e ↦ rw (e, revive) v
      | inr (d, e) ↦
          rw (e, revive)
            (record {
              keys = put-UniqueKeys id d.services w.services v.keys;
              dead_keys = delete-UniqueKeys id w.dead_containers v.dead_keys;
              tracked =
                  put-AllValues Full id d.services w.services
                    (get-AllValues FullDead id d w.dead_containers v.aside e) v.tracked;
              aside = delete-AllValues FullDead id w.dead_containers v.aside;
            })
    ]

    pub append_once-Holds : (id : String) (s : Service) → P id s → Holds (append_once id s w)
    unfolding append_once
    append_once-Holds id s p = elim (Bool-cases (is_nil (services_of id w))) [
      | inl h ↦
          rw (h, append_once)
            (record {
              keys = put-UniqueKeys id _ w.services v.keys;
              dead_keys = v.dead_keys;
              tracked =
                  put-AllValues Full id _ w.services
                    (joined (services_of id w) (All-get_or id _ v.tracked)) v.tracked;
              aside = v.aside;
            })
      | inr h ↦ rw (h, append_once) v
    ]
      where
        joined : (ss : List Service) → All (P id) ss → Full id (ss ++ s ∷ [])
        joined [] h = (refl, (p, tt))
        joined (t ∷ ss) (q, h) = (refl, (q, (joined ss h).1))

    forget-Holds : (id : String) → Holds (record w { services = delete id w.services })
    forget-Holds id = record {
      keys = delete-UniqueKeys id w.services v.keys;
      dead_keys = v.dead_keys;
      tracked = delete-AllValues Full id w.services v.tracked;
      aside = v.aside;
    }

    prune_dead-AllValues :
        (i : ℤ) (dead : Map DeadContainer)
        → AllValues FullDead dead
        → AllValues FullDead (prune_dead i dead)
    unfolding prune_dead
    prune_dead-AllValues i [] h = tt
    prune_dead-AllValues i ((id, d) ∷ dead) (f, h) =
        elim (Bool-cases (leb_ℤ (d.ttl -ℤ i) (pos 0))) [
          | inl e ↦ rw (e, prune_dead) (prune_dead-AllValues i dead h)
          | inr e ↦ rw (e, prune_dead) (f, prune_dead-AllValues i dead h)
        ]

    pub prune-Holds :
        (i : ℤ) → Holds (record w { dead_containers = prune_dead i w.dead_containers })
    prune-Holds i = record {
      keys = v.keys;
      dead_keys = prune-UniqueKeys i w.dead_containers v.dead_keys;
      tracked = v.tracked;
      aside = prune_dead-AllValues i w.dead_containers v.aside;
    }

  module _ (R : Registry) (env : Env) where
    deregister_dead-Holds :
        (id : String) (w : World R.State) → Holds w → Holds (deregister_dead R env id w)
    unfolding deregister_dead
    deregister_dead-Holds id w v = elim (Option-cases (get id w.dead_containers)) [
      | inl e ↦ rw (e, deregister_dead) v
      | inr (d, e) ↦
          rw (e, deregister_dead)
            (record {
              keys = v.keys;
              dead_keys = delete-UniqueKeys id w.dead_containers v.dead_keys;
              tracked = v.tracked;
              aside = delete-AllValues FullDead id w.dead_containers v.aside;
            })
    ]

    set_aside-Holds : (id : String) (w : World R.State) → Holds w → Holds (set_aside R env id w)
    unfolding set_aside
    set_aside-Holds id w v =
        elim (Bool-cases
          (not (eq_ℤ w.config.refresh_ttl (pos 0)) && not (is_nil (services_of id w)))) [
            | inl e ↦
                rw (e, set_aside)
                  (record {
                    keys = v.keys;
                    dead_keys = put-UniqueKeys id _ w.dead_containers v.dead_keys;
                    tracked = v.tracked;
                    aside =
                        put-AllValues FullDead id _ w.dead_containers
                          (is_full _ _ e, All-get_or id _ v.tracked) v.aside;
                  })
            | inr e ↦ rw (e, set_aside) v
          ]
      where
        is_full : (a b : Bool) → (not a && not b) ≡ true → b ≡ false
        is_full a b e = ground arith

    pub remove_body-Holds :
        (id : String) (deregister : Bool) (w : World R.State)
        → Holds w
        → Holds (remove_body R env id deregister w)
    unfolding remove_body
    remove_body-Holds id true w v =
        let w' = record w { registry = deregister_all R env (services_of id w) w.registry } in
        forget-Holds (deregister_dead R env id w')
          (deregister_dead-Holds id w' (record {
            keys = v.keys;
            dead_keys = v.dead_keys;
            tracked = v.tracked;
            aside = v.aside;
          }))
          id
    remove_body-Holds id false w v = forget-Holds (set_aside R env id w) (set_aside-Holds id w v) id

module _ (P Q : String → Service → Type 0) (f : (id : String) (s : Service) → P id s → Q id s) where
  Full-mono : (id : String) (ss : List Service) → All (P id) ss → All (Q id) ss
  Full-mono id [] h = tt
  Full-mono id (s ∷ ss) (p, h) = (f id s p, Full-mono id ss h)

  -- What holds of the services of one kind holds of those of a wider one.
  pub Holds-mono : {S : Type 0} (w : World S) → Holds P w → Holds Q w
  Holds-mono w v = record {
    keys = v.keys;
    dead_keys = v.dead_keys;
    tracked = all_tracked w.services v.tracked;
    aside = all_aside w.dead_containers v.aside;
  }
    where
      all_tracked : (m : Map (List Service)) → AllValues (Full P) m → AllValues (Full Q) m
      all_tracked [] h = tt
      all_tracked ((id, ss) ∷ m) ((e, g), h) = ((e, Full-mono id ss g), all_tracked m h)

      all_aside :
          (m : Map DeadContainer)
          → AllValues (λ id d. Full P id d.services) m
          → AllValues (λ id d. Full Q id d.services) m
      all_aside [] h = tt
      all_aside ((id, d) ∷ m) ((e, g), h) = ((e, Full-mono id d.services g), all_aside m h)
