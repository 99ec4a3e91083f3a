-- ===== src/Bridge/Remove/Laws.antt =====
-- What `remove`, `shouldRemove` and PruneDeadContainers of bridge/bridge.go do, on every path.
use registrator.Common.{
  ◌&&◌, ◌≡◌, ◌≢◌, ◌⊎◌, ◌↔◌, refl, sym, String, true, false, none, some, List, [], ◌∷◌, ◌++◌, inl,
  inr, if◌then◌else◌, eq-cases, Bool-cases, Option-cases, arith, not, append-nil,
}
use registrator.Common.Int.{pos, eq_ℤ}
use registrator.Common.Map.{
  get, put, delete, get_or-delete_self, get-delete_self, get_or-delete_ne, get-delete_ne,
  get-put_ne, get-put_self,
}
use registrator.Bridge.Types.{Container, Config, Service, DeadContainer}
use registrator.Bridge.Env.{Env, Inspected, found, no_such_container, inspect_error}
use registrator.Bridge.World.{Registry, World, ok}
use registrator.Bridge.Tracking.{is_nil, services_of}
use registrator.Bridge.Remove.{
  is_signaled, inspected_remove, should_remove, deregister_all, deregister_dead, set_aside,
  remove_body, remove,
}

-- The services that are set aside for a container.
abbrev pub aside_of : {S : Type 0} → String → World S → List Service
aside_of id w = elim (get id w.dead_containers) [ none ↦ [] | some d ↦ d.services ]

-- The bridge knows of a container what it knew before.
abbrev pub SameAt : {S : Type 0} → String → World S → World S → Type 0
SameAt id w w' =
    (services_of id w' ≡ services_of id w) × (get id w'.dead_containers ≡ get id w.dead_containers)

module _ (R : Registry) (env : Env) where
  deregister_all-append :
      (xs ys : List Service) (r : R.State)
      → deregister_all R env (xs ++ ys) r ≡ deregister_all R env ys (deregister_all R env xs r)
  unfolding deregister_all
  deregister_all-append [] ys r = refl
  deregister_all-append (x ∷ xs) ys r = deregister_all-append xs ys (R.deregister x r).0

  -- A removal that deregisters, begun with a free lock, ends with the lock free. Every service of
  -- the container, those that were tracked and then those that were set aside, has been
  -- deregistered once, whether or not a call failed; the container has neither left, and nothing
  -- changes for any other container.
  pub remove_deregisters :
      (id : String) (w : World R.State)
      → w.locked ≡ false
      → (w' : World R.State) × (remove R env id true w ≡ ok w')
        × (w'.registry ≡ deregister_all R env (services_of id w ++ aside_of id w) w.registry)
        × (services_of id w' ≡ [])
        × (get id w'.dead_containers ≡ none)
        × (w'.locked ≡ false)
        × ((j : String) → id ≢ j → SameAt j w w')
  unfolding remove remove_body deregister_dead
  remove_deregisters id w h = elim (Option-cases (get id w.dead_containers)) [
    | inl e ↦ (
      record w {
        locked = false;
        services = delete id w.services;
        registry = deregister_all R env (services_of id w) w.registry;
      },
      rw h (rw (e, deregister_dead) refl),
      rw (e, aside_of) (rw append-nil refl),
      get_or-delete_self [] id w.services,
      e,
      refl,
      λ j ne. (get_or-delete_ne [] id j w.services ne, refl),
    )
    | inr (d, e) ↦ (
      record w {
        locked = false;
        services = delete id w.services;
        dead_containers = delete id w.dead_containers;
        registry =
            deregister_all R env d.services (deregister_all R env (services_of id w) w.registry);
      },
      rw h (rw (e, deregister_dead) refl),
      rw (e, aside_of) (sym (deregister_all-append (services_of id w) d.services w.registry)),
      get_or-delete_self [] id w.services,
      get-delete_self id w.dead_containers,
      refl,
      λ j ne. (get_or-delete_ne [] id j w.services ne, get-delete_ne id j w.dead_containers ne),
    )
  ]

  -- A removal that keeps the registration, begun with a free lock, ends with the lock free and
  -- leaves the registry alone. The container has no services left; they are set aside for the
  -- configured time to live, if that is not zero and there are any. Nothing changes for any other
  -- container.
  remove_sets_aside :
      (id : String) (w : World R.State)
      → w.locked ≡ false
      → (w' : World R.State) × (remove R env id false w ≡ ok w')
        × (w'.registry ≡ w.registry)
        × (services_of id w' ≡ [])
        × (get id w'.dead_containers ≡ (
            if not (eq_ℤ w.config.refresh_ttl (pos 0)) && not (is_nil (services_of id w))
            then some (record { ttl = w.config.refresh_ttl; services = services_of id w })
            else get id w.dead_containers))
        × (w'.locked ≡ false)
        × ((j : String) → id ≢ j → SameAt j w w')
  unfolding remove remove_body set_aside
  remove_sets_aside id w h =
      elim (Bool-cases
        (not (eq_ℤ w.config.refresh_ttl (pos 0)) && not (is_nil (services_of id w)))) [
          | inl e ↦
              let d : DeadContainer = record {
                ttl = w.config.refresh_ttl;
                services = services_of id w;
              } in
              (
                record w {
                  locked = false;
                  services = delete id w.services;
                  dead_containers = put id d w.dead_containers;
                },
                rw (h, e) refl,
                refl,
                get_or-delete_self [] id w.services,
                rw e (get-put_self id d w.dead_containers),
                refl,
                λ j ne. (
                  get_or-delete_ne [] id j w.services ne,
                  get-put_ne id j d w.dead_containers ne,
                ),
              )
          | inr e ↦ (
            record w { locked = false; services = delete id w.services },
            rw (h, e) refl,
            refl,
            get_or-delete_self [] id w.services,
            rw e refl,
            refl,
            λ j ne. (get_or-delete_ne [] id j w.services ne, refl),
          )
        ]

-- What an inspection must find.
abbrev Gone : Inspected → Type 0
Gone x =
    (x ≡ no_such_container)
    ⊎ ((c : Container) × (x ≡ found c)
        × (c.running ≡ false)
        × ((eq_ℤ c.exit_code (pos 0) ≡ true) ⊎ (is_signaled c.exit_code ≡ true)))

exited :
    (c : Container)
    → inspected_remove (found c) ≡ true
    → (c.running ≡ false) × ((eq_ℤ c.exit_code (pos 0) ≡ true) ⊎ (is_signaled c.exit_code ≡ true))
exited c h = elim (Bool-cases c.running) [
  | inl e ↦ absurd (ground arith)
  | inr e ↦ elim (Bool-cases (eq_ℤ c.exit_code (pos 0))) [
    | inl z ↦ (e, inl z)
    | inr z ↦ (e, inr (rw (e, z) at h))
  ]
]

Gone-of_remove : (x : Inspected) → inspected_remove x ≡ true → Gone x
Gone-of_remove no_such_container h = inl refl
Gone-of_remove inspect_error h = cc
Gone-of_remove (found c) h = let (r, e) = exited c h in inr (c, refl, r, e)

remove_of_Gone : (x : Inspected) → Gone x → inspected_remove x ≡ true
remove_of_Gone x (inl e) = rw e refl
remove_of_Gone x (inr (c, e, r, inl z)) = rw e (rw (r, z) refl)
remove_of_Gone x (inr (c, e, r, inr z)) = rw e (ground arith)

-- A container that has died is deregistered exactly when the check is "always", or Docker does not
-- know it any more, or it is there, is not running and has exited with 0 or by a signal.
should_remove_iff :
    (env : Env) (config : Config) (id : String)
    → (should_remove env config id ≡ true)
      ↔ ((config.deregister_check ≡ "always") ⊎ Gone (env.inspect id))
unfolding should_remove
should_remove_iff env config id = (
  (λ h. elim (eq-cases config.deregister_check "always") [
    | inl (e, t) ↦ inl e
    | inr (e, t) ↦ inr (Gone-of_remove (env.inspect id) (rw t at h))
  ]),
  λ s. elim (eq-cases config.deregister_check "always") [
    | inl (e, t) ↦ rw t refl
    | inr (e, t) ↦ elim s [
      | inl a ↦ absurd (e a)
      | inr g ↦ rw t (remove_of_Gone (env.inspect id) g)
    ]
  ],
)
