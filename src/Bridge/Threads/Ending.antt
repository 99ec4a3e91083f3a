-- ===== src/Bridge/Threads/Ending.antt =====
-- A synchronisation of bridge/servicesync.go in a state that the other calls have left.
use mathlib.Core.Path.{subst}
use registrator.Common.{
  ◌≡◌, ◌∙◌, ap, inl, inr, refl, String, Bool, true, false, some, List, [], ◌∷◌, Option-cases,
  if◌then◌else◌,
}
use registrator.Common.Map.{Map}
use registrator.Common.Values.{AllValues}
use registrator.Common.Text.{chars}
use registrator.Bridge.Types.{Config, Service, ServicePort, SyncMessage}
use registrator.Bridge.Env.{Env}
use registrator.Bridge.World.{Registry, World, Outcome, ok, blocked, panic, exit, ◌>>=◌, lock}
use registrator.Bridge.Create.{tail_name, resolve_host_ip}
use registrator.Bridge.Create.Origin.{WhenCreated, IsOf, new_service-IsOf}
use registrator.Bridge.Sync.{Call, clean_up, with_registry, service_sync, synchronise}
use registrator.Bridge.Sync.Cleanup.{AllTracked, IsNamed, cleanup_services_lem}
use registrator.Bridge.Threads.{System, Steps}
use registrator.Bridge.Threads.Sections.{Full, Holds, Holds-mono}
use registrator.Bridge.Threads.Syncing.{sync_listings-Holds, relocked}
use registrator.Bridge.Threads.Sound.{Genuine, fresh, readdressed}
use registrator.Bridge.Threads.Kept.{New, Steps-Holds}

resolve_host_ip-name :
    (env : Env) (config : Config) (port : ServicePort)
    → (resolve_host_ip env config port).container_name ≡ port.container_name
unfolding resolve_host_ip
resolve_host_ip-name env config port = refl

-- It ends with a result, and that is such.
abbrev Returns : {A : Type 0} → Outcome A → (A → Type 0) → Type 0
Returns (ok a) P = P a
Returns blocked P = ⊥
Returns panic P = ⊥
Returns exit P = ⊥

Returns-bind :
    {A B : Type 0} (m : Outcome A) (f : A → Outcome B) (P : A → Type 0) (Q : B → Type 0)
    → Returns m P
    → ((a : A) → P a → Returns (f a) Q)
    → Returns (m >>= f) Q
Returns-bind (ok a) f P Q h k = k a h
Returns-bind blocked f P Q h k = absurd h
Returns-bind panic f P Q h k = absurd h
Returns-bind exit f P Q h k = absurd h

Returns-ok :
    {A : Type 0} (m : Outcome A) (P : A → Type 0) → Returns m P → (a : A) × (m ≡ ok a) × P a
Returns-ok (ok a) P h = (a, refl, h)
Returns-ok blocked P h = absurd h
Returns-ok panic P h = absurd h
Returns-ok exit P h = absurd h

module _ (R : Registry) where
  abbrev Named : String → Service → Type 0
  Named id s = IsNamed s

  Genuine-IsNamed :
      (Possible : Env → Type 0) (id : String) (t : Service) → Genuine R Possible id t → IsNamed t
  Genuine-IsNamed Possible id t
        (fresh env config c key port g s r possible (_, named, _, _, _, _) e taken) =
      let (origin, n, t) =
        subst (WhenCreated (IsOf c (resolve_host_ip env config port))) e
          (new_service-IsOf env config c port g) in
      (
        n,
        ap (λ p. tail_name (chars p.container_name)) origin
            ∙ ap (λ x. tail_name (chars x)) (resolve_host_ip-name env config port ∙ named)
            ∙ t,
      )
  Genuine-IsNamed Possible id t (readdressed s' ip g) = Genuine-IsNamed Possible id s' g

  module _ (env : Env) where
    with_registry_ends :
        (w : World R.State) (calls : List Call) (r : R.State) (m : Outcome R.State)
        → m ≡ ok r
        → Returns (with_registry R env w calls m) (λ x. Unit)
    with_registry_ends w calls r m e = rw e tt

    clean_up_ends :
        (w : World R.State) (calls : List Call)
        → AllTracked IsNamed w.services
        → Returns (clean_up R env w calls) (λ x. Unit)
    unfolding clean_up
    clean_up_ends w calls named = elim (Option-cases env.non_exited_ids) [
      | inl e ↦ rw (e, clean_up) tt
      | inr (ids, e) ↦ elim (Option-cases (R.services w.registry)) [
        | inl e' ↦ rw (e, e', clean_up) tt
        | inr (listed, e') ↦
            rw (e, e', clean_up)
              (with_registry_ends w _ _ _
                (cleanup_services_lem R env w.services named listed w.registry))
      ]
    ]

    all-IsNamed : (w : World R.State) → Holds Named w → AllTracked IsNamed w.services
    all-IsNamed w v = each w.services v.tracked
      where
        each : (m : Map (List Service)) → AllValues (Full Named) m → AllTracked IsNamed m
        each [] h = tt
        each ((id, ss) ∷ m) ((_, f), h) = (f, each m h)

    service_sync_ends :
        (message : SyncMessage) (ids : List String) (w : World R.State)
        → env.running_ids ≡ some ids
        → Holds Named w
        → Returns (service_sync R env message w) (λ x. Unit)
    unfolding service_sync
    service_sync_ends message ids w e v =
        rw (e, service_sync)
          (if_asked w.config.cleanup _
            (sync_listings-Holds Named (λ id s ip h. h) R message.ip ids w [] v))
      where
        if_asked :
            (b : Bool) (x : World R.State × List Call)
            → Holds Named x.0
            → Returns (if b then clean_up R env x.0 x.1 else ok x) (λ x. Unit)
        if_asked true (w', calls) v' = clean_up_ends w' calls (all-IsNamed w' v')
        if_asked false (w', calls) v' = tt

    synchronise_ends :
        (message : SyncMessage) (ids : List String) (w : World R.State)
        → w.locked ≡ false
        → env.running_ids ≡ some ids
        → Holds Named w
        → Returns (synchronise R env message w) (λ x. x.0.locked ≡ false)
    unfolding synchronise
    synchronise_ends message ids w free e v =
        rw (free, lock)
          (Returns-bind (service_sync R env message (record w { locked = true })) _ (λ x. Unit)
            (λ x. x.0.locked ≡ false)
            (service_sync_ends message ids _ e (relocked Named (λ id s ip h. h) R env true w v))
            (λ x h. refl))

  -- Whatever calls have begun and whatever threads have gone on, in any order, from a bridge that has
  -- just been made: if the lock is free and the running containers are listed, a synchronisation
  -- ends and frees the lock; the clean-up, which slices the names of containers, does not panic.
  pub synchronise_returns :
      (Possible : Env → Type 0) (s u : System R.State)
      → New R Possible s
      → Steps R Possible s u
      → (env : Env) (message : SyncMessage) (ids : List String) → u.world.locked ≡ false
      → env.running_ids ≡ some ids
      → (x : World R.State × List Call) × (synchronise R env message u.world ≡ ok x)
        × (x.0.locked ≡ false)
  synchronise_returns Possible s u new steps env message ids free listed =
      Returns-ok (synchronise R env message u.world) (λ x. x.0.locked ≡ false)
        (synchronise_ends env message ids u.world free listed (
          Holds-mono (Genuine R Possible) Named (Genuine-IsNamed Possible) u.world
            ((Steps-Holds R Possible s u new steps).0)))
