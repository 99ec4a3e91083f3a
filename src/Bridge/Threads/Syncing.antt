-- ===== src/Bridge/Threads/Syncing.antt =====
-- What a round of channelRun (bridge/servicesync.go) keeps of the services in a Bridge's maps.
use registrator.Common.{
  ◌≡◌, inl, inr, refl, String, Bool, true, false, List, [], ◌∷◌, All, Bool-cases, Option-cases,
  if◌then◌else◌, ◌==◌,
}
use registrator.Common.Map.{put-UniqueKeys}
use registrator.Common.Values.{put-AllValues}
use registrator.Bridge.Types.{Service, SyncMessage}
use registrator.Bridge.Env.{Env}
use registrator.Bridge.World.{Registry, World, Outcome, ok, blocked, panic, exit, lock}
use registrator.Bridge.Tracking.{is_nil, services_of}
use registrator.Bridge.Sync.{
  Call, moved, reregister_service, reregister_services, sync_listings, service_sync, clean_up,
  with_registry, synchronise,
}
use registrator.Bridge.Ensures.{Ensures, Ensures-bind}
use registrator.Bridge.Sync.Adding.{lock-Inv}
use registrator.Bridge.Threads.Sections.{Full, Holds, All-get_or}

module _ (P : String → Service → Type 0)
    (moves : (id : String) (s : Service) (ip : String) → P id s → P id (moved s ip))
    (R : Registry) where
  reregister_service-All :
      (id : String) (s : Service) (ip : String) (r : R.State)
      → P id s
      → P id (reregister_service R s ip r).0
  unfolding reregister_service
  reregister_service-All id s ip r p = elim (Bool-cases (ip == "")) [
    | inl e ↦ rw (e, reregister_service) p
    | inr e ↦ elim (Bool-cases (s.ip == ip)) [
      | inl e' ↦ rw (e, e', reregister_service) p
      | inr e' ↦ elim (Bool-cases (R.deregister s r).1) [
        | inl d ↦ rw (e, e', d, reregister_service) (moves id s ip p)
        | inr d ↦ rw (e, e', d, reregister_service) p
      ]
    ]
  ]

  reregister_services-All :
      (id : String) (ss : List Service) (ip : String) (r : R.State)
      → All (P id) ss
      → All (P id) (reregister_services R ss ip r).0
  unfolding reregister_services
  reregister_services-All id [] ip r h = tt
  reregister_services-All id (s ∷ ss) ip r (p, h) =
      (reregister_service-All id s ip r p, reregister_services-All id ss ip _ h)

  is_nil-reregister :
      (ss : List Service) (ip : String) (r : R.State)
      → is_nil (reregister_services R ss ip r).0 ≡ is_nil ss
  unfolding reregister_services
  is_nil-reregister [] ip r = refl
  is_nil-reregister (s ∷ ss) ip r = refl

  pub sync_listings-Holds :
      (ip : String) (ids : List String) (w : World R.State) (calls : List Call)
      → Holds P w
      → Holds P (sync_listings R ip ids w calls).0
  unfolding sync_listings
  sync_listings-Holds ip [] w calls v = v
  sync_listings-Holds ip (id ∷ ids) w calls v = elim (Bool-cases (is_nil (services_of id w))) [
    | inl e ↦ rw (e, sync_listings) (sync_listings-Holds ip ids w _ v)
    | inr e ↦
        let x = reregister_services R (services_of id w) ip w.registry in
        rw (e, sync_listings)
          (sync_listings-Holds ip ids _ calls (record {
            keys = put-UniqueKeys id _ w.services v.keys;
            dead_keys = v.dead_keys;
            tracked =
                put-AllValues (Full P) id x.0 w.services
                  (
                    rw (is_nil-reregister (services_of id w) ip w.registry) e,
                    reregister_services-All id _ ip _ (All-get_or P id w.services v.tracked),
                  )
                  v.tracked;
            aside = v.aside;
          }))
  ]

  module _ (env : Env) where
    abbrev HoldsCalls : World R.State × List Call → Type 0
    HoldsCalls x = Holds P x.0

    with_registry-Holds :
        (w : World R.State) (calls : List Call) (m : Outcome R.State)
        → Holds P w
        → Ensures (with_registry R env w calls m) HoldsCalls
    with_registry-Holds w calls (ok r) v = record {
      keys = v.keys;
      dead_keys = v.dead_keys;
      tracked = v.tracked;
      aside = v.aside;
    }
    with_registry-Holds w calls blocked v = tt
    with_registry-Holds w calls panic v = tt
    with_registry-Holds w calls exit v = tt

    clean_up-Holds :
        (w : World R.State) (calls : List Call)
        → Holds P w
        → Ensures (clean_up R env w calls) HoldsCalls
    unfolding clean_up
    clean_up-Holds w calls v = elim (Option-cases env.non_exited_ids) [
      | inl e ↦ rw (e, clean_up) v
      | inr (ids, e) ↦ elim (Option-cases (R.services w.registry)) [
        | inl e' ↦ rw (e, e', clean_up) v
        | inr (listed, e') ↦ rw (e, e', clean_up) (with_registry-Holds w _ _ v)
      ]
    ]

    service_sync-Holds :
        (message : SyncMessage) (w : World R.State)
        → Holds P w
        → Ensures (service_sync R env message w) HoldsCalls
    unfolding service_sync
    service_sync-Holds message w v = elim (Option-cases env.running_ids) [
      | inl e ↦ elim (Bool-cases message.quiet) [
        | inl q ↦ rw (e, q, service_sync) v
        | inr q ↦ rw (e, q, service_sync) tt
      ]
      | inr (ids, e) ↦
          rw (e, service_sync)
            (if_asked w.config.cleanup _ (sync_listings-Holds message.ip ids w [] v))
    ]
      where
        if_asked :
            (b : Bool) (x : World R.State × List Call)
            → Holds P x.0
            → Ensures (if b then clean_up R env x.0 x.1 else ok x) HoldsCalls
        if_asked true (w', calls) v' = clean_up-Holds w' calls v'
        if_asked false (w', calls) v' = v'

    pub relocked : (b : Bool) (w : World R.State) → Holds P w → Holds P (record w { locked = b })
    relocked b w v = record {
      keys = v.keys;
      dead_keys = v.dead_keys;
      tracked = v.tracked;
      aside = v.aside;
    }

    pub synchronise-Holds :
        (message : SyncMessage) (w : World R.State)
        → Holds P w
        → Ensures (synchronise R env message w) HoldsCalls
    unfolding synchronise
    synchronise-Holds message w v =
        Ensures-bind (lock w) _ (Holds P) HoldsCalls (lock-Inv (Holds P) w (relocked true w v))
          (λ w' v'.
            Ensures-bind (service_sync R env message w') _ HoldsCalls HoldsCalls
              (service_sync-Holds message w' v') (λ x v''. relocked false x.0 v''))
