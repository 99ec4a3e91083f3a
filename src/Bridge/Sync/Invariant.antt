-- ===== src/Bridge/Sync/Invariant.antt =====
-- The invariant of a Bridge's maps over every call of a method, bridge/bridge.go and
-- bridge/servicesync.go.
use registrator.Common.{
  ◌≡◌, String, Bool, true, false, List, [], ◌∷◌, inl, inr, if◌then◌else◌, Option-cases, Bool-cases,
  arith, not, ◌&&◌,
}
use registrator.Common.Int.{pos, eq_ℤ}
use registrator.Common.Map.{get, delete}
use registrator.Bridge.Types.{DeadContainer, SyncMessage}
use registrator.Bridge.Env.{Env}
use registrator.Bridge.World.{Registry, World, Outcome, ok, blocked, panic, exit, ◌>>=◌, lock}
use registrator.Bridge.Tracking.{is_nil, services_of}
use registrator.Bridge.Remove.{
  deregister_all, deregister_dead, set_aside, remove_body, remove, remove_on_exit, refresh,
}
use registrator.Bridge.Sync.{
  Call, add_call, remove_call, remove_on_exit_call, refresh_call, prune_call, sync_call, step,
  synchronise, sync_listings, service_sync, clean_up, with_registry,
}
use registrator.Bridge.Sync.Consistency.{
  track-IsConsistent, forget-IsConsistent, drop-IsConsistent, bury-IsConsistent,
}
use registrator.Bridge.Ensures.{Ensures, Ensures-bind, Ensures-ok}
use registrator.Bridge.Sync.Adding.{Inv, lock-Inv, prune-Inv, FindsById, add-Inv}

module _ (R : Registry) (env : Env) where
  deregister_dead-Inv : (id : String) (w : World R.State) → Inv w → Inv (deregister_dead R env id w)
  unfolding deregister_dead
  deregister_dead-Inv id w v = elim (Option-cases (get id w.dead_containers)) [
    | inl e ↦ rw (e, deregister_dead) v
    | inr (d, e) ↦ rw (e, deregister_dead) (drop-IsConsistent w.services w.dead_containers v id)
  ]

  set_aside-Inv :
      (id : String) (w : World R.State)
      → Inv w
      → Inv (record (set_aside R env id w) { services = delete id (set_aside R env id w).services })
  unfolding set_aside
  set_aside-Inv id w v =
      let d : DeadContainer = record { ttl = w.config.refresh_ttl; services = services_of id w } in
      elim (Bool-cases
        (not (eq_ℤ w.config.refresh_ttl (pos 0)) && not (is_nil (services_of id w)))) [
          | inl e ↦
              rw (e, set_aside)
                (bury-IsConsistent w.services w.dead_containers v id d (is_full _ _ e))
          | inr e ↦ rw (e, set_aside) (forget-IsConsistent w.services w.dead_containers v id)
        ]
    where
      is_full : (a b : Bool) → (not a && not b) ≡ true → b ≡ false
      is_full a b e = ground arith

  remove_body-Inv :
      (id : String) (deregister : Bool) (w : World R.State)
      → Inv w
      → Inv (remove_body R env id deregister w)
  unfolding remove_body set_aside
  remove_body-Inv id true w v =
      let w' =
        deregister_dead R env id
          (record w { registry = deregister_all R env (services_of id w) w.registry }) in
      forget-IsConsistent w'.services w'.dead_containers (deregister_dead-Inv id _ v) id
  remove_body-Inv id false w v = set_aside-Inv id w v

  remove-Inv :
      (id : String) (deregister : Bool) (w : World R.State)
      → Inv w
      → Ensures (remove R env id deregister w) Inv
  unfolding remove
  remove-Inv id deregister w v =
      Ensures-bind (lock w) _ Inv Inv (lock-Inv Inv w v)
        (λ w' v'. remove_body-Inv id deregister w' v')

  refresh-Inv : (w : World R.State) → Inv w → Ensures (refresh R env w) Inv
  unfolding refresh
  refresh-Inv w v = Ensures-bind (lock w) _ Inv Inv (lock-Inv Inv w v) (λ w' v'. v')

  sync_listings-Inv :
      (ip : String) (ids : List String) (w : World R.State) (calls : List Call)
      → Inv w
      → Inv (sync_listings R ip ids w calls).0
  unfolding sync_listings
  sync_listings-Inv ip [] w calls v = v
  sync_listings-Inv ip (id ∷ ids) w calls v = elim (Bool-cases (is_nil (services_of id w))) [
    | inl e ↦ rw (e, sync_listings) (sync_listings-Inv ip ids w _ v)
    | inr e ↦
        rw (e, sync_listings)
          (sync_listings-Inv ip ids _ calls
            (track-IsConsistent w.services w.dead_containers v id _ (v.separate id e)))
  ]

  -- What holds of a world that comes with calls.
  abbrev InvCalls : World R.State × List Call → Type 0
  InvCalls x = Inv x.0

  with_registry-Inv :
      (w : World R.State) (calls : List Call) (m : Outcome R.State)
      → Inv w
      → Ensures (with_registry R env w calls m) InvCalls
  with_registry-Inv w calls (ok r) v = v
  with_registry-Inv w calls blocked v = tt
  with_registry-Inv w calls panic v = tt
  with_registry-Inv w calls exit v = tt

  clean_up-Inv :
      (w : World R.State) (calls : List Call) → Inv w → Ensures (clean_up R env w calls) InvCalls
  unfolding clean_up
  clean_up-Inv w calls v = elim (Option-cases env.non_exited_ids) [
    | inl e ↦ rw (e, clean_up) v
    | inr (ids, e) ↦ elim (Option-cases (R.services w.registry)) [
      | inl e' ↦ rw (e, e', clean_up) v
      | inr (listed, e') ↦ rw (e, e', clean_up) (with_registry-Inv w _ _ v)
    ]
  ]

  service_sync-Inv :
      (message : SyncMessage) (w : World R.State)
      → Inv w
      → Ensures (service_sync R env message w) InvCalls
  unfolding service_sync
  service_sync-Inv message w v = elim (Option-cases env.running_ids) [
    | inl e ↦ elim (Bool-cases message.quiet) [
      | inl q ↦ rw (e, q, service_sync) v
      | inr q ↦ rw (e, q, service_sync) tt
    ]
    | inr (ids, e) ↦
        rw (e, service_sync) (if_asked w.config.cleanup _ (sync_listings-Inv message.ip ids w [] v))
  ]
    where
      if_asked :
          (b : Bool) (x : World R.State × List Call)
          → Inv x.0
          → Ensures (if b then clean_up R env x.0 x.1 else ok x) InvCalls
      if_asked true (w', calls) v' = clean_up-Inv w' calls v'
      if_asked false (w', calls) v' = v'

  synchronise-Inv :
      (message : SyncMessage) (w : World R.State)
      → Inv w
      → Ensures (synchronise R env message w) InvCalls
  unfolding synchronise
  synchronise-Inv message w v = Ensures-bind (lock w) _ Inv InvCalls (lock-Inv Inv w v) (λ w' v'.
      Ensures-bind (service_sync R env message w') _ InvCalls InvCalls
        (service_sync-Inv message w' v') (λ x v''. v''))

  no_calls-Inv :
      (m : Outcome (World R.State)) → Ensures m Inv → Ensures (m >>= λ w. ok (w, [])) InvCalls
  no_calls-Inv m v = Ensures-bind m _ Inv InvCalls v (λ w v'. v')

  pub step_ensures :
      FindsById env → (c : Call) (w : World R.State) → Inv w → Ensures (step R env c w) InvCalls
  unfolding step remove_on_exit
  step_ensures finds (add_call id ip) w v = no_calls-Inv _ (add-Inv R env finds id ip w v)
  step_ensures finds (remove_call id) w v = no_calls-Inv _ (remove-Inv id true w v)
  step_ensures finds (remove_on_exit_call id) w v = no_calls-Inv _ (remove-Inv id _ w v)
  step_ensures finds refresh_call w v = no_calls-Inv _ (refresh-Inv w v)
  step_ensures finds prune_call w v = no_calls-Inv _ (prune-Inv w v)
  step_ensures finds (sync_call message) w v = synchronise-Inv message w v

  -- A call that is run alone, from its beginning to its end with no other call in between, keeps the
  -- maps of a bridge consistent: each container stands at most once in each map, none has services
  -- tracked and set aside at once, and what is set aside is not empty.
  -- Docker is taken to answer an inspection with the container of the asked id.
  pub step-Inv :
      FindsById env
      → (c : Call) (w w' : World R.State) (calls : List Call) → step R env c w ≡ ok (w', calls)
      → Inv w
      → Inv w'
  step-Inv finds c w w' calls e v =
      Ensures-ok (step R env c w) InvCalls e (step_ensures finds c w v)
