-- ===== src/Bridge/Sync/Spawned.antt =====
-- The calls that a call of bridge/servicesync.go starts: of single containers, never of a
-- synchronisation or of a timer.
use registrator.Common.{
  String, Bool, true, false, List, [], ◌∷◌, All, inl, inr, if◌then◌else◌, Option-cases, Bool-cases,
}
use registrator.Common.Map.{Map}
use registrator.Common.Lists.{All-append}
use registrator.Bridge.Types.{Service, SyncMessage}
use registrator.Bridge.Env.{Env}
use registrator.Bridge.World.{Registry, World, Outcome, ok, blocked, panic, exit, ◌>>=◌, lock}
use registrator.Bridge.Tracking.{is_nil, services_of}
use registrator.Bridge.Ensures.{Ensures, Ensures-any, Ensures-bind}
use registrator.Bridge.Sync.{
  Call, add_call, remove_call, remove_on_exit_call, refresh_call, prune_call, sync_call, step,
  synchronise, sync_listings, service_sync, clean_up, with_registry, stale_calls, contains_id,
}

-- A call for one container.
abbrev pub IsSingle : Call → Type 0
IsSingle (add_call id ip) = Unit
IsSingle (remove_call id) = Unit
IsSingle (remove_on_exit_call id) = Unit
IsSingle refresh_call = ⊥
IsSingle prune_call = ⊥
IsSingle (sync_call message) = ⊥

stale_calls-IsSingle :
    (ids : List String) (m : Map (List Service)) → All IsSingle (stale_calls ids m)
unfolding stale_calls
stale_calls-IsSingle ids [] = tt
stale_calls-IsSingle ids ((id, ss) ∷ m) = either (contains_id id ids) (stale_calls-IsSingle ids m)
  where
    either :
        (b : Bool)
        → All IsSingle (stale_calls ids m)
        → All IsSingle (if b then stale_calls ids m else remove_on_exit_call id ∷ stale_calls ids m)
    either true h = h
    either false h = (tt, h)

module _ (R : Registry) (env : Env) where
  abbrev Spawns : World R.State × List Call → Type 0
  Spawns x = All IsSingle x.1

  sync_listings-IsSingle :
      (ip : String) (ids : List String) (w : World R.State) (calls : List Call)
      → All IsSingle calls
      → Spawns (sync_listings R ip ids w calls)
  unfolding sync_listings
  sync_listings-IsSingle ip [] w calls h = h
  sync_listings-IsSingle ip (id ∷ ids) w calls h = elim (Bool-cases (is_nil (services_of id w))) [
    | inl e ↦
        rw (e, sync_listings)
          (sync_listings-IsSingle ip ids w _
            (All-append IsSingle calls (add_call id ip ∷ []) h (tt, tt)))
    | inr e ↦ rw (e, sync_listings) (sync_listings-IsSingle ip ids _ calls h)
  ]

  with_registry-IsSingle :
      (w : World R.State) (calls : List Call) (m : Outcome R.State)
      → All IsSingle calls
      → Ensures (with_registry R env w calls m) Spawns
  with_registry-IsSingle w calls (ok r) h = h
  with_registry-IsSingle w calls blocked h = tt
  with_registry-IsSingle w calls panic h = tt
  with_registry-IsSingle w calls exit h = tt

  clean_up-IsSingle :
      (w : World R.State) (calls : List Call)
      → All IsSingle calls
      → Ensures (clean_up R env w calls) Spawns
  unfolding clean_up
  clean_up-IsSingle w calls h = elim (Option-cases env.non_exited_ids) [
    | inl e ↦ rw (e, clean_up) h
    | inr (ids, e) ↦
        let all =
          All-append IsSingle calls (stale_calls ids w.services) h
            (stale_calls-IsSingle ids w.services) in
        elim (Option-cases (R.services w.registry)) [
          | inl e' ↦ rw (e, e', clean_up) all
          | inr (listed, e') ↦ rw (e, e', clean_up) (with_registry-IsSingle w _ _ all)
        ]
  ]

  service_sync-IsSingle :
      (message : SyncMessage) (w : World R.State) → Ensures (service_sync R env message w) Spawns
  unfolding service_sync
  service_sync-IsSingle message w = elim (Option-cases env.running_ids) [
    | inl e ↦ elim (Bool-cases message.quiet) [
      | inl q ↦ rw (e, q, service_sync) tt
      | inr q ↦ rw (e, q, service_sync) tt
    ]
    | inr (ids, e) ↦
        rw (e, service_sync)
          (if_asked w.config.cleanup _ (sync_listings-IsSingle message.ip ids w [] tt))
  ]
    where
      if_asked :
          (b : Bool) (x : World R.State × List Call)
          → Spawns x
          → Ensures (if b then clean_up R env x.0 x.1 else ok x) Spawns
      if_asked true (w', calls) h = clean_up-IsSingle w' calls h
      if_asked false (w', calls) h = h

  none_started : (m : Outcome (World R.State)) → Ensures (m >>= λ w. ok (w, [])) Spawns
  none_started m = Ensures-bind m _ (λ w. Unit) Spawns (Ensures-any m) (λ w h. tt)

  -- The calls that a call starts are calls for one container.
  pub step-IsSingle : (c : Call) (w : World R.State) → Ensures (step R env c w) Spawns
  unfolding step synchronise
  step-IsSingle (add_call id ip) w = none_started _
  step-IsSingle (remove_call id) w = none_started _
  step-IsSingle (remove_on_exit_call id) w = none_started _
  step-IsSingle refresh_call w = none_started _
  step-IsSingle prune_call w = none_started _
  step-IsSingle (sync_call message) w =
      Ensures-bind (lock w) _ (λ x. Unit) Spawns (Ensures-any (lock w))
        (λ w' h.
          Ensures-bind (service_sync R env message w') _ Spawns Spawns
            (service_sync-IsSingle message w') (λ x h'. h'))
