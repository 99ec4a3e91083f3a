-- ===== src/Bridge/Threads/Alone.antt =====
-- A call of bridge/bridge.go or bridge/servicesync.go that no other thread interrupts.
use mathlib.Core.Path.{subst}
use registrator.Common.{
  ◌≡◌, ◌∙◌, ap, refl, sym, String, Bool, true, false, List, [], ◌∷◌, ◌++◌, map,
}
use registrator.Common.Map.{Map}
use registrator.Bridge.Types.{Service}
use registrator.Bridge.Env.{Env}
use registrator.Bridge.World.{Registry, World, Outcome, ok, ◌>>=◌, lock, unlock}
use registrator.Bridge.Remove.{
  should_remove, remove, remove_on_exit, refresh_services, refresh_containers, refresh,
  prune_dead_containers,
}
use registrator.Bridge.Sync.{
  Call, add_call, remove_call, remove_on_exit_call, refresh_call, prune_call, sync_call, step,
  synchronise,
}
use registrator.Bridge.Threads.{
  removing, copying, refreshing, pruning, spawn, copied, with_calls, next, begin, Steps, done,
  before_last,
}
use registrator.Bridge.Threads.AloneAdd.{
  bind_ok, ok_injective, bind-ok, system, Steps-trans, once, andthen, adding_alone,
}

abbrev with_none : {S : Type 0} → World S → Outcome (World S × List Call)
with_none w = ok (w, [])

module _ (R : Registry) (Possible : Env → Type 0) (env : Env) (possible : Possible env) where
  removing_alone :
      (id : String) (d : Bool) (w w' : World R.State)
      → remove R env id d w ≡ ok w'
      → Steps R Possible (system w (removing id d ∷ [])) (system w' [])
  unfolding next
  removing_alone id d w w' e =
      once R Possible env possible _ [] w w' (bind-ok (remove R env id d w) _ w' e)

  refreshing_alone :
      (ss : List Service) (w : World R.State)
      → Steps R Possible
          (system w (refreshing ss ∷ []))
          (system (record w { registry = refresh_services R env ss w.registry }) [])
  unfolding refresh_services next
  refreshing_alone [] w = once R Possible env possible _ [] w w refl
  refreshing_alone (s ∷ ss) w =
      let w1 = record w { registry = (R.refresh s w.registry).0 } in
      andthen R Possible env possible _ (refreshing ss ∷ []) w w1 _ refl (refreshing_alone ss w1)

  refresh_services-append :
      (ss ts : List Service) (r : R.State)
      → refresh_services R env (ss ++ ts) r
        ≡ refresh_services R env ts (refresh_services R env ss r)
  unfolding refresh_services
  refresh_services-append [] ts r = refl
  refresh_services-append (s ∷ ss) ts r = refresh_services-append ss ts (R.refresh s r).0

  refresh_containers-copied :
      (m : Map (List Service)) (r : R.State)
      → refresh_containers R env m r ≡ refresh_services R env (copied m) r
  unfolding refresh_containers copied refresh_services
  refresh_containers-copied [] r = refl
  refresh_containers-copied ((id, ss) ∷ m) r =
      refresh_containers-copied m _ ∙ sym (refresh_services-append ss (copied m) r)

  copying_alone :
      (w w' : World R.State)
      → refresh R env w ≡ ok w'
      → Steps R Possible (system w (copying ∷ [])) (system w' [])
  unfolding refresh next
  copying_alone w w' e =
      let (w1, e1, f1) = bind_ok (lock w) _ w' e in
      let same : record w1 {
        registry = refresh_services R env (copied w1.services) w1.registry;
        locked = false;
      }
          ≡ w' =
        ap (λ r. record w1 { registry = r; locked = false })
          (sym (refresh_containers-copied w1.services w1.registry))
        ∙ ok_injective _ w' f1 in
      andthen R Possible env possible _ (refreshing (copied w1.services) ∷ []) w (unlock w1) _
        (bind-ok (lock w) _ w1 e1)
        (subst
          (λ v.
            Steps R Possible (system (unlock w1) (refreshing (copied w1.services) ∷ []))
              (system v []))
          same (refreshing_alone (copied w1.services) (unlock w1)))

  -- A call that starts no other.
  starts_none :
      (c : Call) (calls : List Call) (m : Outcome (World R.State)) (w w' : World R.State)
      → (m >>= with_none) ≡ ok (w', calls)
      → (m ≡ ok w' → Steps R Possible (system w (spawn c ∷ [])) (system w' []))
      → Steps R Possible (system w []) (system w' (map spawn calls))
  starts_none c calls m w w' e f =
      let (v, e1, e2) = bind_ok m with_none (w', calls) e in
      let (same, no_calls) = same_pair e2 in
      subst (λ ts. Steps R Possible (system w []) (system w' (map spawn ts))) no_calls
        (Steps-trans R Possible (before_last done (begin c)) (f (e1 ∙ ap ok same)))
    where
      same_pair : {v : World R.State} → with_none v ≡ ok (w', calls) → (v ≡ w') × ([] ≡ calls)
      same_pair e = (ap (λ x. x.0) (ok_injective _ _ e), ap (λ x. x.1) (ok_injective _ _ e))

  -- A call that ends is one of the schedules: the steps of its thread, with no other thread, lead
  -- to the world that the call leaves and to the threads of the calls that it starts.
  pub step-Steps :
      (c : Call) (w w' : World R.State) (calls : List Call)
      → step R env c w ≡ ok (w', calls)
      → Steps R Possible (system w []) (system w' (map spawn calls))
  unfolding step spawn next remove_on_exit
  step-Steps (add_call id ip) w w' calls e =
      starts_none (add_call id ip) calls _ w w' e (adding_alone R Possible env possible id ip w w')
  step-Steps (remove_call id) w w' calls e =
      starts_none (remove_call id) calls _ w w' e (removing_alone id true w w')
  step-Steps (remove_on_exit_call id) w w' calls e =
      let d = should_remove env w.config id in
      starts_none (remove_on_exit_call id) calls _ w w' e (λ e'.
        andthen R Possible env possible _ (removing id d ∷ []) w w _ refl
          (removing_alone id d w w' e'))
  step-Steps refresh_call w w' calls e =
      starts_none refresh_call calls _ w w' e (copying_alone w w')
  step-Steps prune_call w w' calls e = starts_none prune_call calls _ w w' e (λ e'.
      once R Possible env possible pruning [] w w' (bind-ok (prune_dead_containers w) _ w' e'))
  step-Steps (sync_call message) w w' calls e =
      Steps-trans R Possible (before_last done (begin (sync_call message))) (
        once R Possible env possible _ (map spawn calls) w w'
          (bind-ok (synchronise R env message w) with_calls (w', calls) e))
