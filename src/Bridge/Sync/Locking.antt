-- ===== src/Bridge/Sync/Locking.antt =====
-- The lock of a Bridge across the calls of bridge/bridge.go and bridge/servicesync.go.
use registrator.Common.{◌≡◌, refl, String, true, false, some, [], eq_self, arith}
use registrator.Common.Int.{pos, eq_ℤ}
use registrator.Common.Map.{get, put, delete, get-put, get_or-put}
use registrator.Bridge.Types.{DeadContainer}
use registrator.Bridge.Env.{Env}
use registrator.Bridge.World.{Registry, World, ok, blocked}
use registrator.Bridge.Tracking.{is_nil, services_of, revive, delete_dead_container}
use registrator.Bridge.Add.{add}
use registrator.Bridge.Remove.{remove, set_aside, remove_on_exit, refresh, prune_dead_containers}
use registrator.Bridge.Sync.{
  Call, add_call, remove_call, remove_on_exit_call, refresh_call, prune_call, sync_call, step,
  synchronise,
}

module _ (R : Registry) (env : Env) where
  -- Once the lock is held between two calls, every further call of a method waits for ever.
  step_locked : (c : Call) (w : World R.State) → w.locked ≡ true → step R env c w ≡ blocked
  unfolding step add delete_dead_container remove remove_on_exit refresh prune_dead_containers
      synchronise
  step_locked (add_call id ip) w h = rw h
  step_locked (remove_call id) w h = rw h
  step_locked (remove_on_exit_call id) w h = rw h
  step_locked refresh_call w h = rw h
  step_locked prune_call w h = rw h
  step_locked (sync_call message) w h = rw h

  -- With a free lock, `add` of a container that has services, or that has some set aside, ends
  -- and leaves the lock held: its early return skips the Unlock. The services are not registered
  -- again.
  add_tracked :
      (id ip : String) (w : World R.State)
      → w.locked ≡ false
      → is_nil (services_of id (revive id w)) ≡ false
      → add R env id ip w ≡ ok (record (revive id w) { locked = true })
  unfolding add delete_dead_container revive
  add_tracked id ip w h t = ground arith

  abbrev aside : String → World R.State → World R.State
  aside id w = record w {
    locked = false;
    services = delete id w.services;
    dead_containers =
        put id (record { ttl = w.config.refresh_ttl; services = services_of id w })
          w.dead_containers;
  }

  remove-aside :
      (id : String) (w : World R.State)
      → w.locked ≡ false
      → eq_ℤ w.config.refresh_ttl (pos 0) ≡ false
      → is_nil (services_of id w) ≡ false
      → remove R env id false w ≡ ok (aside id w)
  unfolding remove set_aside
  remove-aside id w h t s = rw (h, t, s)

  revive-aside :
      (id : String) (w : World R.State)
      → (services_of id (revive id (aside id w)) ≡ services_of id w)
        × ((revive id (aside id w)).registry ≡ w.registry)
  unfolding revive
  revive-aside id w =
      let d : DeadContainer = record { ttl = w.config.refresh_ttl; services = services_of id w } in
      let found : get id (put id d w.dead_containers) ≡ some d =
        rw (get-put id id d w.dead_containers, eq_self id) refl in
      rw (found, revive)
        (rw (get_or-put [] id id (services_of id w) (delete id w.services), eq_self id) refl, refl)

  -- With a free lock and a time to live that is not zero: a tracked container that exits without
  -- being deregistered is set aside, and its next start ends with its services tracked again, the
  -- registry unchanged and the lock held, so that every call after it waits for ever, whatever
  -- the address.
  pub restart_blocks :
      (id ip : String) (c : Call) (w : World R.State)
      → w.locked ≡ false
      → eq_ℤ w.config.refresh_ttl (pos 0) ≡ false
      → is_nil (services_of id w) ≡ false
      → (w' : World R.State) × (w'' : World R.State) × (remove R env id false w ≡ ok w')
        × (add R env id ip w' ≡ ok w'')
        × (services_of id w'' ≡ services_of id w)
        × (w''.registry ≡ w.registry)
        × (step R env c w'' ≡ blocked)
  restart_blocks id ip c w h t s =
      let (kept, same) = revive-aside id w in
      (
        aside id w,
        record (revive id (aside id w)) { locked = true },
        remove-aside id w h t s,
        add_tracked id ip (aside id w) refl (rw kept s),
        kept,
        same,
        step_locked c _ refl,
      )
