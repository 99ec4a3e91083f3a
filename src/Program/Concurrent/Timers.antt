-- ===== src/Program/Concurrent/Timers.antt =====
-- Which threads registrator.go may start, and that a thread keeps to it.
use registrator.Common.{
  ◌≡◌, inl, inr, String, Bool, false, none, some, Option, List, [], ◌∷◌, All, map, Bool-cases,
}
use registrator.Common.Int.{pos, leb_ℤ}
use registrator.Bridge.Types.{Container, ServicePort}
use registrator.Bridge.Env.{Env, Inspected, found, no_such_container, inspect_error}
use registrator.Bridge.World.{Registry, World, Outcome, ◌>>=◌, lock}
use registrator.Bridge.Create.{Created, created, declined, panicked}
use registrator.Bridge.Tracking.{is_nil, services_of, delete_dead_container, append_service}
use registrator.Bridge.Remove.{remove, prune_dead_containers}
use registrator.Bridge.Ensures.{Ensures, Ensures-bind, Ensures-any}
use registrator.Bridge.Sync.{
  Call, add_call, remove_call, remove_on_exit_call, refresh_call, prune_call, sync_call, step,
  synchronise,
}
use registrator.Bridge.Sync.Spawned.{IsSingle, step-IsSingle}
use registrator.Bridge.Threads.{
  Thread, reviving, checking, inspecting, registering, appending, deciding, removing, copying,
  refreshing, pruning, synchronising, spawn, leaving, checked, with_wanted, inspect_ports,
  with_calls, after_register, register_next, next,
}
use registrator.Program.Settings.{Flags, IsAddressOrNone}
use registrator.Program.Loop.Waiting.{Fits, single-Fits}

-- A synchronisation has no address or one of four octets, and the calls of the refresh's timers are
-- there only if there is an interval.
unfoldable pub IsMeant : Flags → Thread → Type 0
IsMeant f (synchronising message) = IsAddressOrNone message.ip
IsMeant f copying = leb_ℤ f.refresh_interval (pos 0) ≡ false
IsMeant f (refreshing ss) = leb_ℤ f.refresh_interval (pos 0) ≡ false
IsMeant f pruning = leb_ℤ f.refresh_interval (pos 0) ≡ false
IsMeant f _ = Unit

pub spawn-IsMeant : (f : Flags) (c : Call) → Fits f c → IsMeant f (spawn c)
unfolding IsMeant spawn
spawn-IsMeant f (add_call id ip) h = tt
spawn-IsMeant f (remove_call id) h = tt
spawn-IsMeant f (remove_on_exit_call id) h = tt
spawn-IsMeant f refresh_call h = h
spawn-IsMeant f prune_call h = h
spawn-IsMeant f (sync_call message) h = h

spawned-IsMeant :
    (f : Flags) (calls : List Call) → All (Fits f) calls → All (IsMeant f) (map spawn calls)
spawned-IsMeant f [] h = tt
spawned-IsMeant f (c ∷ calls) (h, hs) = (spawn-IsMeant f c h, spawned-IsMeant f calls hs)

module _ {S : Type 0} (f : Flags) where
  abbrev Means : World S × List Thread → Type 0
  Means (w, ts) = All (IsMeant f) ts

  leaving-Means :
      (ts : List Thread) (m : Outcome (World S))
      → All (IsMeant f) ts
      → Ensures (m >>= leaving ts) Means
  leaving-Means ts m h = Ensures-bind m (leaving ts) (λ w. Unit) Means (Ensures-any m) (λ w x. h)

  checked-Means : (id ip : String) (w : World S) → Ensures (checked id ip w) Means
  unfolding IsMeant
  checked-Means id ip w = elim (Bool-cases (is_nil (services_of id w))) [
    | inl e ↦ rw e (tt, tt)
    | inr e ↦ rw e tt
  ]

  with_wanted-Means :
      (c : Container) (w : World S) (ports : Option (List ServicePort))
      → Ensures (with_wanted c w ports) Means
  unfolding IsMeant
  with_wanted-Means c w none = tt
  with_wanted-Means c w (some ports) = (tt, tt)

module _ (R : Registry) (env : Env) (f : Flags) where
  inspect_ports-Means :
      (ip : String) (w : World R.State) (x : Inspected)
      → Ensures (inspect_ports env ip w x) (Means f)
  unfolding inspect_ports
  inspect_ports-Means ip w (found c) = with_wanted-Means f c w _
  inspect_ports-Means ip w no_such_container = tt
  inspect_ports-Means ip w inspect_error = tt

  register_next-Means :
      (c : Container) (g : Bool) (ps : List ServicePort) (w : World R.State) (x : Created)
      → Ensures (register_next R env c g ps w x) (Means f)
  unfolding register_next IsMeant
  register_next-Means c g ps w panicked = tt
  register_next-Means c g ps w declined = (tt, tt)
  register_next-Means c g ps w (created s) = elim (Bool-cases (R.register s w.registry).1) [
    | inl e ↦ rw (e, after_register) (tt, tt)
    | inr e ↦ rw (e, after_register) (tt, tt)
  ]

  pub next-IsMeant :
      (t : Thread) (w : World R.State)
      → IsMeant f t
      → Ensures (next R env t w) (λ x. All (IsMeant f) x.1)
  unfolding next IsMeant step
  next-IsMeant (reviving id ip) w h = leaving-Means f _ (delete_dead_container id w) (tt, tt)
  next-IsMeant (checking id ip) w h =
      Ensures-bind (lock w) _ (λ w'. Unit) (Means f) (Ensures-any (lock w))
        (λ w' x. checked-Means f id ip w')
  next-IsMeant (inspecting id ip) w h = inspect_ports-Means ip w (env.inspect id)
  next-IsMeant (registering c g []) w h = tt
  next-IsMeant (registering c g (p ∷ ps)) w h = register_next-Means c g ps w _
  next-IsMeant (appending s c g ps) w h = leaving-Means f _ (append_service c.id s w) (tt, tt)
  next-IsMeant (deciding id) w h = (tt, tt)
  next-IsMeant (removing id d) w h = leaving-Means f [] (remove R env id d w) tt
  next-IsMeant copying w h =
      Ensures-bind (lock w) _ (λ w'. Unit) (Means f) (Ensures-any (lock w)) (λ w' x. (h, tt))
  next-IsMeant (refreshing []) w h = tt
  next-IsMeant (refreshing (s ∷ ss)) w h = (h, tt)
  next-IsMeant pruning w h = leaving-Means f [] (prune_dead_containers w) tt
  next-IsMeant (synchronising m) w h =
      Ensures-bind (synchronise R env m w) with_calls (λ x. All IsSingle x.1) (Means f)
        (step-IsSingle R env (sync_call m) w) (λ x s. spawned-IsMeant f x.1 (single-Fits f x.1 s))
