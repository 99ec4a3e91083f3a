-- ===== src/Program/Concurrent/Laws.antt =====
-- What main of registrator.go keeps under every interleaving of its goroutines.
use mathlib.Core.Path.{subst}
use registrator.Common.{ℕ, ◌≡◌, refl, List, [], ◌∷◌, All}
use registrator.Common.Lists.{All-middle}
use registrator.Bridge.Env.{Env}
use registrator.Bridge.World.{Registry, World}
use registrator.Bridge.Ensures.{Ensures-ok}
use registrator.Bridge.Sync.{Call}
use registrator.Bridge.Threads.{next, System, begin, move, Steps, done, before_last}
use registrator.Bridge.Threads.AloneAdd.{Steps-trans}
use registrator.Bridge.Threads.Sections.{Holds}
use registrator.Bridge.Threads.Sound.{Genuine, CarriesGenuine}
use registrator.Bridge.Threads.Kept.{Steps-Holds}
use registrator.Program.Settings.{Flags, IsSound}
use registrator.Program.Loop.{Running, Outside, runs, start}
use registrator.Program.Loop.Waiting.{Fits, FitsResync, handle_event-Fits, resync_process-Fits}
use registrator.Program.Loop.Laws.{RunsWell, start-RunsWell}
use registrator.Program.Concurrent.{
  Live, begin_all, live, Advance, docker_event, prune_tick, refresh_tick, ip_tick, resync_tick,
  thread, Advances, here, later,
}
use registrator.Program.Concurrent.Timers.{IsMeant, spawn-IsMeant, next-IsMeant}

module _ (R : Registry) (Possible : Env → Type 0) where
  begin_all-Steps :
      (calls : List Call) (s u : System R.State)
      → Steps R Possible s u
      → Steps R Possible s (begin_all R calls u)
  unfolding begin_all
  begin_all-Steps [] s u h = h
  begin_all-Steps (c ∷ calls) s u h = begin_all-Steps calls s _ (before_last h (begin c))

  module _ (f : Flags) where
    -- The program makes steps of the bridge's threads only.
    Advances-Steps : {l m : Live R} → Advances R Possible f l m → Steps R Possible l.system m.system
    Advances-Steps here = done
    Advances-Steps (later h (docker_event status id)) = begin_all-Steps _ _ _ (Advances-Steps h)
    Advances-Steps (later h (prune_tick on)) = begin_all-Steps _ _ _ (Advances-Steps h)
    Advances-Steps (later h (refresh_tick on)) = begin_all-Steps _ _ _ (Advances-Steps h)
    Advances-Steps (later h (ip_tick answer ip calls on e)) =
        begin_all-Steps calls _ _ (Advances-Steps h)
    Advances-Steps (later h (resync_tick answer ip calls on e)) =
        begin_all-Steps calls _ _ (Advances-Steps h)
    Advances-Steps (later h (thread env before t after ts w possible place e)) =
        before_last (Advances-Steps h) (move env before t after ts w possible place e)

    begin_all-IsMeant :
        (calls : List Call) (s : System R.State)
        → All (Fits f) calls
        → All (IsMeant f) s.threads
        → All (IsMeant f) (begin_all R calls s).threads
    unfolding begin_all
    begin_all-IsMeant [] s h k = k
    begin_all-IsMeant (c ∷ calls) s (h, hs) k =
        begin_all-IsMeant calls _ hs (spawn-IsMeant f c h, k)

    Advance-IsMeant :
        {l m : Live R}
        → Advance R Possible f l m
        → All (IsMeant f) l.system.threads
        → All (IsMeant f) m.system.threads
    Advance-IsMeant {l} (docker_event status id) h =
        begin_all-IsMeant _ l.system (handle_event-Fits f l.discovered_ip status id) h
    Advance-IsMeant {l} (prune_tick on) h = begin_all-IsMeant _ l.system (on, tt) h
    Advance-IsMeant {l} (refresh_tick on) h = begin_all-IsMeant _ l.system (on, tt) h
    Advance-IsMeant {l} (ip_tick answer ip calls on e) h =
        begin_all-IsMeant calls l.system
          (subst (FitsResync f) e
            (resync_process-Fits f answer _ l.system.world.config _ l.discovered_ip))
          h
    Advance-IsMeant {l} (resync_tick answer ip calls on e) h =
        begin_all-IsMeant calls l.system
          (subst (FitsResync f) e
            (resync_process-Fits f answer _ l.system.world.config _ l.discovered_ip))
          h
    Advance-IsMeant {l} (thread env before t after ts w possible place e) h =
        let (p, k) = All-middle (IsMeant f) before t after ts (subst (All (IsMeant f)) place h) in
        k (
          Ensures-ok (next R env t l.system.world) (λ x. All (IsMeant f) x.1) e
            (next-IsMeant R env f t l.system.world p))

    Advances-IsMeant :
        {l m : Live R}
        → Advances R Possible f l m
        → All (IsMeant f) l.system.threads
        → All (IsMeant f) m.system.threads
    Advances-IsMeant here h = h
    Advances-IsMeant (later k step) h = Advance-IsMeant step (Advances-IsMeant k h)

    begun :
        (calls : List Call) (w : World R.State)
        → All (Fits f) calls
        → All (IsMeant f) (begin_all R calls (record { world = w; threads = [] })).threads
    begun calls w h = begin_all-IsMeant calls _ h tt

-- A program whose start gets as far as its event loop has a configuration whose address is empty or
-- of four octets, whose times fit and whose check of exited containers is one of the two that there
-- are. Then, whatever ticks and events of Docker come and whatever threads go on, in any order: in
-- each of the bridge's two maps a container's id stands once, with one service at least, and every
-- service under it is one that newService made of a port that a container with that id exposes or
-- publishes, and that the registry took, or such a one at an address that a synchronisation moved it
-- to; so are the services that a refresh has still to refresh or that `add` is about to track. No
-- synchronisation begins with an address that is not empty and not of four octets, and there is no
-- refresh and no pruning where the interval is zero or less.
pub start-Advances :
    (o : Outside) (fuel : ℕ) (f : Flags) (R : Registry) (Possible : Env → Type 0) (p : Running R)
    (l : Live R)
    → start o fuel f ≡ runs R p
    → Advances R Possible f (live R p) l
    → IsSound p.world.config p.discovered_ip
      × Holds (Genuine R Possible) l.system.world
      × All (CarriesGenuine R Possible) l.system.threads
      × All (IsMeant f) l.system.threads
unfolding live
start-Advances o fuel f R Possible p l e h =
    let (s, (services, dead, free), fits) : RunsWell f (runs R p) =
      rw e at (start-RunsWell o fuel f) in
    let first : System R.State = record { world = p.world; threads = [] } in
    let steps =
      Steps-trans R Possible (begin_all-Steps R Possible p.waiting first first done)
        (Advances-Steps R Possible f h) in
    let (v, k) = Steps-Holds R Possible first l.system (services, dead, refl) steps in
    (s, v, k, Advances-IsMeant R Possible f h (begun R Possible f p.waiting p.world fits))
