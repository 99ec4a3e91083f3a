-- ===== src/Bridge/Threads/Kept.antt =====
-- The services in a Bridge's maps under every interleaving of its calls, bridge/bridge.go and
-- bridge/servicesync.go.
use mathlib.Core.Path.{subst}
use registrator.Common.{◌≡◌, [], ◌∷◌, All}
use registrator.Common.Lists.{All-middle}
use registrator.Bridge.Env.{Env}
use registrator.Bridge.World.{Registry}
use registrator.Bridge.Ensures.{Ensures-ok}
use registrator.Bridge.Threads.{next, System, Step, begin, move, Steps, done, before_last}
use registrator.Bridge.Threads.Sections.{Holds}
use registrator.Bridge.Threads.Sound.{
  Genuine, CarriesGenuine, Sound, spawn-CarriesGenuine, next-Sound,
}

module _ (R : Registry) (Possible : Env → Type 0) where
  -- What holds of a system.
  abbrev SystemSound : System R.State → Type 0
  SystemSound s = Holds (Genuine R Possible) s.world × All (CarriesGenuine R Possible) s.threads

  Step-Sound : {s u : System R.State} → Step R Possible s u → SystemSound s → SystemSound u
  unfolding CarriesGenuine
  Step-Sound {s} (begin c) (v, h) = (v, ((spawn-CarriesGenuine R Possible (c ∷ [])).0, h))
  Step-Sound {s} (move env before t after ts w possible place e) (v, h) =
      let (p, f) =
        All-middle (CarriesGenuine R Possible) before t after ts
          (subst (All (CarriesGenuine R Possible)) place h) in
      let (v', h') =
        Ensures-ok (next R env t s.world) (Sound R Possible) e
          (next-Sound R Possible env possible t s.world p v) in
      (v', f h')

  Steps-Sound : {s u : System R.State} → Steps R Possible s u → SystemSound s → SystemSound u
  Steps-Sound done h = h
  Steps-Sound (before_last steps step) h = Step-Sound step (Steps-Sound steps h)

  -- A bridge that has just been made.
  abbrev pub New : System R.State → Type 0
  New s = (s.world.services ≡ []) × (s.world.dead_containers ≡ []) × (s.threads ≡ [])

  New-Sound : (s : System R.State) → New s → SystemSound s
  New-Sound s (e, d, t) =
      (record { keys = rw e tt; dead_keys = rw d tt; tracked = rw e tt; aside = rw d tt }, rw t tt)

  -- Whatever calls begin and whatever threads go on, in any order, from a bridge that has just been
  -- made: in each of the two maps a container's id stands once, with one service at least, and every
  -- service under it is one that newService made of a port of a container with that id and that the
  -- registry took, or such a one at an address that a synchronisation moved it to. The port is that of
  -- a key that the container exposes or publishes: it has the key's number and protocol, where the
  -- key is two parts around one slash, and the host port that goes with it, which is the exposed
  -- one's own number, or that of the key's first binding; it has the container's hostname, and the
  -- container's address if that is not empty. So is each service that a refresh has still to refresh,
  -- or that `add` is about to track for its container, and the ports that `add` has still to register
  -- are such ports of their container.
  pub Steps-Holds :
      (s u : System R.State)
      → New s
      → Steps R Possible s u
      → Holds (Genuine R Possible) u.world × All (CarriesGenuine R Possible) u.threads
  Steps-Holds s u new steps = Steps-Sound steps (New-Sound s new)
