-- ===== src/Program/Loop.antt =====
-- main of registrator.go as a whole: the start, and then the timers, the events of Docker and the
-- calls of the bridge, which run in goroutines of their own. A call waits until its turn comes, in
-- whatever order, and then runs to its end.
pub mod Waiting
pub mod Laws
use registrator.Common.{
  ℕ, zero, suc, ◌≡◌, String, Bool, true, false, not, Option, none, some, List, [], ◌∷◌, ◌++◌,
  if◌then◌else◌, ◌==◌,
}
use registrator.Common.Int.{ℤ, pos, leb_ℤ, pos_part}
use registrator.Common.Map.{Map}
use registrator.Bridge.Types.{Config, SyncMessage}
use registrator.Bridge.Env.{Env}
use registrator.Bridge.World.{
  Registry, World, Outcome, ok, blocked, panic, exit, ◌>>=◌, ping_registry,
}
use registrator.Bridge.Sync.{Call, sync_call, refresh_call, prune_call, step}
use registrator.Adapter.Uri.{Uri}
use registrator.Program.Connect.{Connection, connected, gave_up, skipped, connect}
use registrator.Program.Events.{handle_event, Resync, exits, resynced, resync_process}
use registrator.Program.Settings.{Flags, Startup, configure, configured, selected}
use registrator.Program.Start.{Factory, Started, started, new_bridge}

-- The discovered address, the calls that wait for their turn, and the bridge.
pub record Running (R : Registry) : Type 0 where
  pub discovered_ip : String
  pub waiting : List Call
  pub world : World R.State

-- main ends with a code, waits for the registry beyond the fuel, or runs.
pub data Launched : Type 1 where
  ends : ℕ → Launched
  waits : Launched
  runs : (R : Registry) → Running R → Launched

-- Whether the arguments, the program's name being the first, are the one that prints the version.
unfoldable pub asks_version : List String → Bool
asks_version (program ∷ argument ∷ []) = argument == "--version"
asks_version _ = false

-- The bridge behind a number of attempts of Ping, and what the next one answers.
unfoldable pub pinged : (R : Registry) → ℕ → World R.State → World R.State
pinged R zero w = w
pinged R (suc n) w = pinged R n (ping_registry R w).0

unfoldable pub answers : (R : Registry) → World R.State → ℕ → Bool
unfolding pinged
answers R w attempt = (ping_registry R (pinged R attempt w)).1

-- The first synchronisation is not quiet. Whether Docker takes the listener is the first argument.
abbrev pub listen : Bool → String → String → (R : Registry) → World R.State → Launched
listen listens ip host_ip R w =
    if listens
    then runs R (record {
      discovered_ip = ip;
      waiting = sync_call (record { quiet = false; ip = host_ip }) ∷ [];
      world = w;
    })
    else ends 1

-- Behind the loop around Ping.
unfoldable pub launch :
    Bool → String → String → (R : Registry) → World R.State → Option Connection → Launched
unfolding pinged
launch listens ip host_ip R w none = waits
launch listens ip host_ip R w (some gave_up) = ends 1
launch listens ip host_ip R w (some skipped) = listen listens ip host_ip R w
launch listens ip host_ip R w (some (connected attempt)) =
    listen listens ip host_ip R (pinged R (suc attempt) w)

-- What the start asks of the outside: the arguments, the answers of the external source, whether a
-- Docker client is made and takes the listener, the factories and the parsed URI.
pub record Outside : Type 1 where
  pub args : List String
  pub answer : ℕ → Option String
  pub docker : Bool
  pub listens : Bool
  pub type_name : Factory → String
  pub factories : Map Factory
  pub uri : Option Uri

unfoldable pub with_bridge : Outside → ℕ → Flags → String → Started → Launched
unfolding launch connect answers
with_bridge o fuel f ip (started R w) =
    launch o.listens ip (selected f ip) R w (connect (answers R w) f.retry_attempts fuel)
with_bridge o fuel f ip _ = ends 1

unfoldable pub with_settings : Outside → ℕ → Flags → Startup → Launched
unfolding with_bridge new_bridge
with_settings o fuel f (Startup.exits code) = ends code
with_settings o fuel f (configured config ip) =
    with_bridge o fuel f ip (new_bridge o.type_name o.factories o.uri config)

-- The fuel is for the attempts of Ping.
unfoldable pub start : Outside → ℕ → Flags → Launched
unfolding asks_version configure with_settings
start o fuel f =
    if asks_version o.args then ends 0 else with_settings o fuel f (configure o.answer o.docker f)

-- What happens: an event of Docker, a tick of one of the timers, with the answers of the external
-- source, or the turn of a call that waits.
pub data Signal : Type 0 where
  docker_event : String → String → Signal
  prune_tick : Signal
  refresh_tick : Signal
  ip_tick : (ℕ → Option String) → Signal
  resync_tick : (ℕ → Option String) → Signal
  turn : ℕ → Signal

-- The call with this number, and the others.
unfoldable pub take_call : ℕ → List Call → Option (Call × List Call)
take_call n [] = none
take_call zero (c ∷ calls) = some (c, calls)
take_call (suc n) (c ∷ calls) = elim (take_call n calls) [
  | none ↦ none
  | some (d, rest) ↦ some (d, c ∷ rest)
]

module _ (R : Registry) (env : Env) (f : Flags) where
  abbrev pub wait_for : List Call → Running R → Outcome (Running R)
  wait_for calls p = ok (record p { waiting = p.waiting ++ calls })

  abbrev pub resync : Resync → Running R → Outcome (Running R)
  resync exits p = exit
  resync (resynced ip calls) p = ok (record p { discovered_ip = ip; waiting = p.waiting ++ calls })

  abbrev pub resync_with : (ℕ → Option String) → Running R → Outcome (Running R)
  resync_with answer p =
      resync
        (resync_process answer (pos_part f.ip_lookup_retries) p.world.config f.ip_lookup_source
          p.discovered_ip)
        p

  -- The call runs, and those that it starts wait.
  abbrev pub run_call : Running R → Option (Call × List Call) → Outcome (Running R)
  run_call p none = ok p
  run_call p (some (c, rest)) =
      step R env c p.world >>= λ x. ok (record p { waiting = rest ++ x.1; world = x.0 })

  -- A timer that is not started does not tick.
  unfoldable pub happen : Signal → Running R → Outcome (Running R)
  unfolding handle_event resync_process step take_call
  happen (docker_event status id) p = wait_for (handle_event p.discovered_ip status id) p
  happen prune_tick p =
      if leb_ℤ f.refresh_interval (pos 0) then ok p else wait_for (prune_call ∷ []) p
  happen refresh_tick p =
      if leb_ℤ f.refresh_interval (pos 0) then ok p else wait_for (refresh_call ∷ []) p
  happen (ip_tick answer) p = if f.ip_lookup_source == "" then ok p else resync_with answer p
  happen (resync_tick answer) p =
      if leb_ℤ f.resync_interval (pos 0) then ok p else resync_with answer p
  happen (turn n) p = run_call p (take_call n p.waiting)

  unfoldable pub happen_all : List Signal → Running R → Outcome (Running R)
  unfolding happen
  happen_all [] p = ok p
  happen_all (s ∷ signals) p = happen s p >>= λ p'. happen_all signals p'
