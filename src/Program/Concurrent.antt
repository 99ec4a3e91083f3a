-- ===== src/Program/Concurrent.antt =====
-- main of registrator.go with its goroutines: the timers, the events of Docker, and the calls of the
-- bridge as threads that interleave.
pub mod Timers
pub mod Laws
use registrator.Common.{ℕ, ◌≡◌, String, Bool, false, Option, List, [], ◌∷◌, ◌++◌, ◌==◌}
use registrator.Common.Int.{pos, leb_ℤ, pos_part}
use registrator.Bridge.Env.{Env}
use registrator.Bridge.World.{Registry, World, ok}
use registrator.Bridge.Sync.{Call, refresh_call, prune_call}
use registrator.Bridge.Threads.{Thread, spawn, next, System}
use registrator.Program.Events.{handle_event, resynced, resync_process}
use registrator.Program.Settings.{Flags}
use registrator.Program.Loop.{Running}

-- The discovered address, and the bridge with the threads that run in it.
pub record Live (R : Registry) : Type 0 where
  pub discovered_ip : String
  pub system : System R.State

module _ (R : Registry) where
  -- Each call begins in a goroutine.
  unfoldable pub begin_all : List Call → System R.State → System R.State
  unfolding spawn
  begin_all [] s = s
  begin_all (c ∷ calls) s = begin_all calls (record s { threads = spawn c ∷ s.threads })

  -- The program at its event loop, with the first synchronisation.
  unfoldable pub live : Running R → Live R
  unfolding begin_all
  live p = record {
    discovered_ip = p.discovered_ip;
    system = begin_all p.waiting (record { world = p.world; threads = [] });
  }

  module _ (Possible : Env → Type 0) (f : Flags) where
    abbrev Resyncs : (ℕ → Option String) → Live R → String → List Call → Type 0
    Resyncs answer l ip calls =
        resync_process answer (pos_part f.ip_lookup_retries) l.system.world.config
          f.ip_lookup_source l.discovered_ip
        ≡ resynced ip calls

    -- An event or a tick begins calls, or a thread makes a step. A timer that is not started does not
    -- tick. A resynchronisation that ends the program has no successor, and neither has a panic.
    pub data Advance (l : Live R) : Live R → Type 0 where
      docker_event :
          (status id : String)
          → Advance l
              (record l { system = begin_all (handle_event l.discovered_ip status id) l.system })
      prune_tick :
          leb_ℤ f.refresh_interval (pos 0) ≡ false
          → Advance l (record l { system = begin_all (prune_call ∷ []) l.system })
      refresh_tick :
          leb_ℤ f.refresh_interval (pos 0) ≡ false
          → Advance l (record l { system = begin_all (refresh_call ∷ []) l.system })
      ip_tick :
          (answer : ℕ → Option String) (ip : String) (calls : List Call)
          → (f.ip_lookup_source == "") ≡ false
          → Resyncs answer l ip calls
          → Advance l (record { discovered_ip = ip; system = begin_all calls l.system })
      resync_tick :
          (answer : ℕ → Option String) (ip : String) (calls : List Call)
          → leb_ℤ f.resync_interval (pos 0) ≡ false
          → Resyncs answer l ip calls
          → Advance l (record { discovered_ip = ip; system = begin_all calls l.system })
      thread :
          (env : Env) (before : List Thread) (t : Thread) (after ts : List Thread)
          (w : World R.State)
          → Possible env
          → l.system.threads ≡ before ++ t ∷ after
          → next R env t l.system.world ≡ ok (w, ts)
          → Advance l (record l { system = record { world = w; threads = before ++ ts ++ after } })

    pub data Advances (l : Live R) : Live R → Type 0 where
      here : Advances l l
      later : {k m : Live R} → Advances l k → Advance k m → Advances l m
