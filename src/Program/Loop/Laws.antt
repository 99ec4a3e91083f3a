-- ===== src/Program/Loop/Laws.antt =====
-- What main of registrator.go starts with, and keeps through its timers, events and calls.
use mathlib.Core.Path.{subst}
use registrator.Common.{
  ℕ, zero, suc, Bool-cases, inl, inr, ◌≡◌, refl, sym, String, Bool, true, false, Option, none, some,
  List, [], ◌∷◌, if◌then◌else◌, ◌==◌, All,
}
use registrator.Common.Int.{pos, leb_ℤ}
use registrator.Common.Lists.{All-append}
use registrator.Bridge.Types.{Config}
use registrator.Bridge.Env.{Env}
use registrator.Bridge.World.{Registry, World, ok, ping_registry}
use registrator.Bridge.Ensures.{Ensures, Ensures-bind, Ensures-both, Ensures-ok}
use registrator.Bridge.Sync.Spawned.{IsSingle, step-IsSingle}
use registrator.Bridge.Sync.{refresh_call, prune_call, Call, step}
use registrator.Bridge.Sync.Adding.{Inv, FindsById}
use registrator.Bridge.Sync.Invariant.{step_ensures}
use registrator.Program.Connect.{Connection, connected, gave_up, skipped, connect}
use registrator.Program.Events.{Resync, exits, resynced}
use registrator.Program.Settings.{
  Flags, IsAddressOrNone, Startup, configure, configured, IsSound, selected,
}
use registrator.Program.Settings.Sound.{configure-IsSound, configure-selected}
use registrator.Program.Start.{
  Started, started, bad_uri, unrecognized, fatal, StartsWell, new_bridge-StartsWell, IsFresh,
  IsFresh-Inv,
}
use registrator.Program.Loop.Waiting.{
  Fits, FitsResync, FitsTaken, single-Fits, handle_event-Fits, resync_process-Fits, take_call-Fits,
}
use registrator.Program.Loop.{
  wait_for, resync_with, Running, Launched, ends, waits, runs, pinged, answers, listen, launch,
  asks_version, Outside, with_bridge, with_settings, start, Signal, docker_event, prune_tick,
  refresh_tick, ip_tick, resync_tick, turn, take_call, resync, run_call, happen, happen_all,
}

-- A program that runs has a sound configuration and address, a fresh bridge, and calls that fit.
abbrev pub RunsWell : Flags → Launched → Type 0
RunsWell f (runs R p) =
    IsSound p.world.config p.discovered_ip × IsFresh p.world × All (Fits f) p.waiting
RunsWell f (ends n) = Unit
RunsWell f waits = Unit

listen-RunsWell :
    (f : Flags) (listens : Bool) (ip host_ip : String) (R : Registry) (w : World R.State)
    → IsSound w.config ip
    → IsAddressOrNone host_ip
    → IsFresh w
    → RunsWell f (listen listens ip host_ip R w)
listen-RunsWell f true ip host_ip R w s a v = (s, v, (a, tt))
listen-RunsWell f false ip host_ip R w s a v = tt

-- Pings leave the configuration and the maps alone.
pinged-IsFresh :
    (R : Registry) (n : ℕ) (w : World R.State)
    → IsFresh w
    → ((pinged R n w).config ≡ w.config) × IsFresh (pinged R n w)
unfolding pinged
pinged-IsFresh R zero w v = (refl, v)
pinged-IsFresh R (suc n) w v = pinged-IsFresh R n (ping_registry R w).0 v

launch-RunsWell :
    (f : Flags) (listens : Bool) (ip host_ip : String) (R : Registry) (w : World R.State)
    (c : Option Connection)
    → IsSound w.config ip
    → IsAddressOrNone host_ip
    → IsFresh w
    → RunsWell f (launch listens ip host_ip R w c)
unfolding launch
launch-RunsWell f listens ip host_ip R w none s a v = tt
launch-RunsWell f listens ip host_ip R w (some gave_up) s a v = tt
launch-RunsWell f listens ip host_ip R w (some skipped) s a v =
    listen-RunsWell f listens ip host_ip R w s a v
launch-RunsWell f listens ip host_ip R w (some (connected k)) s a v =
    let (same, v') = pinged-IsFresh R (suc k) w v in
    listen-RunsWell f listens ip host_ip R _ (subst (λ c. IsSound c ip) (sym same) s) a v'

with_bridge-RunsWell :
    (o : Outside) (fuel : ℕ) (f : Flags) (config : Config) (ip : String) (x : Started)
    → IsSound config ip
    → IsAddressOrNone (selected f ip)
    → StartsWell config x
    → RunsWell f (with_bridge o fuel f ip x)
unfolding with_bridge
with_bridge-RunsWell o fuel f config ip (started R w) s a (e, v) =
    launch-RunsWell f o.listens ip _ R w (connect (answers R w) f.retry_attempts fuel)
      (rw (sym e) at s) a v
with_bridge-RunsWell o fuel f config ip bad_uri s a v = tt
with_bridge-RunsWell o fuel f config ip unrecognized s a v = tt
with_bridge-RunsWell o fuel f config ip fatal s a v = tt

with_settings-RunsWell :
    (o : Outside) (fuel : ℕ) (f : Flags) (x : Startup)
    → ((config : Config) (ip : String)
        → x ≡ configured config ip
        → IsSound config ip × IsAddressOrNone (selected f ip))
    → RunsWell f (with_settings o fuel f x)
unfolding with_settings
with_settings-RunsWell o fuel f (Startup.exits code) s = tt
with_settings-RunsWell o fuel f (configured config ip) s =
    let (sound, address) = s config ip refl in
    with_bridge-RunsWell o fuel f config ip _ sound address
      (new_bridge-StartsWell o.type_name o.factories o.uri config)

pub start-RunsWell : (o : Outside) (fuel : ℕ) (f : Flags) → RunsWell f (start o fuel f)
unfolding start
start-RunsWell o fuel f = elim (Bool-cases (asks_version o.args)) [
  | inl e ↦ rw (e, start) tt
  | inr e ↦
      rw (e, start)
        (with_settings-RunsWell o fuel f (configure o.answer o.docker f) (λ config ip e'. (
          configure-IsSound o.answer o.docker f config ip e',
          configure-selected o.answer o.docker f config ip e',
        )))
]

module _ (R : Registry) (env : Env) (f : Flags) (finds : FindsById env) where
  abbrev IsWell : Running R → Type 0
  IsWell p = Inv p.world × All (Fits f) p.waiting

  resync-IsWell :
      (r : Resync) (p : Running R) → FitsResync f r → IsWell p → Ensures (resync R env f r p) IsWell
  resync-IsWell exits p h v = tt
  resync-IsWell (resynced ip calls) p h (v, k) = (v, All-append (Fits f) p.waiting calls k h)

  run_call-IsWell :
      (p : Running R) (o : Option (Call × List Call))
      → FitsTaken f o
      → IsWell p
      → Ensures (run_call R env f p o) IsWell
  run_call-IsWell p none h v = v
  run_call-IsWell p (some (c, rest)) h (v, k) =
      Ensures-bind (step R env c p.world) _ (λ x. Inv x.0 × All IsSingle x.1) IsWell
        (Ensures-both (step R env c p.world) (λ x. Inv x.0) (λ x. All IsSingle x.1)
          (step_ensures R env finds c p.world v) (step-IsSingle R env c p.world))
        (λ x (v', single). (v', All-append (Fits f) rest x.1 h (single-Fits f x.1 single)))

  -- A tick of a timer that runs only if the interval is above zero.
  ticks :
      (off : Bool) (call : Call) (p : Running R)
      → (off ≡ false → Fits f call)
      → IsWell p
      → Ensures (if off then ok p else wait_for R env f (call ∷ []) p) IsWell
  ticks true call p h v = v
  ticks false call p h (v, k) = (v, All-append (Fits f) p.waiting (call ∷ []) k (h refl, tt))

  resyncs :
      (off : Bool) (answer : ℕ → Option String) (p : Running R)
      → IsWell p
      → Ensures (if off then ok p else resync_with R env f answer p) IsWell
  resyncs true answer p v = v
  resyncs false answer p v =
      resync-IsWell _ p (resync_process-Fits f answer _ p.world.config _ p.discovered_ip) v

  happen-IsWell : (s : Signal) (p : Running R) → IsWell p → Ensures (happen R env f s p) IsWell
  unfolding happen
  happen-IsWell (docker_event status id) p (v, k) =
      (v, All-append (Fits f) p.waiting _ k (handle_event-Fits f p.discovered_ip status id))
  happen-IsWell prune_tick p v = ticks (leb_ℤ f.refresh_interval (pos 0)) prune_call p (λ e. e) v
  happen-IsWell refresh_tick p v =
      ticks (leb_ℤ f.refresh_interval (pos 0)) refresh_call p (λ e. e) v
  happen-IsWell (ip_tick answer) p v = resyncs (f.ip_lookup_source == "") answer p v
  happen-IsWell (resync_tick answer) p v = resyncs (leb_ℤ f.resync_interval (pos 0)) answer p v
  happen-IsWell (turn n) p (v, k) =
      run_call-IsWell p (take_call n p.waiting) (take_call-Fits f n p.waiting k) (v, k)

  happen_all-IsWell :
      (signals : List Signal) (p : Running R)
      → IsWell p
      → Ensures (happen_all R env f signals p) IsWell
  unfolding happen_all
  happen_all-IsWell [] p v = v
  happen_all-IsWell (s ∷ signals) p v =
      Ensures-bind (happen R env f s p) _ IsWell IsWell (happen-IsWell s p v)
        (λ p' v'. happen_all-IsWell signals p' v')

-- A program whose start gets as far as its event loop has a configuration whose address is empty or of
-- four octets, whose times fit and whose check of exited containers is one of the two that there
-- are. After any ticks, events of Docker and turns of the waiting calls, in whatever order, and as
-- long as each call has ended, the maps of the bridge are consistent: each container stands at most
-- once in each map, none has services tracked and set aside at once, and what is set aside is not
-- empty. No synchronisation waits with an address that is not empty and not of four octets, and
-- none of the refresh's timers' calls where the interval is zero or less. Docker is taken to answer
-- an inspection with the container of the asked id.
happen_all-start :
    (o : Outside) (fuel : ℕ) (f : Flags) (R : Registry) (env : Env) (signals : List Signal)
    (p p' : Running R)
    → FindsById env
    → start o fuel f ≡ runs R p
    → happen_all R env f signals p ≡ ok p'
    → IsSound p.world.config p.discovered_ip × Inv p'.world × All (Fits f) p'.waiting
happen_all-start o fuel f R env signals p p' finds e e' =
    let (s, fresh, fits) : RunsWell f (runs R p) = rw e at (start-RunsWell o fuel f) in
    let v = IsFresh-Inv p.world fresh in
    let (v', fits') =
      Ensures-ok (happen_all R env f signals p) _ e'
        (happen_all-IsWell R env f finds signals p (v, fits)) in
    (s, v', fits')
