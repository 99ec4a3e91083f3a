-- ===== src/Program/Loop/Waiting.antt =====
-- The calls that wait for their turn in registrator.go: what main, its timers and its events ask for.
use registrator.Common.{
  ℕ, ◌≡◌, refl, String, Bool, true, false, Option, none, some, List, [], ◌∷◌, if◌then◌else◌, ◌==◌,
  ◌&&◌, not, zero, suc, All, inl, inr,
}
use registrator.Common.Int.{pos, leb_ℤ}
use registrator.Bridge.Types.{Config}
use registrator.Program.Address.{is_ipv4}
use registrator.Program.Lookup.{ip_from_external_source}
use registrator.Bridge.Sync.Spawned.{IsSingle}
use registrator.Bridge.Sync.{
  add_call, remove_call, remove_on_exit_call, refresh_call, prune_call, sync_call, Call,
}
use registrator.Program.Events.{handle_event, push, resync_process, Resync, exits, resynced}
use registrator.Program.Settings.{Flags, IsAddressOrNone}
use registrator.Program.Loop.{take_call}

-- A call that may wait: a synchronisation has no address or one of four octets, and the calls of the
-- refresh's timers wait only if there is an interval.
abbrev pub Fits : Flags → Call → Type 0
Fits f (sync_call message) = IsAddressOrNone message.ip
Fits f refresh_call = leb_ℤ f.refresh_interval (pos 0) ≡ false
Fits f prune_call = leb_ℤ f.refresh_interval (pos 0) ≡ false
Fits f _ = Unit

pub single-Fits : (f : Flags) (calls : List Call) → All IsSingle calls → All (Fits f) calls
single-Fits f [] h = tt
single-Fits f (add_call id ip ∷ calls) (h, hs) = (tt, single-Fits f calls hs)
single-Fits f (remove_call id ∷ calls) (h, hs) = (tt, single-Fits f calls hs)
single-Fits f (remove_on_exit_call id ∷ calls) (h, hs) = (tt, single-Fits f calls hs)
single-Fits f (refresh_call ∷ calls) (h, hs) = absurd h
single-Fits f (prune_call ∷ calls) (h, hs) = absurd h
single-Fits f (sync_call message ∷ calls) (h, hs) = absurd h

pub handle_event-Fits :
    (f : Flags) (ip status id : String) → All (Fits f) (handle_event ip status id)
unfolding handle_event
handle_event-Fits f ip status id = either (status == "start") (status == "die")
  where
    either :
        (a b : Bool)
        → All
            (Fits f)
            (if a then add_call id ip ∷ [] else if b then remove_on_exit_call id ∷ [] else [])
    either true b = (tt, tt)
    either false true = (tt, tt)
    either false false = tt

-- What a resynchronisation asks for.
abbrev pub FitsResync : Flags → Resync → Type 0
FitsResync f exits = Unit
FitsResync f (resynced ip calls) = All (Fits f) calls

pub resync_process-Fits :
    (f : Flags) (answer : ℕ → Option String) (retries : ℕ) (config : Config) (source old : String)
    → FitsResync f (resync_process answer retries config source old)
unfolding resync_process
resync_process-Fits f answer retries config source old =
    cases (source == "") config.exit_on_ip_lookup_failure (ip_from_external_source answer retries).1
      (ip_from_external_source answer retries).0
      (is_ipv4 (ip_from_external_source answer retries).0) refl
  where
    cases :
        (no_source fails success : Bool) (ip : String) (valid : Bool)
        → is_ipv4 ip ≡ valid
        → FitsResync f (
            if no_source
            then resynced old (sync_call (record { quiet = true; ip = "" }) ∷ [])
            else if not success && fails
            then exits
            else if success
            then if valid then push true ip else resynced ip []
            else resynced old [])
    cases true fails success ip valid e = (inl refl, tt)
    cases false true false ip valid e = tt
    cases false false false ip valid e = tt
    cases false true true ip true e = (inr e, tt)
    cases false true true ip false e = tt
    cases false false true ip true e = (inr e, tt)
    cases false false true ip false e = tt

-- The calls that are left when one is taken.
abbrev pub FitsTaken : Flags → Option (Call × List Call) → Type 0
FitsTaken f none = Unit
FitsTaken f (some (c, rest)) = All (Fits f) rest

pub take_call-Fits :
    (f : Flags) (n : ℕ) (calls : List Call) → All (Fits f) calls → FitsTaken f (take_call n calls)
unfolding take_call
take_call-Fits f n [] h = tt
take_call-Fits f zero (c ∷ calls) (h, hs) = hs
take_call-Fits f (suc n) (c ∷ calls) (h, hs) =
    behind (take_call n calls) (take_call-Fits f n calls hs)
  where
    behind :
        (o : Option (Call × List Call))
        → FitsTaken f o
        → FitsTaken f (elim o as (λ x. Option (Call × List Call)) [
          | none ↦ none
          | some (d, rest) ↦ some (d, c ∷ rest)
        ])
    behind none k = tt
    behind (some (d, rest)) k = (h, k)
