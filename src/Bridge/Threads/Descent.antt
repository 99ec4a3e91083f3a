-- ===== src/Bridge/Threads/Descent.antt =====
-- How the threads of bridge/bridge.go and bridge/servicesync.go get nearer to their ends.
use mathlib.Core.WellFounded.{Acc}
use registrator.Common.{
  ℕ, zero, suc, ◌+◌, ◌*◌, ◌<◌, ◌≡◌, ◌⊎◌, inl, inr, refl, String, Bool, none, some, Option, List, [],
  ◌∷◌, Bool-cases, length, All, map, arith,
}
use registrator.Bridge.Types.{Container, ServicePort, SyncMessage}
use registrator.Bridge.Env.{Env, Inspected, found, no_such_container, inspect_error}
use registrator.Bridge.World.{Registry, World, Outcome, ok, ◌>>=◌, lock}
use registrator.Bridge.Create.{Created, created, declined, panicked}
use registrator.Bridge.Tracking.{is_nil, services_of}
use registrator.Bridge.Ensures.{Ensures, Ensures-any, Ensures-bind, Ensures-ok}
use registrator.Bridge.Sync.{
  Call, add_call, remove_call, remove_on_exit_call, refresh_call, prune_call, sync_call, step,
  synchronise,
}
use registrator.Bridge.Sync.Spawned.{IsSingle, step-IsSingle}
use registrator.Bridge.Threads.{
  Thread, reviving, checking, inspecting, registering, appending, deciding, removing, copying,
  refreshing, pruning, synchronising, spawn, leaving, checked, with_wanted, inspect_ports,
  with_calls, after_register, register_next, next,
}

-- How far a thread is from its end: its stage, and what is left of a loop.
unfoldable pub stage : Thread → ℕ
stage (reviving id ip) = 5
stage (checking id ip) = 4
stage (inspecting id ip) = 3
stage (registering c g ps) = 2
stage (appending s c g ps) = 2
stage (deciding id) = 1
stage (removing id d) = 0
stage copying = 1
stage (refreshing ss) = 0
stage pruning = 0
stage (synchronising m) = 6

unfoldable pub left : Thread → ℕ
left (registering c g ps) = 2 * length ps
left (appending s c g ps) = 2 * length ps + 1
left (refreshing ss) = length ss
left _ = 0

-- The first thread is nearer to its end.
abbrev pub IsNearer : Thread → Thread → Type 0
IsNearer t u = (stage t < stage u) ⊎ ((stage t ≡ stage u) × (left t < left u))

Acc-within : (r n : ℕ) (t : Thread) → stage t < r → left t < n → Acc IsNearer t
Acc-within zero n t h k = absurd (omega arith)
Acc-within (suc r) zero t h k = absurd (omega arith)
Acc-within (suc r) (suc n) t h k = Acc.intro t λ u nearer. elim nearer [
  | inl sooner ↦ Acc-within r (suc (left u)) u (omega arith) (omega arith)
  | inr (same, less) ↦ Acc-within (suc r) n u (omega arith) (omega arith)
]

-- There is no endless descent.
IsNearer-Acc : (t : Thread) → Acc IsNearer t
IsNearer-Acc t = Acc-within (suc (stage t)) (suc (left t)) t (omega arith) (omega arith)

module _ {S : Type 0} where
  -- The threads that a step leaves are nearer to their ends than the one that made it.
  abbrev Descends : Thread → World S × List Thread → Type 0
  Descends t (w, ts) = All (λ u. IsNearer u t) ts

  leaving-Descends :
      (t u : Thread) (m : Outcome (World S))
      → IsNearer u t
      → Ensures (m >>= leaving (u ∷ [])) (Descends t)
  leaving-Descends t u m h =
      Ensures-bind m (leaving (u ∷ [])) (λ w. Unit) (Descends t) (Ensures-any m) (λ w x. (h, tt))

  ending-Descends : (t : Thread) (m : Outcome (World S)) → Ensures (m >>= leaving []) (Descends t)
  ending-Descends t m =
      Ensures-bind m (leaving []) (λ w. Unit) (Descends t) (Ensures-any m) (λ w x. tt)

  checked-Descends :
      (id ip : String) (w : World S) → Ensures (checked id ip w) (Descends (checking id ip))
  unfolding stage
  checked-Descends id ip w = elim (Bool-cases (is_nil (services_of id w))) [
    | inl e ↦ rw e (inl (omega arith), tt)
    | inr e ↦ rw e tt
  ]

  with_wanted-Descends :
      (id ip : String) (c : Container) (w : World S) (ports : Option (List ServicePort))
      → Ensures (with_wanted c w ports) (Descends (inspecting id ip))
  unfolding stage
  with_wanted-Descends id ip c w none = tt
  with_wanted-Descends id ip c w (some ports) = (inl (omega arith), tt)

spawn-Nearer :
    (m : SyncMessage) (calls : List Call)
    → All IsSingle calls
    → All (λ u. IsNearer u (synchronising m)) (map spawn calls)
unfolding spawn stage
spawn-Nearer m [] h = tt
spawn-Nearer m (add_call id ip ∷ calls) (s, h) = (inl (omega arith), spawn-Nearer m calls h)
spawn-Nearer m (remove_call id ∷ calls) (s, h) = (inl (omega arith), spawn-Nearer m calls h)
spawn-Nearer m (remove_on_exit_call id ∷ calls) (s, h) = (inl (omega arith), spawn-Nearer m calls h)
spawn-Nearer m (refresh_call ∷ calls) (s, h) = absurd s
spawn-Nearer m (prune_call ∷ calls) (s, h) = absurd s
spawn-Nearer m (sync_call m' ∷ calls) (s, h) = absurd s

module _ (R : Registry) (env : Env) where
  inspect_ports-Descends :
      (id ip : String) (w : World R.State) (x : Inspected)
      → Ensures (inspect_ports env ip w x) (Descends (inspecting id ip))
  unfolding inspect_ports
  inspect_ports-Descends id ip w (found c) = with_wanted-Descends id ip c w _
  inspect_ports-Descends id ip w no_such_container = tt
  inspect_ports-Descends id ip w inspect_error = tt

  register_next-Descends :
      (c : Container) (g : Bool) (p : ServicePort) (ps : List ServicePort) (w : World R.State)
      (x : Created)
      → Ensures (register_next R env c g ps w x) (Descends (registering c g (p ∷ ps)))
  unfolding register_next stage left
  register_next-Descends c g p ps w panicked = tt
  register_next-Descends c g p ps w declined = (inr (refl, omega arith), tt)
  register_next-Descends c g p ps w (created s) = elim (Bool-cases (R.register s w.registry).1) [
    | inl e ↦ rw (e, after_register) (inr (refl, omega arith), tt)
    | inr e ↦ rw (e, after_register) (inr (refl, omega arith), tt)
  ]

  synchronise-Descends :
      (m : SyncMessage) (w : World R.State)
      → Ensures (synchronise R env m w >>= with_calls) (Descends (synchronising m))
  unfolding step
  synchronise-Descends m w =
      Ensures-bind (synchronise R env m w) with_calls (λ x. All IsSingle x.1)
        (Descends (synchronising m)) (step-IsSingle R env (sync_call m) w)
        (λ x h. spawn-Nearer m x.1 h)

  next-Descends : (t : Thread) (w : World R.State) → Ensures (next R env t w) (Descends t)
  unfolding next stage left
  next-Descends (reviving id ip) w =
      leaving-Descends (reviving id ip) (checking id ip) _ (inl (omega arith))
  next-Descends (checking id ip) w =
      Ensures-bind (lock w) _ (λ w'. Unit) (Descends (checking id ip)) (Ensures-any (lock w))
        (λ w' x. checked-Descends id ip w')
  next-Descends (inspecting id ip) w = inspect_ports-Descends id ip w (env.inspect id)
  next-Descends (registering c g []) w = tt
  next-Descends (registering c g (p ∷ ps)) w = register_next-Descends c g p ps w _
  next-Descends (appending s c g ps) w =
      leaving-Descends (appending s c g ps) (registering c g ps) _ (inr (refl, omega arith))
  next-Descends (deciding id) w = (inl (omega arith), tt)
  next-Descends (removing id d) w = ending-Descends (removing id d) _
  next-Descends copying w =
      Ensures-bind (lock w) _ (λ w'. Unit) (Descends copying) (Ensures-any (lock w))
        (λ w' x. (inl (omega arith), tt))
  next-Descends (refreshing []) w = tt
  next-Descends (refreshing (s ∷ ss)) w = (inr (refl, omega arith), tt)
  next-Descends pruning w = ending-Descends pruning _
  next-Descends (synchronising m) w = synchronise-Descends m w

  -- What a step of a thread leaves, if it has a result, the thread as it goes on and those that it
  -- starts, is nearer to its end in an order in which there is no endless descent from the thread. So
  -- no thread makes steps for ever; a thread that waits for the lock makes none.
  pub next_descends :
      (t : Thread) (w w' : World R.State) (ts : List Thread)
      → next R env t w ≡ ok (w', ts)
      → Acc IsNearer t × All (λ u. IsNearer u t) ts
  next_descends t w w' ts e =
      (IsNearer-Acc t, Ensures-ok (next R env t w) (Descends t) e (next-Descends t w))
