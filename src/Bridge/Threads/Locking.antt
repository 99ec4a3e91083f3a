-- ===== src/Bridge/Threads/Locking.antt =====
-- The lock of a Bridge under every interleaving of its calls, bridge/bridge.go and
-- bridge/servicesync.go.
use registrator.Common.{
  ◌≡◌, ◌≢◌, ◌∙◌, ◌⊎◌, inl, inr, refl, sym, ap, String, Bool, true, false, none, some, Option, List,
  [], ◌∷◌, ◌++◌, Bool-cases,
}
use mathlib.Core.Path.{subst}
use registrator.Bridge.Types.{Container, ServicePort}
use registrator.Bridge.Env.{Env, Inspected, found, no_such_container, inspect_error}
use registrator.Bridge.World.{Registry, World, ok, blocked}
use registrator.Bridge.Create.{Created, created, declined, panicked, new_service}
use registrator.Bridge.Tracking.{delete_dead_container, append_service}
use registrator.Bridge.Remove.{remove, prune_dead_containers}
use registrator.Bridge.Sync.{synchronise}
use registrator.Bridge.Ensures.{Ensures, Ensures-ok}
use registrator.Bridge.Threads.{
  Thread, reviving, checking, inspecting, registering, appending, deciding, removing, copying,
  refreshing, pruning, synchronising, with_wanted, inspect_ports, register_next, next, System, Step,
  begin, move, Steps, done, before_last,
}

-- The next step of the thread is a section under the lock.
unfoldable pub takes_lock : Thread → Bool
takes_lock (reviving id ip) = true
takes_lock (checking id ip) = true
takes_lock (inspecting id ip) = false
takes_lock (registering c g ps) = false
takes_lock (appending s c g ps) = true
takes_lock (deciding id) = false
takes_lock (removing id d) = true
takes_lock copying = true
takes_lock (refreshing ss) = false
takes_lock pruning = true
takes_lock (synchronising m) = true

-- The maps and the lock are as they were.
pub record IsFrozen {S : Type 0} (w w' : World S) : Type 0 where
  pub lock_kept : w'.locked ≡ w.locked
  services_kept : w'.services ≡ w.services
  dead_kept : w'.dead_containers ≡ w.dead_containers

abbrev same_maps : {S : Type 0} {w : World S} → IsFrozen w w
same_maps = record { lock_kept = refl; services_kept = refl; dead_kept = refl }

module _ (R : Registry) (env : Env) where
  abbrev Freezes : World R.State → World R.State × List Thread → Type 0
  Freezes w x = IsFrozen w x.0

  with_wanted-IsFrozen :
      (c : Container) (w : World R.State) (ports : Option (List ServicePort))
      → Ensures (with_wanted c w ports) (Freezes w)
  with_wanted-IsFrozen c w none = tt
  with_wanted-IsFrozen c w (some ports) = same_maps

  inspect_ports-IsFrozen :
      (ip : String) (w : World R.State) (x : Inspected)
      → Ensures (inspect_ports env ip w x) (Freezes w)
  unfolding inspect_ports
  inspect_ports-IsFrozen ip w (found c) = with_wanted-IsFrozen c w _
  inspect_ports-IsFrozen ip w no_such_container = same_maps
  inspect_ports-IsFrozen ip w inspect_error = same_maps

  register_next-IsFrozen :
      (c : Container) (g : Bool) (ps : List ServicePort) (w : World R.State) (x : Created)
      → Ensures (register_next R env c g ps w x) (Freezes w)
  unfolding register_next
  register_next-IsFrozen c g ps w panicked = tt
  register_next-IsFrozen c g ps w declined = same_maps
  register_next-IsFrozen c g ps w (created s) = record {
    lock_kept = refl;
    services_kept = refl;
    dead_kept = refl;
  }

  -- What a thread does without the lock leaves the maps alone.
  pub next-IsFrozen :
      (t : Thread) (w : World R.State) → takes_lock t ≡ false → Ensures (next R env t w) (Freezes w)
  unfolding next takes_lock
  next-IsFrozen (inspecting id ip) w e = inspect_ports-IsFrozen ip w (env.inspect id)
  next-IsFrozen (registering c g []) w e = same_maps
  next-IsFrozen (registering c g (p ∷ ps)) w e =
      register_next-IsFrozen c g ps w (new_service env w.config c p g)
  next-IsFrozen (deciding id) w e = same_maps
  next-IsFrozen (refreshing []) w e = same_maps
  next-IsFrozen (refreshing (s ∷ ss)) w e = record {
    lock_kept = refl;
    services_kept = refl;
    dead_kept = refl;
  }
  next-IsFrozen (reviving id ip) w e = cc
  next-IsFrozen (checking id ip) w e = cc
  next-IsFrozen (appending s c g ps) w e = cc
  next-IsFrozen (removing id d) w e = cc
  next-IsFrozen copying w e = cc
  next-IsFrozen pruning w e = cc
  next-IsFrozen (synchronising m) w e = cc

  -- A section under the lock does not begin while the lock is held.
  next-blocked :
      (t : Thread) (w : World R.State)
      → w.locked ≡ true
      → takes_lock t ≡ true
      → next R env t w ≡ blocked
  unfolding next takes_lock delete_dead_container append_service remove prune_dead_containers
      synchronise
  next-blocked (reviving id ip) w h e = rw h
  next-blocked (checking id ip) w h e = rw h
  next-blocked (appending s c g ps) w h e = rw h
  next-blocked (removing id d) w h e = rw h
  next-blocked copying w h e = rw h
  next-blocked pruning w h e = rw h
  next-blocked (synchronising m) w h e = rw h
  next-blocked (inspecting id ip) w h e = cc
  next-blocked (registering c g []) w h e = cc
  next-blocked (registering c g (p ∷ ps)) w h e = cc
  next-blocked (deciding id) w h e = cc
  next-blocked (refreshing []) w h e = cc
  next-blocked (refreshing (s ∷ ss)) w h e = cc

-- The thread is among these.
unfoldable pub Has : Thread → List Thread → Type 0
Has t [] = ⊥
Has t (x ∷ xs) = (x ≡ t) ⊎ Has t xs

Has-append : (t : Thread) (xs ys : List Thread) → Has t ys → Has t (xs ++ ys)
unfolding Has
Has-append t [] ys h = h
Has-append t (x ∷ xs) ys h = inr (Has-append t xs ys h)

-- A thread stays where another one goes on.
Has-step :
    (t x : Thread) (before after ts : List Thread)
    → Has t (before ++ x ∷ after)
    → (x ≡ t) ⊎ Has t (before ++ ts ++ after)
unfolding Has
Has-step t x [] after ts (inl e) = inl e
Has-step t x [] after ts (inr h) = inr (Has-append t ts after h)
Has-step t x (b ∷ bs) after ts (inl e) = inr (inl e)
Has-step t x (b ∷ bs) after ts (inr h) = elim (Has-step t x bs after ts h) [
  | inl e ↦ inl e
  | inr h' ↦ inr (inr h')
]

true-false : true ≢ false
true-false e = cc

blocked-ok : {A : Type 0} {a : A} → blocked ≢ ok a
blocked-ok e = cc

trans_frozen : {S : Type 0} {u v w : World S} → IsFrozen u v → IsFrozen v w → IsFrozen u w
trans_frozen f g = record {
  lock_kept = g.lock_kept ∙ f.lock_kept;
  services_kept = g.services_kept ∙ f.services_kept;
  dead_kept = g.dead_kept ∙ f.dead_kept;
}

module _ (R : Registry) (Possible : Env → Type 0) where
  -- With the lock held, a step is one of a thread that does not take it.
  step_unlocked :
      (env : Env) (t : Thread) (w w' : World R.State) (ts : List Thread)
      → w.locked ≡ true
      → next R env t w ≡ ok (w', ts)
      → takes_lock t ≡ false
  step_unlocked env t w w' ts h e = elim (Bool-cases (takes_lock t)) [
    | inl l ↦ absurd (blocked-ok (sym (next-blocked R env t w h l) ∙ e))
    | inr l ↦ l
  ]

  Step-IsFrozen :
      {s u : System R.State}
      → Step R Possible s u
      → s.world.locked ≡ true
      → IsFrozen s.world u.world
  Step-IsFrozen (begin c) h = same_maps
  Step-IsFrozen {s} (move env before t after ts w possible place e) h =
      Ensures-ok (next R env t s.world) (Freezes R env s.world) e
        (next-IsFrozen R env t s.world (step_unlocked env t s.world w ts h e))

  Step-waits :
      {s u : System R.State}
      → Step R Possible s u
      → s.world.locked ≡ true
      → (t : Thread) → takes_lock t ≡ true
      → Has t s.threads
      → Has t u.threads
  unfolding Has
  Step-waits (begin c) h t l p = inr p
  Step-waits {s} (move env before x after ts w possible place e) h t l p =
      elim (Has-step t x before after ts (subst (Has t) place p)) [
        | inl same ↦
            let l' = step_unlocked env x s.world w ts h e in
            absurd (true-false (sym l ∙ ap takes_lock (sym same) ∙ l'))
        | inr p' ↦ p'
      ]

  -- While no thread runs a section, if the lock is held: whatever calls begin and whatever threads
  -- go on, in any order, the lock is held for ever, the services that are tracked and those that are
  -- set aside stay the same, and each thread that is about to take the lock still waits.
  pub Steps-locked :
      {s u : System R.State}
      → Steps R Possible s u
      → s.world.locked ≡ true
      → IsFrozen s.world u.world
        × ((t : Thread) → takes_lock t ≡ true → Has t s.threads → Has t u.threads)
  Steps-locked done h = (same_maps, λ t l p. p)
  Steps-locked (before_last steps step) h =
      let (f, waits) = Steps-locked steps h in
      let h' = f.lock_kept ∙ h in
      (trans_frozen f (Step-IsFrozen step h'), λ t l p. Step-waits step h' t l (waits t l p))
