-- ===== src/Bridge/Threads/Release.antt =====
-- Which section of bridge/bridge.go and bridge/servicesync.go ends without its Unlock.
use registrator.Common.{
  ◌≡◌, ◌≢◌, ◌∙◌, ◌↔◌, ◌⊎◌, inl, inr, refl, sym, String, true, false, List, [], ◌∷◌, Bool-cases,
}
use registrator.Bridge.Types.{SyncMessage}
use registrator.Bridge.Env.{Env}
use registrator.Bridge.World.{Registry, World, Outcome, ok, ◌>>=◌, lock, unlock}
use registrator.Bridge.Tracking.{
  is_nil, services_of, revive, delete_dead_container, append_once, append_service,
}
use registrator.Bridge.Remove.{remove_body, remove, prune_dead, prune_dead_containers}
use registrator.Bridge.Sync.{Call, synchronise, service_sync}
use registrator.Bridge.Ensures.{Ensures, Ensures-any, Ensures-bind, Ensures-ok, Ensures-mono}
use registrator.Bridge.Threads.{
  Thread, reviving, checking, inspecting, registering, appending, deciding, removing, copying,
  refreshing, pruning, synchronising, leaving, checked, with_calls, next,
}
use registrator.Bridge.Threads.Locking.{takes_lock, IsFrozen, next-IsFrozen}

-- `add` at its check, of a container that has services.
unfoldable pub IsEarlyReturn : {S : Type 0} → Thread → World S → Type 0
IsEarlyReturn (checking id ip) w = is_nil (services_of id w) ≡ false
IsEarlyReturn _ w = ⊥

false-true : false ≢ true
false-true e = cc

module _ {S : Type 0} where
  -- The lock is free behind the step, or held as it is an early return.
  abbrev Releases : Thread → World S → World S × List Thread → Type 0
  Releases t w x = (x.0.locked ≡ false) ⊎ ((x.0.locked ≡ true) × IsEarlyReturn t w)

  abbrev Free : World S → Type 0
  Free w = w.locked ≡ false

  -- A section that begins with Lock and ends with Unlock.
  section_frees :
      (w : World S) (f : World S → World S) → Ensures (lock w >>= λ w. ok (unlock (f w))) Free
  section_frees w f = elim (Bool-cases w.locked) [
    | inl e ↦ rw (e, lock) tt
    | inr e ↦ rw (e, lock) refl
  ]

  left_free :
      (t : Thread) (w : World S) (ts : List Thread) (m : Outcome (World S))
      → Ensures m Free
      → Ensures (m >>= leaving ts) (Releases t w)
  left_free t w ts m h = Ensures-bind m (leaving ts) Free (Releases t w) h (λ w' e. inl e)

  checked-Releases :
      (id ip : String) (w : World S)
      → Ensures (lock w >>= checked id ip) (Releases (checking id ip) w)
  unfolding IsEarlyReturn
  checked-Releases id ip w = elim (Bool-cases w.locked) [
    | inl e ↦ rw (e, lock) tt
    | inr e ↦ elim (Bool-cases (is_nil (services_of id w))) [
      | inl h ↦ rw (e, h, lock) (inl refl)
      | inr h ↦ rw (e, h, lock) (inr (refl, h))
    ]
  ]

module _ (R : Registry) (env : Env) where
  synchronise-Releases :
      (m : SyncMessage) (w : World R.State)
      → Ensures (synchronise R env m w >>= with_calls) (Releases (synchronising m) w)
  unfolding synchronise
  synchronise-Releases m w =
      let Free : World R.State × List Call → Type 0 = λ x. x.0.locked ≡ false in
      Ensures-bind (synchronise R env m w) with_calls Free (Releases (synchronising m) w)
        (Ensures-bind (lock w) _ (λ x. Unit) Free (Ensures-any (lock w))
          (λ w' h.
            Ensures-bind (service_sync R env m w') _ (λ x. Unit) Free (Ensures-any _)
              (λ x h'. refl)))
        (λ x e. inl e)

  unlocked-Releases :
      (t : Thread) (w : World R.State)
      → w.locked ≡ false
      → takes_lock t ≡ false
      → Ensures (next R env t w) (Releases t w)
  unlocked-Releases t w h l =
      Ensures-mono (next R env t w) (λ x. IsFrozen w x.0) (Releases t w) (next-IsFrozen R env t w l)
        (λ x f. inl (f.lock_kept ∙ h))

  next-Releases :
      (t : Thread) (w : World R.State) → w.locked ≡ false → Ensures (next R env t w) (Releases t w)
  unfolding next takes_lock delete_dead_container append_service remove prune_dead_containers
  next-Releases (reviving id ip) w h = left_free _ w _ _ (section_frees w (revive id))
  next-Releases (checking id ip) w h = checked-Releases id ip w
  next-Releases (inspecting id ip) w h = unlocked-Releases (inspecting id ip) w h refl
  next-Releases (registering c g ps) w h = unlocked-Releases (registering c g ps) w h refl
  next-Releases (appending s c g ps) w h = left_free _ w _ _ (section_frees w (append_once c.id s))
  next-Releases (deciding id) w h = unlocked-Releases (deciding id) w h refl
  next-Releases (removing id d) w h = left_free _ w _ _ (section_frees w (remove_body R env id d))
  next-Releases copying w h =
      Ensures-bind (lock w) _ (λ x. Unit) (Releases copying w) (Ensures-any (lock w))
        (λ w' u. inl refl)
  next-Releases (refreshing ss) w h = unlocked-Releases (refreshing ss) w h refl
  next-Releases pruning w h = left_free _ w _ _ (
      section_frees w (λ w. record w {
        dead_containers = prune_dead w.config.refresh_interval w.dead_containers;
      }))
  next-Releases (synchronising m) w h = synchronise-Releases m w

  early_locked :
      (t : Thread) (w w' : World R.State) (ts : List Thread)
      → w.locked ≡ false
      → next R env t w ≡ ok (w', ts)
      → IsEarlyReturn t w
      → w'.locked ≡ true
  unfolding next IsEarlyReturn
  early_locked (checking id ip) w w' ts h e tracked =
      Ensures-ok (lock w >>= checked id ip) (λ x. x.0.locked ≡ true) e (rw (h, tracked, lock) refl)
  early_locked (reviving id ip) w w' ts h e x = absurd x
  early_locked (inspecting id ip) w w' ts h e x = absurd x
  early_locked (registering c g []) w w' ts h e x = absurd x
  early_locked (registering c g (p ∷ ps)) w w' ts h e x = absurd x
  early_locked (appending s c g ps) w w' ts h e x = absurd x
  early_locked (deciding id) w w' ts h e x = absurd x
  early_locked (removing id d) w w' ts h e x = absurd x
  early_locked copying w w' ts h e x = absurd x
  early_locked (refreshing []) w w' ts h e x = absurd x
  early_locked (refreshing (s ∷ ss)) w w' ts h e x = absurd x
  early_locked pruning w w' ts h e x = absurd x
  early_locked (synchronising m) w w' ts h e x = absurd x

  -- From a free lock, a step that a thread makes leaves the lock held exactly if it is the check
  -- of `add` and the container has services: no other section of a method ends without its Unlock.
  pub next_locks_iff :
      (t : Thread) (w w' : World R.State) (ts : List Thread)
      → w.locked ≡ false
      → next R env t w ≡ ok (w', ts)
      → (w'.locked ≡ true) ↔ IsEarlyReturn t w
  next_locks_iff t w w' ts h e = (
    λ l. elim (Ensures-ok (next R env t w) (Releases t w) e (next-Releases t w h)) [
      | inl free ↦ absurd (false-true (sym free ∙ l))
      | inr (_, early) ↦ early
    ],
    early_locked t w w' ts h e,
  )
