-- ===== src/Aws/Health/Targets.antt =====
-- When getHealthyTargets of aws/healthchecks.go finds a target.
use registrator.Common.{
  ◌≡◌, ◌≢◌, ◌⊎◌, inl, inr, refl, ◌∙◌, ap, String, ◌<>◌, Option, none, some, List, [], ◌∷◌, eq-cases,
  Option-cases,
}
use registrator.Aws.Cache.{Cache, get_and_cache}
use registrator.Aws.Api.{
  TargetHealth, Cached, load_balancer, healthy_targets, target_health, target_groups, listeners,
  load_balancers,
}
use registrator.Aws.Health.{only_healthy, as_targets, fetch_healthy_targets, get_healthy_targets}

-- One of the targets is healthy.
abbrev pub HasHealthy : List TargetHealth → Type 0
HasHealthy [] = ⊥
HasHealthy (t ∷ ts) = (t.state ≡ "healthy") ⊎ HasHealthy ts

IsFound : List TargetHealth → Type 0
IsFound ts = (t : TargetHealth) × (us : List TargetHealth) × (ts ≡ t ∷ us)

healthy-IsFound : (ts : List TargetHealth) → HasHealthy ts → IsFound (only_healthy ts)
unfolding only_healthy IsFound
healthy-IsFound [] h = absurd h
healthy-IsFound (t ∷ ts) h = elim (eq-cases t.state "healthy") [
  | inl (e, b) ↦ rw (b, only_healthy) (t, only_healthy ts, refl)
  | inr (n, b) ↦ rw (b, only_healthy) (healthy-IsFound ts (later n h))
]
  where
    later : t.state ≢ "healthy" → HasHealthy (t ∷ ts) → HasHealthy ts
    later n (inl e) = absurd (n e)
    later n (inr h) = h

found-HasHealthy : (ts : List TargetHealth) → IsFound (only_healthy ts) → HasHealthy ts
unfolding only_healthy IsFound
found-HasHealthy [] (t, us, e) = cc
found-HasHealthy (t ∷ ts) h = elim (eq-cases t.state "healthy") [
  | inl (e, b) ↦ inl e
  | inr (n, b) ↦ inr (found-HasHealthy ts (rw (b, only_healthy) at h))
]

some_targets : (a b : List TargetHealth) → some a ≡ some b → a ≡ b
some_targets a b e = ap targets e
  where
    targets : Option (List TargetHealth) → List TargetHealth
    targets none = a
    targets (some ts) = ts

module _ (C : Cache Cached) (describe : String → Option (List TargetHealth)) (arn : String)
    (s : C.State) where
  -- Under the group's key the cache has a list of healthy targets that is not empty, or it has
  -- nothing there and AWS answers with a target that is healthy.
  abbrev pub HasHealthyIn : Type 0
  HasHealthyIn =
      ((t : TargetHealth) × (ts : List TargetHealth) × (C.get ("tg_arn_" <> arn) s
          ≡ some (healthy_targets (t ∷ ts))))
      ⊎ ((C.get ("tg_arn_" <> arn) s ≡ none)
          × (ts : List TargetHealth) × (describe arn ≡ some ts)
          × HasHealthy ts)

  cached_healthy :
      (v : Cached) (t : TargetHealth) (ts : List TargetHealth)
      → C.get ("tg_arn_" <> arn) s ≡ some v
      → as_targets v ≡ t ∷ ts
      → HasHealthyIn
  cached_healthy (healthy_targets us) t ts e h =
      inl (t, ts, e ∙ ap (λ x. some (healthy_targets x)) h)
  cached_healthy (load_balancer x) t ts e h = cc
  cached_healthy (target_health x) t ts e h = cc
  cached_healthy (target_groups x) t ts e h = cc
  cached_healthy (listeners x) t ts e h = cc
  cached_healthy (load_balancers x) t ts e h = cc

  pub found_healthy :
      (t : TargetHealth) (ts : List TargetHealth)
      → (get_healthy_targets C describe arn s).0 ≡ some (t ∷ ts)
      → HasHealthyIn
  unfolding get_healthy_targets get_and_cache fetch_healthy_targets IsFound
  found_healthy t ts h = elim (Option-cases (C.get ("tg_arn_" <> arn) s)) [
    | inl e ↦ elim (Option-cases (describe arn)) [
      | inl e' ↦
          let h' = rw (e, e', get_healthy_targets, get_and_cache, fetch_healthy_targets) at h in cc
      | inr (us, e') ↦ inr (
        e,
        us,
        e',
        found-HasHealthy us (
          t,
          ts,
          some_targets (only_healthy us) (t ∷ ts)
              (rw (e, e', get_healthy_targets, get_and_cache, fetch_healthy_targets) at h),
        ),
      )
    ]
    | inr (v, e) ↦
        cached_healthy v t ts e
          (some_targets (as_targets v) (t ∷ ts) (rw (e, get_healthy_targets, get_and_cache) at h))
  ]

  pub healthy_found :
      HasHealthyIn
      → (t : TargetHealth) × (ts : List TargetHealth) × ((get_healthy_targets C describe arn s).0
          ≡ some (t ∷ ts))
  unfolding get_healthy_targets get_and_cache fetch_healthy_targets IsFound
  healthy_found (inl (t, ts, e)) = (t, ts, rw (e, get_healthy_targets, get_and_cache) refl)
  healthy_found (inr (e, us, e', h)) =
      let (t, ts, f) = healthy-IsFound us h in
      (
        t,
        ts,
        rw (e, get_healthy_targets, get_and_cache) (rw (e', fetch_healthy_targets) (rw f refl)),
      )
