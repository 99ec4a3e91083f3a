-- ===== src/Aws/Health/Laws.antt =====
-- When a load balancer is registered as UP, aws/healthchecks.go.
use registrator.Common.{
  ◌≡◌, ◌≢◌, ◌⊎◌, inl, inr, refl, sym, ◌∙◌, arith, String, ◌<>◌, Option, none, some, List, [], ◌∷◌,
  eq-cases, eq_self, apart, All,
}
use registrator.Common.Map.{get_or, get_or-put}
use registrator.Aws.Cache.{Cache}
use registrator.Aws.Api.{
  TargetHealth, LoadBalancerInfo, Cached, load_balancer, healthy_targets, target_health,
  target_groups, listeners, load_balancers,
}
use registrator.Aws.Health.Targets.{HasHealthyIn, found_healthy, healthy_found}
use registrator.Aws.Health.{
  up, starting, unknown, StatusChange, change_of, get_healthy_targets, change_by,
  determine_new_eureka_status, HealthState, elb_status, test_health,
}

same_group : (a b : LoadBalancerInfo) → some (load_balancer a) ≡ some (load_balancer b) → a ≡ b
same_group a b e = ground arith

module _ (C : Cache Cached) (describe : String → Option (List TargetHealth)) where
  -- The status that was kept for the container.
  abbrev pub last_of : String → HealthState C → String
  last_of id h = get_or "" id h.previous

  -- The cache names a target group for the container, and getHealthyTargets finds a target of it.
  abbrev FindsTarget : String → C.State → Type 0
  FindsTarget id s =
      (info : LoadBalancerInfo) × (t : TargetHealth) × (ts : List TargetHealth) × (C.get
          ("container_" <> id) s
        ≡ some (load_balancer info))
      × ((get_healthy_targets C describe info.target_group_arn s).0 ≡ some (t ∷ ts))

  -- A status is decided: up for one of the three reasons, or starting.
  abbrev IsDecided : String → String → String → C.State → StatusChange → Type 0
  IsDecided id eureka last s change =
      ((change.registration_status ≡ up)
        × (change.new_status ≡ up)
        × ((eureka ≡ up) ⊎ ((last ≡ up) ⊎ FindsTarget id s)))
      ⊎ ((change.registration_status ≡ starting)
          × (change.new_status ≢ up)
          × (eureka ≢ up)
          × (last ≢ up)
          × ¬ FindsTarget id s)

  none_healthy :
      (id : String) (info : LoadBalancerInfo) (s : C.State) (o : Option (List TargetHealth))
      → C.get ("container_" <> id) s ≡ some (load_balancer info)
      → (get_healthy_targets C describe info.target_group_arn s).0 ≡ o
      → ((t : TargetHealth) (ts : List TargetHealth) → o ≢ some (t ∷ ts))
      → ¬ FindsTarget id s
  none_healthy id info s o e h n (info', t, ts, e', h') =
      let same = same_group info info' (sym e ∙ e') in n t ts (sym h ∙ rw same h')

  no_balancer :
      (id : String) (s : C.State) (o : Option Cached)
      → C.get ("container_" <> id) s ≡ o
      → ((info : LoadBalancerInfo) → o ≢ some (load_balancer info))
      → ¬ FindsTarget id s
  no_balancer id s o e n (info, t, ts, e', h) = n info (sym e ∙ e')

  change_of_targets :
      (id eureka last : String) (info : LoadBalancerInfo) (s : C.State)
      (o : Option (List TargetHealth))
      → C.get ("container_" <> id) s ≡ some (load_balancer info)
      → (get_healthy_targets C describe info.target_group_arn s).0 ≡ o
      → eureka ≢ up
      → last ≢ up
      → IsDecided id eureka last s (change_of o)
  change_of_targets id eureka last info s none e o n m =
      inr (refl, apart unknown up refl, n, m, none_healthy id info s none e o (λ t ts h. cc))
  change_of_targets id eureka last info s (some []) e o n m =
      inr (refl, apart starting up refl, n, m, none_healthy id info s (some []) e o (λ t ts h. cc))
  change_of_targets id eureka last info s (some (t ∷ ts)) e o n m =
      inl (refl, refl, inr (inr (info, t, ts, e, o)))

  change_by-IsDecided :
      (id eureka last : String) (s : C.State) (o : Option Cached)
      → C.get ("container_" <> id) s ≡ o
      → eureka ≢ up
      → last ≢ up
      → IsDecided id eureka last s (change_by C describe o s).0
  change_by-IsDecided id eureka last s (some (load_balancer info)) e n m =
      change_of_targets id eureka last info s
        (get_healthy_targets C describe info.target_group_arn s).0 e refl n m
  change_by-IsDecided id eureka last s none e n m =
      inr (refl, apart unknown up refl, n, m, no_balancer id s _ e (λ a h. cc))
  change_by-IsDecided id eureka last s (some (healthy_targets ts)) e n m =
      inr (refl, apart unknown up refl, n, m, no_balancer id s _ e (λ a h. cc))
  change_by-IsDecided id eureka last s (some (target_health ts)) e n m =
      inr (refl, apart unknown up refl, n, m, no_balancer id s _ e (λ a h. cc))
  change_by-IsDecided id eureka last s (some (target_groups ts)) e n m =
      inr (refl, apart unknown up refl, n, m, no_balancer id s _ e (λ a h. cc))
  change_by-IsDecided id eureka last s (some (listeners ts)) e n m =
      inr (refl, apart unknown up refl, n, m, no_balancer id s _ e (λ a h. cc))
  change_by-IsDecided id eureka last s (some (load_balancers ts)) e n m =
      inr (refl, apart unknown up refl, n, m, no_balancer id s _ e (λ a h. cc))

  determine-IsDecided :
      (id eureka last : String) (s : C.State)
      → IsDecided id eureka last s (determine_new_eureka_status C describe id eureka last s).0
  unfolding determine_new_eureka_status
  determine-IsDecided id eureka last s = elim (eq-cases eureka up) [
    | inl (e, t) ↦ rw (t, determine_new_eureka_status) (inl (refl, refl, inl e))
    | inr (n, t) ↦ elim (eq-cases last up) [
      | inl (e, t') ↦ rw (t, t', determine_new_eureka_status) (inl (refl, refl, inr (inl e)))
      | inr (m, t') ↦
          rw (t, t', determine_new_eureka_status)
            (change_by-IsDecided id eureka last s (C.get ("container_" <> id) s) refl n m)
    ]
  ]

  -- The cache names a target group for the container; and under the group's key, the cache has
  -- healthy targets, one at least, or it has nothing and AWS answers with a target that is healthy.
  abbrev HasHealthyTarget : String → C.State → Type 0
  HasHealthyTarget id s =
      (info : LoadBalancerInfo) × (C.get ("container_" <> id) s ≡ some (load_balancer info))
      × HasHealthyIn C describe info.target_group_arn s

  -- A status is decided: up for one of the three reasons, or starting.
  abbrev pub IsJustified : String → String → String → C.State → StatusChange → Type 0
  IsJustified id eureka last s change =
      ((change.registration_status ≡ up)
        × (change.new_status ≡ up)
        × ((eureka ≡ up) ⊎ ((last ≡ up) ⊎ HasHealthyTarget id s)))
      ⊎ ((change.registration_status ≡ starting)
          × (change.new_status ≢ up)
          × (eureka ≢ up)
          × (last ≢ up)
          × ¬ HasHealthyTarget id s)

  decided-IsJustified :
      (id eureka last : String) (s : C.State) (change : StatusChange)
      → IsDecided id eureka last s change
      → IsJustified id eureka last s change
  decided-IsJustified id eureka last s change (inl (u, k, inl e)) = inl (u, k, inl e)
  decided-IsJustified id eureka last s change (inl (u, k, inr (inl e))) = inl (u, k, inr (inl e))
  decided-IsJustified id eureka last s change (inl (u, k, inr (inr (info, t, ts, e, f)))) =
      inl (u, k, inr (inr (info, e, found_healthy C describe info.target_group_arn s t ts f)))
  decided-IsJustified id eureka last s change (inr (u, k, n, m, none_found)) = inr (
    u,
    k,
    n,
    m,
    λ (info, e, h).
        let (t, ts, f) = healthy_found C describe info.target_group_arn s h in
        none_found (info, t, ts, e, f),
  )

  -- A load balancer is registered as UP exactly for one of three reasons: eureka has it as UP, it
  -- was kept as UP for the container, or the target group that the cache names for the container
  -- has a healthy target: under the group's own key the cache has a list of healthy targets that is
  -- not empty, or it has nothing there and AWS answers with a target whose state is healthy. Then UP
  -- is kept. Otherwise it is registered as STARTING, and what is
  -- kept is not UP.
  pub test_health-IsJustified :
      (id : String) (answer : Option String) (h : HealthState C)
      → IsJustified id (elb_status C describe answer) (last_of id h) h.cache (record {
        registration_status = (test_health C describe id answer h).0;
        new_status = last_of id (test_health C describe id answer h).1;
      })
  unfolding test_health
  test_health-IsJustified id answer h =
      let change =
        (determine_new_eureka_status C describe id (elb_status C describe answer) (last_of id h)
          h.cache).0 in
      rw (get_or-put "" id id change.new_status h.previous, eq_self id)
        (decided-IsJustified id (elb_status C describe answer) (last_of id h) h.cache change
          (determine-IsDecided id (elb_status C describe answer) (last_of id h) h.cache))

  -- The statuses that are registered at one answer of eureka after the other.
  unfoldable pub statuses : String → List (Option String) → HealthState C → List String
  statuses id [] h = []
  statuses id (a ∷ rest) h =
      let (status, h') = test_health C describe id a h in status ∷ statuses id rest h'

  kept_up :
      (id : String) (answer : Option String) (h : HealthState C)
      → last_of id h ≡ up
      → ((test_health C describe id answer h).0 ≡ up)
        × (last_of id (test_health C describe id answer h).1 ≡ up)
  kept_up id answer h e = elim (test_health-IsJustified id answer h) [
    | inl (u, k, _) ↦ (u, k)
    | inr (_, _, _, m, _) ↦ absurd (m e)
  ]

  -- Once UP is kept for a container, its load balancer is registered as UP at every later test,
  -- whatever eureka answers and whichever targets are healthy.
  statuses-up :
      (id : String) (answers : List (Option String)) (h : HealthState C)
      → last_of id h ≡ up
      → All (λ s. s ≡ up) (statuses id answers h)
  unfolding statuses
  statuses-up id [] h e = tt
  statuses-up id (a ∷ rest) h e =
      let (u, k) = kept_up id a h e in (u, statuses-up id rest (test_health C describe id a h).1 k)
