-- ===== src/Aws/Lookup/Shadowed.antt =====
-- The look-up of load balancers (aws/elb.go) and testHealth (aws/healthchecks.go) share the cache.
use registrator.Common.{
  ℕ, ◌≡◌, ◌≢◌, inl, inr, refl, String, ◌<>◌, Option, none, some, List, ◌∷◌, [], eq_of_ne, eq_self,
}
use registrator.Aws.Cache.{Cache, SetsOne, get_and_cache, get_and_cache-kept}
use registrator.Aws.Api.{
  TargetHealth, TargetGroup, AwsApi, LoadBalancerInfo, Cached, load_balancer, target_health,
}
use registrator.Aws.Lookup.{
  Looked, found, failed, crashed, unended, LookupValues, Balancer, as_health, then_look,
}
use registrator.Aws.Lookup.Run.{take_group, scan_page}
use registrator.Aws.Health.{
  up, starting, determine_new_eureka_status, get_healthy_targets, HealthState, elb_status,
  test_health,
}
use registrator.Aws.Health.Targets.{HasHealthy}
use registrator.Aws.Health.Laws.{last_of, test_health-IsJustified}

module _ (C : Cache Cached) (sets : SetsOne C) (api : AwsApi) (fuel : ℕ) (l : LookupValues) where
  then_kept :
      (j : String) (v : Cached) (x : Looked Balancer) (s : C.State)
      (f : Balancer → C.State → Looked Balancer × C.State)
      → C.get j s ≡ some v
      → ((b : Balancer) → C.get j (f b s).1 ≡ some v)
      → C.get j (then_look C (x, s) f).1 ≡ some v
  then_kept j v (found b) s f e h = h b
  then_kept j v failed s f e h = e
  then_kept j v crashed s f e h = e
  then_kept j v unended s f e h = e

  -- The search keeps every entry of the cache.
  scan_page-kept :
      (j : String) (v : Cached) (tgs : List TargetGroup) (b : Balancer) (s : C.State)
      → C.get j s ≡ some v
      → C.get j (scan_page C api fuel l tgs b s).1 ≡ some v
  unfolding scan_page
  scan_page-kept j v [] b s e = e
  scan_page-kept j v (tg ∷ tgs) b s e =
      let e' =
        get_and_cache-kept C sets ("tg_arn_" <> tg.arn) tg.arn
          (λ arn. as_health (api.describe_target_health arn)) j v s e in
      then_kept j v _ _ (λ b' s'. scan_page C api fuel l tgs b' s') e'
        (λ b'. scan_page-kept j v tgs b' _ e')

  -- The first group's health is in the cache from then on.
  scan_page-shadows :
      (tg : TargetGroup) (tgs : List TargetGroup) (b : Balancer) (ts : List TargetHealth)
      (s : C.State)
      → C.get ("tg_arn_" <> tg.arn) s ≡ none
      → api.describe_target_health tg.arn ≡ some ts
      → C.get ("tg_arn_" <> tg.arn) (scan_page C api fuel l (tg ∷ tgs) b s).1
        ≡ some (target_health ts)
  unfolding scan_page get_and_cache
  scan_page-shadows tg tgs b ts s n e =
      let key = "tg_arn_" <> tg.arn in
      let s' = C.set key (target_health ts) s in
      let there : C.get key s' ≡ some (target_health ts) =
        rw (sets key key (target_health ts) s, eq_self key) refl in
      rw (n, scan_page, get_and_cache)
        (rw e (
          then_kept key (target_health ts) (take_group C api fuel l tg b (some (target_health ts)))
            s' (λ b' s''. scan_page C api fuel l tgs b' s'') there
            (λ b'. scan_page-kept key (target_health ts) tgs b' s' there)))

  shadowed :
      (describe : String → Option (List TargetHealth)) (id eureka last : String)
      (info : LoadBalancerInfo) (ts : List TargetHealth) (s : C.State)
      → eureka ≢ up
      → last ≢ up
      → C.get ("container_" <> id) s ≡ some (load_balancer info)
      → C.get ("tg_arn_" <> info.target_group_arn) s ≡ some (target_health ts)
      → (determine_new_eureka_status C describe id eureka last s).0.registration_status ≡ starting
  unfolding determine_new_eureka_status get_healthy_targets get_and_cache
  shadowed describe id eureka last info ts s n m e e' =
      rw
        (
          eq_of_ne eureka up n,
          eq_of_ne last up m,
          e,
          e',
          determine_new_eureka_status,
          get_healthy_targets,
          get_and_cache,
        )
        refl

  -- A cache where setting a key changes no other one, with a load balancer's details for the
  -- container and nothing under the key of its target group, and AWS answers with targets of which
  -- one is healthy. A load balancer that is neither UP in eureka nor kept as UP is then registered as
  -- UP; but behind a search for a load balancer, for any host and port, on a page of groups that
  -- begins with this one, it is registered as STARTING, since the search keeps AWS's answer under
  -- the key that the healthy targets have.
  pub test_health_shadowed :
      (tg : TargetGroup) (tgs : List TargetGroup) (b : Balancer) (id : String)
      (info : LoadBalancerInfo) (answer : Option String) (ts : List TargetHealth)
      (h : HealthState C)
      → elb_status C api.describe_target_health answer ≢ up
      → last_of C api.describe_target_health id h ≢ up
      → C.get ("container_" <> id) h.cache ≡ some (load_balancer info)
      → info.target_group_arn ≡ tg.arn
      → C.get ("tg_arn_" <> tg.arn) h.cache ≡ none
      → api.describe_target_health tg.arn ≡ some ts
      → HasHealthy ts
      → ((test_health C api.describe_target_health id answer h).0 ≡ up)
        × ((test_health C api.describe_target_health id answer
              (record h { cache = (scan_page C api fuel l (tg ∷ tgs) b h.cache).1 })).0
            ≡ starting)
  unfolding test_health
  test_health_shadowed tg tgs b id info answer ts h n m e same none_yet answered healthy = (
    before,
    shadowed api.describe_target_health id (elb_status C api.describe_target_health answer)
        (last_of C api.describe_target_health id h) info ts
        (scan_page C api fuel l (tg ∷ tgs) b h.cache).1 n m
        (scan_page-kept ("container_" <> id) (load_balancer info) (tg ∷ tgs) b h.cache e)
        (rw same (scan_page-shadows tg tgs b ts h.cache none_yet answered)),
  )
    where
      before : (test_health C api.describe_target_health id answer h).0 ≡ up
      before = elim (test_health-IsJustified C api.describe_target_health id answer h) [
        | inl (u, _, _) ↦ u
        | inr (_, _, _, _, unhealthy) ↦
            absurd (unhealthy (info, e, inr (rw same none_yet, ts, rw same answered, healthy)))
      ]
