-- ===== src/Aws/Lookup/Kept.antt =====
-- The details of a container's load balancer in the cache: GetELBV2ForContainer of aws/elb.go asks AWS
-- until they are found, and then no more.
use registrator.Common.{ℕ, ◌≡◌, refl, sym, ◌∙◌, ap, String, ◌<>◌, some, Option-cases, inl, inr}
use registrator.Aws.Cache.{Cache, Keeps}
use registrator.Aws.Api.{
  AwsApi, LoadBalancerInfo, Cached, load_balancer, healthy_targets, target_health, target_groups,
  listeners, load_balancers,
}
use registrator.Aws.Lookup.{
  Looked, found, failed, crashed, unended, LookupValues, run_and_cache, then_look, keep,
}
use registrator.Aws.Lookup.Run.{info_of, get_elb_and_cache_details, get_elbv2_for_container}

pub found_same : {A : Type 0} {v w : A} → ◌≡◌ {A = Looked A} (found v) (found w) → v ≡ w
found_same e = cc

module _ (C : Cache Cached) (api : AwsApi) (fuel : ℕ) where
  -- With an entry in the cache, nothing is asked.
  pub get_elbv2_for_container-hit :
      (id : String) (l : LookupValues) (s : C.State) (info : LoadBalancerInfo)
      → C.get ("container_" <> id) s ≡ some (load_balancer info)
      → get_elbv2_for_container C api fuel id l s ≡ (found info, s)
  unfolding get_elbv2_for_container run_and_cache
  get_elbv2_for_container-hit id l s info e = rw (e, get_elbv2_for_container, run_and_cache) refl

  info_of_found :
      (v : Cached) (info : LoadBalancerInfo)
      → info_of C api fuel v ≡ found info
      → v ≡ load_balancer info
  info_of_found (load_balancer i) info e = ap load_balancer (found_same e)
  info_of_found (healthy_targets x) info e = cc
  info_of_found (target_health x) info e = cc
  info_of_found (target_groups x) info e = cc
  info_of_found (listeners x) info e = cc
  info_of_found (load_balancers x) info e = cc

  -- What has been looked up is a load balancer's details.
  looked_up :
      (x : Looked Cached × C.State) (info : LoadBalancerInfo) (s' : C.State)
      → then_look C x (λ v s. (info_of C api fuel v, s)) ≡ (found info, s')
      → (x.0 ≡ found (load_balancer info)) × (x.1 ≡ s')
  looked_up (found v, s) info s' e =
      (ap found (info_of_found v info (ap (λ p. p.0) e)), ap (λ p. p.1) e)
  looked_up (failed, s) info s' e = let e' = ap (λ p. p.0) e in cc
  looked_up (crashed, s) info s' e = let e' = ap (λ p. p.0) e in cc
  looked_up (unended, s) info s' e = let e' = ap (λ p. p.0) e in cc

  keep_stored :
      Keeps C
      → (key : String) (x : Looked Cached × C.State) (v : Cached) → (keep C key x).0 ≡ found v
      → C.get key (keep C key x).1 ≡ some v
  keep_stored keeps key (found w, s) v e = keeps key w s ∙ ap some (found_same e)
  keep_stored keeps key (failed, s) v e = cc
  keep_stored keeps key (crashed, s) v e = cc
  keep_stored keeps key (unended, s) v e = cc

  pub get_elbv2_for_container-kept :
      Keeps C
      → (id : String) (l : LookupValues) (s s' : C.State) (info : LoadBalancerInfo)
      → get_elbv2_for_container C api fuel id l s ≡ (found info, s')
      → C.get ("container_" <> id) s' ≡ some (load_balancer info)
  unfolding get_elbv2_for_container run_and_cache
  get_elbv2_for_container-kept keeps id l s s' info e =
      elim (Option-cases (C.get ("container_" <> id) s)) [
        | inl h ↦
            let (hit, state) =
              looked_up (keep C ("container_" <> id) (get_elb_and_cache_details C api fuel l s))
                info s' (rw (h, get_elbv2_for_container, run_and_cache) at e) in
            ap (C.get ("container_" <> id)) (sym state)
            ∙ keep_stored keeps ("container_" <> id) _ (load_balancer info) hit
        | inr (v, h) ↦
            let (hit, state) =
              looked_up (found v, s) info s'
                (rw (h, get_elbv2_for_container, run_and_cache) at e) in
            ap (C.get ("container_" <> id)) (sym state) ∙ h ∙ ap some (found_same hit)
      ]
