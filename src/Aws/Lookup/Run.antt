-- ===== src/Aws/Lookup/Run.antt =====
-- getELBAndCacheDetails, GetELBV2ForContainer and getELBMetadata of aws/elb.go, with the cache. The
-- fuel is for the pages of the target groups.
use registrator.Common.{
  ℕ, String, ◌<>◌, ◌&&◌, not, Option, none, some, List, [], ◌∷◌, if◌then◌else◌, ◌==◌,
}
use registrator.Common.Int.{ℤ}
use registrator.Aws.Cache.{Cache, get_and_cache}
use registrator.Aws.Api.{
  TargetGroup, AwsApi, LoadBalancerInfo, Cached, load_balancer, target_health, target_groups,
  listeners, load_balancers,
}
use registrator.Aws.Services.{lookup_service_name}
use registrator.Aws.Groups.{get_all_target_groups}
use registrator.Aws.Lookup.{
  Looked, found, failed, crashed, unended, LookupValues, is_target, listener_port, Balancer,
  is_found, get_load_balancer_from_service, as_health, as_listeners, as_load_balancers,
  cached_groups, run_and_cache, then_look,
}

module _ (C : Cache Cached) (api : AwsApi) (fuel : ℕ) where
  abbrev Answer : Type 0 → Type 0
  Answer A = C.State → Looked A × C.State

  -- What a target group's health says: one of another type is passed over.
  abbrev pub take_group : LookupValues → TargetGroup → Balancer → Option Cached → Looked Balancer
  take_group l tg b none = failed
  take_group l tg b (some (target_health ts)) = found (
      if is_target l.port l.instance_id ts
      then record { lb_arns = tg.load_balancers; tg_arn = tg.arn }
      else b)
  take_group l tg b (some _) = found b

  -- The groups of one page: a later match takes the place of an earlier one.
  unfoldable pub scan_page : LookupValues → List TargetGroup → Balancer → Answer Balancer
  unfolding is_target get_and_cache
  scan_page l [] b s = (found b, s)
  scan_page l (tg ∷ tgs) b s =
      let (out, s') =
        get_and_cache C ("tg_arn_" <> tg.arn) tg.arn
          (λ arn. as_health (api.describe_target_health arn)) s in
      then_look C (take_group l tg b out, s') (λ b' s''. scan_page l tgs b' s'')

  -- No page is looked at behind the one that has a match.
  unfoldable pub scan_pages : LookupValues → List (List TargetGroup) → Balancer → Answer Balancer
  unfolding scan_page
  scan_pages l [] b s = (found b, s)
  scan_pages l (p ∷ ps) b s =
      then_look C (scan_page l p b s)
        (λ b' s'. if is_found b' then (found b', s') else scan_pages l ps b' s')

  abbrev pub nowhere : Balancer
  nowhere = record { lb_arns = []; tg_arn = "" }

  abbrev pub pages_of : Cached → List (List TargetGroup)
  pages_of (target_groups ps) = ps
  pages_of _ = []

  unfoldable pub find_by_target : LookupValues → Answer Balancer
  unfolding scan_pages run_and_cache get_all_target_groups
  find_by_target l s =
      then_look C
        (run_and_cache C "tg"
          (λ s'. (cached_groups (get_all_target_groups api.target_groups_page fuel), s')) s)
        (λ v s'. scan_pages l (pages_of v) nowhere s')

  -- The service's name and the cluster's: the name of the cluster is kept only where the name of the
  -- service is looked up.
  unfoldable pub service_of : LookupValues → String × String
  unfolding lookup_service_name
  service_of l =
      if not (l.cluster_name == "") && (not (l.task_arn == "") && (l.service_name == ""))
      then (lookup_service_name api l.cluster_name l.task_arn, l.cluster_name)
      else (l.service_name, "")

  unfoldable pub find_balancer : LookupValues → Answer Balancer
  unfolding service_of find_by_target get_load_balancer_from_service
  find_balancer l s =
      let (service_name, cluster_name) = service_of l in
      if service_name == ""
      then find_by_target l s
      else (get_load_balancer_from_service api service_name cluster_name, s)

  -- A value of another type is nil, which is dereferenced.
  abbrev port_of : String → Option Cached → Looked ℤ
  port_of arn none = failed
  port_of arn (some (listeners ls)) = elim (listener_port arn none ls) [
    | found (some p) ↦ found p
    | found none ↦ failed
    | failed ↦ failed
    | crashed ↦ crashed
    | unended ↦ unended
  ]
  port_of arn (some _) = crashed

  abbrev details_of : String → ℤ → Option Cached → Looked Cached
  details_of arn port none = failed
  details_of arn port (some (load_balancers (lb ∷ lbs))) = found (
      load_balancer (record {
        dns_name = lb.dns_name;
        port = port;
        elb_endpoint = "";
        target_group_arn = arn;
        ip_address = "";
        vip_address = "";
      }))
  details_of arn port (some _) = crashed

  unfoldable pub describe_balancer : Balancer → Answer Cached
  unfolding get_and_cache listener_port
  describe_balancer b s = elim b.lb_arns [
    | [] ↦ (failed, s)
    | lb ∷ lbs ↦
        let (out, s') =
          get_and_cache C ("lsnr_" <> lb) lb (λ a. as_listeners (api.describe_listeners a)) s in
        then_look C (port_of b.tg_arn out, s')
          (λ port s1.
            let (out', s2) =
              get_and_cache C ("lb_" <> lb) (lb ∷ lbs)
                (λ arns. as_load_balancers (api.describe_load_balancers arns)) s1 in
            (details_of b.tg_arn port out', s2))
  ]

  unfoldable pub get_elb_and_cache_details : LookupValues → Answer Cached
  unfolding find_balancer describe_balancer
  get_elb_and_cache_details l s =
      if api.has_session
      then then_look C (find_balancer l s) (λ b s'. describe_balancer b s')
      else (failed, s)

  -- A value of another type is nil, which the caller takes as an error.
  abbrev pub info_of : Cached → Looked LoadBalancerInfo
  info_of (load_balancer info) = found info
  info_of _ = failed

  unfoldable pub get_elbv2_for_container : String → LookupValues → Answer LoadBalancerInfo
  unfolding run_and_cache get_elb_and_cache_details
  get_elbv2_for_container container_id l s =
      then_look C
        (run_and_cache C ("container_" <> container_id) (λ s'. get_elb_and_cache_details l s') s)
        (λ v s'. (info_of v, s'))
