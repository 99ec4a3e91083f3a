-- ===== src/Aws/Lookup.antt =====
-- getELBAndCacheDetails and GetELBV2ForContainer of aws/elb.go: the load balancer of a container. The
-- random wait before a lookup is left out.
pub mod Run
pub mod Kept
pub mod Listing
pub mod Sound
pub mod Shadowed
pub mod Named
use registrator.Common.{
  ℕ, String, ◌<>◌, Bool, true, false, ◌&&◌, ◌||◌, not, Option, none, some, List, [], ◌∷◌,
  if◌then◌else◌, ◌==◌,
}
use registrator.Common.Int.{ℤ, eq_ℤ}
use registrator.Aws.Cache.{Cache, get_and_cache}
use registrator.Aws.Api.{
  TargetHealth, TargetGroup, Listener, LoadBalancer, EcsService, AwsApi, LoadBalancerInfo, Cached,
  load_balancer, healthy_targets, target_health, target_groups, listeners, load_balancers,
}
use registrator.Aws.Services.{lookup_service_name}
use registrator.Aws.Groups.{Paging, pages, page_error, nil_page, unfinished, get_all_target_groups}

-- A result, an error, a nil dereference or an index out of range, or no end within the fuel.
pub data Looked (A : Type 0) : Type 0 where
  found : A → Looked A
  failed : Looked A
  crashed : Looked A
  unended : Looked A

-- lookupValues of aws/structs.go
pub record LookupValues : Type 0 where
  pub instance_id : String
  pub port : ℤ
  pub cluster_name : String
  pub service_name : String
  pub task_arn : String

-- Whether one of the targets is this host at this port.
unfoldable pub is_target : ℤ → String → List TargetHealth → Bool
is_target port id [] = false
is_target port id (t ∷ ts) = (eq_ℤ t.port port && (t.target == id)) || is_target port id ts

-- The target group of one listener: the actions up to the first that forwards to it. The action that
-- forwards nowhere is dereferenced.
unfoldable pub forwards_to : String → List (Option String) → Looked Bool
forwards_to arn [] = found false
forwards_to arn (none ∷ acts) = crashed
forwards_to arn (some a ∷ acts) = if a == arn then found true else forwards_to arn acts

-- lbPort: every listener is looked at.
unfoldable pub listener_port : String → Option ℤ → List Listener → Looked (Option ℤ)
unfolding forwards_to
listener_port arn port [] = found port
listener_port arn port (l ∷ ls) = elim (forwards_to arn l.actions) [
  | found true ↦ listener_port arn (some l.port) ls
  | found false ↦ listener_port arn port ls
  | failed ↦ failed
  | crashed ↦ crashed
  | unended ↦ unended
]

-- The load balancers and the target group that have been found.
pub record Balancer : Type 0 where
  pub lb_arns : List String
  pub tg_arn : String

abbrev is_found : Balancer → Bool
is_found b = elim b.lb_arns [ [] ↦ false | l ∷ ls ↦ not (b.tg_arn == "") ]

module _ (api : AwsApi) where
  abbrev lb_of_group : TargetGroup → Option (List LoadBalancer) → Looked Balancer
  lb_of_group tg (some (lb ∷ lbs)) = found (record { lb_arns = lb.arn ∷ []; tg_arn = tg.arn })
  lb_of_group tg (some []) = crashed
  lb_of_group tg none = failed

  abbrev lb_of_groups : Option (List TargetGroup) → Looked Balancer
  lb_of_groups (some (tg ∷ tgs)) = lb_of_group tg (api.describe_load_balancers tg.load_balancers)
  lb_of_groups (some []) = crashed
  lb_of_groups none = failed

  abbrev lb_of_services : Option (List EcsService) → Looked Balancer
  lb_of_services (some (s ∷ ss)) = elim s.target_groups [
    | [] ↦ failed
    | arn ∷ arns ↦ lb_of_groups (api.describe_target_groups (arn ∷ []))
  ]
  lb_of_services _ = failed

  -- getLoadBalancerFromService, as the caller takes it
  unfoldable pub get_load_balancer_from_service : String → String → Looked Balancer
  get_load_balancer_from_service service_name cluster_name =
      if api.has_session
      then lb_of_services (api.describe_services cluster_name (service_name ∷ []))
      else failed

abbrev as_health : Option (List TargetHealth) → Option Cached
as_health none = none
as_health (some ts) = some (target_health ts)

abbrev as_listeners : Option (List Listener) → Option Cached
as_listeners none = none
as_listeners (some ls) = some (listeners ls)

abbrev as_load_balancers : Option (List LoadBalancer) → Option Cached
as_load_balancers none = none
as_load_balancers (some ls) = some (load_balancers ls)

abbrev cached_groups : Paging → Looked Cached
cached_groups (pages ps) = found (target_groups ps)
cached_groups page_error = failed
cached_groups nil_page = crashed
cached_groups unfinished = unended

module _ (C : Cache Cached) where
  abbrev pub keep : String → Looked Cached × C.State → Looked Cached × C.State
  keep key (found v, s) = (found v, C.set key v s)
  keep key (failed, s) = (failed, s)
  keep key (crashed, s) = (crashed, s)
  keep key (unended, s) = (unended, s)

  -- GetAndCache with a function that uses the cache itself.
  unfoldable pub run_and_cache :
      String → (C.State → Looked Cached × C.State) → C.State → Looked Cached × C.State
  run_and_cache key f s = elim (C.get key s) [ none ↦ keep key (f s) | some v ↦ (found v, s) ]

  abbrev pub then_look :
      {A B : Type 0} → Looked A × C.State → (A → C.State → Looked B × C.State) → Looked B × C.State
  then_look (found a, s) f = f a s
  then_look (failed, s) f = (failed, s)
  then_look (crashed, s) f = (crashed, s)
  then_look (unended, s) f = (unended, s)
