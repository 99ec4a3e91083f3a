-- ===== src/Aws/Lookup/Sound.antt =====
-- The search of aws/elb.go through all target groups: what it finds is a group that this host is a
-- target of.
use registrator.Common.{ℕ, ◌≡◌, ◌⊎◌, String, ◌<>◌, true, Option, some, List, [], All}
use registrator.Aws.Cache.{Cache, SetsOne, get_and_cache}
use registrator.Aws.Api.{TargetHealth, TargetGroup, AwsApi, Cached, target_health, load_balancers}
use registrator.Aws.Lookup.{
  Looked, found, failed, crashed, unended, LookupValues, is_target, Balancer, as_health,
}
use registrator.Aws.Lookup.Listing.{ListedIn}

module _ (C : Cache Cached) (sets : SetsOne C) (Seen : String → List TargetHealth → Type 0) where
  -- What the cache has of a group's health has been seen.
  abbrev pub AllSeen : C.State → Type 0
  AllSeen s =
      (arn : String) (ts : List TargetHealth)
      → C.get ("tg_arn_" <> arn) s ≡ some (target_health ts)
      → Seen arn ts

  module _ (api : AwsApi) (fuel : ℕ)
      (answers : (arn : String) (ts : List TargetHealth)
        → api.describe_target_health arn ≡ some ts
        → Seen arn ts)
      (Listed : TargetGroup → Type 0)
      (lists : (mark : Option String) (tgs : List TargetGroup) (next : Option String)
        → api.target_groups_page mark ≡ some (tgs, next)
        → All Listed tgs)
      (l : LookupValues) where
    -- A balancer of a group that AWS lists and that has been seen with this host's port as a target.
    abbrev IsOurs : Balancer → Type 0
    IsOurs b =
        (tg : TargetGroup) × (ts : List TargetHealth) × Listed tg
        × Seen tg.arn ts
        × (is_target l.port l.instance_id ts ≡ true)
        × (b.lb_arns ≡ tg.load_balancers)
        × (b.tg_arn ≡ tg.arn)

    -- What holds of a search's result, if it ends with one.
    abbrev pub IsSound : Looked Balancer × C.State → Type 0
    IsSound (found b, s) = ((b.lb_arns ≡ []) ⊎ IsOurs b) × AllSeen s
    IsSound (failed, s) = Unit
    IsSound (crashed, s) = Unit
    IsSound (unended, s) = Unit

    abbrev ask_health : TargetGroup → C.State → Option Cached × C.State
    ask_health tg s =
        get_and_cache C ("tg_arn_" <> tg.arn) tg.arn
          (λ arn. as_health (api.describe_target_health arn)) s

    abbrev ListedAnswer : Looked Cached → Type 0
    ListedAnswer (found v) = ListedIn api.target_groups_page Listed lists v
    ListedAnswer failed = Unit
    ListedAnswer crashed = Unit
    ListedAnswer unended = Unit
