-- ===== src/Aws/Health.antt =====
-- aws/healthchecks.go: the status that a load balancer is registered with in eureka. What the AWS
-- client answers is a parameter, an error of its session included; the statuses are fargo's.
pub mod Targets
pub mod Laws
use registrator.Common.{
  ℕ, String, ◌<>◌, Bool, true, false, not, Option, none, some, List, [], ◌∷◌, if◌then◌else◌, ◌==◌,
}
use registrator.Common.Map.{Map, get_or, put}
use registrator.Aws.Api.{
  TargetHealth, LoadBalancerInfo, Cached, load_balancer, healthy_targets, target_health,
  target_groups, listeners, load_balancers,
}
use registrator.Aws.Cache.{Cache, get_and_cache}

abbrev pub up : String
up = "UP"

abbrev pub starting : String
starting = "STARTING"

abbrev pub unknown : String
unknown = "UNKNOWN"

pub record StatusChange : Type 0 where
  pub registration_status : String
  pub new_status : String

unfoldable only_healthy : List TargetHealth → List TargetHealth
only_healthy [] = []
only_healthy (t ∷ ts) =
    let rest = only_healthy ts in if t.state == "healthy" then t ∷ rest else rest

-- getHealthyTargets: the call behind the cache
unfoldable pub fetch_healthy_targets :
    (String → Option (List TargetHealth)) → String → Option Cached
unfolding only_healthy
fetch_healthy_targets describe arn = elim (describe arn) [
  | none ↦ none
  | some ts ↦ some (healthy_targets (only_healthy ts))
]

-- `ret, _ := out.([]*elbv2.TargetHealthDescription)`: nil for a value of another type
abbrev as_targets : Cached → List TargetHealth
as_targets (healthy_targets ts) = ts
as_targets _ = []

abbrev targets_of : Option Cached → Option (List TargetHealth)
targets_of none = none
targets_of (some v) = some (as_targets v)

-- With no healthy target the group is still starting.
abbrev pub change_of : Option (List TargetHealth) → StatusChange
change_of none = record { registration_status = starting; new_status = unknown }
change_of (some []) = record { registration_status = starting; new_status = starting }
change_of (some (t ∷ ts)) = record { registration_status = up; new_status = up }

-- The cache, and `previousStatus`.
pub record HealthState (C : Cache Cached) : Type 0 where
  pub cache : C.State
  pub previous : Map String

module _ (C : Cache Cached) (describe : String → Option (List TargetHealth)) where
  -- GetHealthyTargets, `none` for its error
  unfoldable pub get_healthy_targets : String → C.State → Option (List TargetHealth) × C.State
  unfolding get_and_cache fetch_healthy_targets
  get_healthy_targets arn s =
      let (out, s') = get_and_cache C ("tg_arn_" <> arn) arn (fetch_healthy_targets describe) s in
      (targets_of out, s')

  -- What the cache has for the container, as a load balancer's details.
  abbrev change_by : Option Cached → C.State → StatusChange × C.State
  change_by (some (load_balancer info)) s =
      let (targets, s') = get_healthy_targets info.target_group_arn s in (change_of targets, s')
  change_by _ s = (change_of none, s)

  -- determineNewEurekaStatus
  unfoldable pub determine_new_eureka_status :
      String → String → String → C.State → StatusChange × C.State
  unfolding get_healthy_targets
  determine_new_eureka_status container_id eureka_status input_status s =
      if eureka_status == up
      then (record { registration_status = up; new_status = up }, s)
      else if not (input_status == up)
      then change_by (C.get ("container_" <> container_id) s) s
      else (record { registration_status = up; new_status = up }, s)

  -- getELBStatus of aws/elb.go: `none` for an error, or for no instance
  abbrev pub elb_status : Option String → String
  elb_status none = unknown
  elb_status (some s) = s

  -- testHealth, with eureka's answer: the status that is registered, and what is kept.
  unfoldable pub test_health : String → Option String → HealthState C → String × HealthState C
  unfolding determine_new_eureka_status get_or put
  test_health container_id answer h =
      let last = get_or "" container_id h.previous in
      let (change, s) = determine_new_eureka_status container_id (elb_status answer) last h.cache in
      (
        change.registration_status,
        record { cache = s; previous = put container_id change.new_status h.previous },
      )
