-- ===== src/Examples/Balancers.antt =====
-- A load balancer with a target group, and a cache that forgets nothing.
use registrator.Common.{◌≡◌, ◌≢◌, ◌⊎◌, ◌↔◌, refl, String, true, Option, none, some, List, [], ◌∷◌}
use registrator.Common.Map.{Map, get, put, delete, get-put_self}
use registrator.Aws.Cache.{Cache, Keeps, get_and_cache}
use registrator.Aws.Flags.{
  attr, my_own, parse_bool, check_elb_flags, HasEndpoint, check_elb_flags_iff,
}
use registrator.Common.Int.{pos}
use registrator.Aws.Api.{TargetHealth, LoadBalancerInfo, Cached, load_balancer}
use registrator.Aws.Health.{up, HealthState, elb_status, test_health, fetch_healthy_targets}
use registrator.Aws.Health.Laws.{last_of, IsJustified, test_health-IsJustified}

abbrev pub map_cache : Cache Cached
map_cache = record { State = Map Cached; get = get; set = put; delete = delete }

pub map_cache-Keeps : Keeps map_cache
map_cache-Keeps k v s = get-put_self k v s

-- The group of one healthy target and another one.
abbrev describe : String → Option (List TargetHealth)
describe arn = some (
    record { target = "i-1"; port = pos 80; state = "healthy" }
    ∷ record { target = "i-2"; port = pos 80; state = "draining" }
    ∷ [])

abbrev pub group : LoadBalancerInfo
group = record {
  dns_name = "lb";
  port = pos 443;
  elb_endpoint = "lb_443";
  target_group_arn = "g";
  ip_address = "";
  vip_address = "";
}

abbrev new_state : HealthState map_cache
new_state = record { cache = ("container_c", load_balancer group) ∷ []; previous = [] }

test_health_test : (test_health map_cache describe "c" none new_state).0 ≡ up
unfolding test_health get_and_cache get fetch_healthy_targets
test_health_test = refl

test_health-IsJustified_example :
    IsJustified map_cache describe "c"
      (elb_status map_cache describe none)
      (last_of map_cache describe "c" new_state)
      new_state.cache
      (record {
        registration_status = (test_health map_cache describe "c" none new_state).0;
        new_status =
            last_of map_cache describe "c" (test_health map_cache describe "c" none new_state).1;
      })
test_health-IsJustified_example = test_health-IsJustified map_cache describe "c" none new_state

abbrev odd_port : Map String
odd_port =
    ("eureka_elbv2_hostname", "lb")
    ∷ ("eureka_elbv2_port", "http")
    ∷ ("eureka_elbv2_targetgroup", "g")
    ∷ []

check_elb_flags_iff_example : (check_elb_flags odd_port ≡ true) ↔ (
    (attr "eureka_datacenterinfo_name" odd_port ≢ my_own)
    × (HasEndpoint odd_port
        ⊎ (parse_bool (attr "eureka_lookup_elbv2_endpoint" odd_port) ≡ some true)))
check_elb_flags_iff_example = check_elb_flags_iff odd_port

check_elb_flags_test : check_elb_flags odd_port ≡ true
unfolding check_elb_flags
check_elb_flags_test = refl
