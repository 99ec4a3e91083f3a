-- ===== src/Examples/Endpoints.antt =====
-- A service that is registered through a load balancer, and one that is not.
use registrator.Common.{
  ℕ, zero, suc, ◌≡◌, refl, String, false, Option, none, some, [], ◌∷◌, if◌then◌else◌,
}
use registrator.Common.Int.{pos}
use registrator.Common.Map.{get, get_or, put}
use registrator.Bridge.Types.{Service}
use registrator.Aws.Cache.{get_and_cache}
use registrator.Aws.Flags.{check_elb_flags, has_explicit_elb, uses_elb_lookup}
use registrator.Aws.Instance.{Instance}
use registrator.Aws.Api.{AwsApi, LoadBalancerInfo}
use registrator.Aws.Lookup.{
  found, run_and_cache, get_load_balancer_from_service, listener_port, forwards_to,
}
use registrator.Aws.Lookup.Run.{
  get_elbv2_for_container, get_elb_and_cache_details, find_balancer, service_of, describe_balancer,
}
use registrator.Aws.Registration.{
  Eureka, Calls, values_of, with_endpoint, as_load_balancer, get_elb_metadata,
  mutate_registration_info,
}
use registrator.Aws.Registration.Kept.{mutate_registration_info-again}
use registrator.Eureka.{instance_information}
use registrator.Eureka.Calls.{eureka_register, eureka_deregister}
use registrator.Eureka.Calls.Laws.{is_at, kept_or, IsEureka, after, eureka_deregister-register}
use registrator.Examples.Fixtures.{web_service}
use registrator.Examples.Balancers.{map_cache, map_cache-Keeps}
use registrator.Examples.Registrations.{aws}
use registrator.Examples.Clusters.{cluster_api, no_session}

-- Every call succeeds but for heartbeats, for which every instance has dropped out.
abbrev forgetful : Eureka
forgetful = record {
  State = String → String → Option Instance;
  register = λ i r. (none, λ app id. if is_at i app id then kept_or (r app id) i else r app id);
  reregister = λ i r. (none, λ app id. if is_at i app id then some i else r app id);
  deregister = λ i r. (none, λ app id. if is_at i app id then none else r app id);
  heartbeat = λ i r. (some "heartbeat failed, rcode = 404", r);
  status = λ app id r. none;
  get_apps = λ r. none;
}

abbrev keeps_instances : IsEureka forgetful
keeps_instances = record {
  instances = λ r app id. r app id;
  register_lem = λ i r app id e. refl;
  deregister_lem = λ i r app id e. refl;
  heartbeat_lem = λ i r app id. refl;
}

abbrev nothing_yet : Calls map_cache 5 aws forgetful
nothing_yet = record { client = λ app id. none; health = record { cache = []; previous = [] } }

no_flags : check_elb_flags web_service.attrs ≡ false
unfolding check_elb_flags has_explicit_elb uses_elb_lookup get_or
no_flags = refl

eureka_deregister-register_example :
    (r : Instance) × (instance_information aws web_service ≡ some r)
    × (after map_cache 5 aws forgetful keeps_instances
          (eureka_register map_cache 5 aws forgetful (λ n. cluster_api) web_service nothing_yet)
          "api-80"
          "10.0.0.1_8080"
        ≡ (if is_at r "api-80" "10.0.0.1_8080" then some r else none))
    × (after map_cache 5 aws forgetful keeps_instances
          (eureka_deregister map_cache 5 aws forgetful web_service
            (eureka_register map_cache 5 aws forgetful
              (λ n. cluster_api)
              web_service
              nothing_yet).1)
          "api-80"
          "10.0.0.1_8080"
        ≡ (if is_at r "api-80" "10.0.0.1_8080" then none else none))
eureka_deregister-register_example =
    eureka_deregister-register map_cache 5 aws forgetful keeps_instances (λ n. cluster_api)
      web_service nothing_yet "api-80" "10.0.0.1_8080" no_flags (λ i r. refl) (λ i r. refl)

abbrev elb_service : Service
elb_service = record web_service {
  attrs = ("eureka_lookup_elbv2_endpoint", "true") ∷ ("ecs_service", "web") ∷ [];
}

abbrev container_instance : Instance
container_instance = record {
  app = "api-80";
  port = pos 8080;
  status = "UP";
  renewal_interval = pos 30;
  duration = pos 90;
  metadata = [];
  host_name = "ip-10-1-0-1";
  data_center = "Amazon";
  amazon = none;
  ip_addr = "10.0.0.1";
  vip_address = "10.0.0.1";
}

abbrev found_info : LoadBalancerInfo
found_info = with_endpoint (record {
  dns_name = "lb.aws";
  port = pos 443;
  elb_endpoint = "";
  target_group_arn = "tg-web";
  ip_address = "";
  vip_address = "";
})

abbrev elb_instance : Instance
elb_instance = as_load_balancer elb_service.attrs found_info container_instance

abbrev cached : map_cache.State
cached = (mutate_registration_info map_cache 5 aws cluster_api elb_service container_instance []).1

is_mutated :
    mutate_registration_info map_cache 5 aws cluster_api elb_service container_instance []
    ≡ (found elb_instance, cached)
unfolding mutate_registration_info get_elb_metadata has_explicit_elb get_or get put values_of
    get_elbv2_for_container run_and_cache get_elb_and_cache_details find_balancer service_of
    get_load_balancer_from_service describe_balancer get_and_cache listener_port forwards_to
is_mutated = refl

mutate_registration_info-again_example :
    (info : LoadBalancerInfo) × (elb_instance
      ≡ as_load_balancer elb_service.attrs info container_instance)
    × ((mutate_registration_info map_cache 5 aws no_session elb_service container_instance cached).0
        ≡ found (as_load_balancer elb_service.attrs info container_instance))
mutate_registration_info-again_example =
    mutate_registration_info-again map_cache 5 aws map_cache-Keeps cluster_api elb_service
      container_instance elb_instance [] cached is_mutated no_session container_instance cached refl

-- AWS has no session at the first attempt.
abbrev late : ℕ → AwsApi
late zero = no_session
late (suc n) = cluster_api
