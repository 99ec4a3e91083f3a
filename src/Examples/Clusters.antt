-- ===== src/Examples/Clusters.antt =====
-- A cluster of AWS with two services behind a load balancer, and a eureka that keeps instances.
use registrator.Common.{
  ◌≡◌, refl, String, true, false, Option, none, some, List, [], ◌∷◌, if◌then◌else◌, ◌==◌, apart,
  arith,
}
use registrator.Common.Int.{pos}
use registrator.Common.Map.{get, put, get-put}
use registrator.Aws.Cache.{get_and_cache}
use registrator.Aws.Api.{TargetHealth, TargetGroup, EcsService, AwsApi, load_balancer}
use registrator.Aws.Services.{lookup_service_name, matching, match_services, only_match}
use registrator.Aws.Services.Laws.{services_named, lookup_service_name-whole}
use registrator.Aws.Groups.{get_all_target_groups, nil_page, get_all_target_groups_lem}
use registrator.Aws.Lookup.{
  found, LookupValues, get_load_balancer_from_service, listener_port, forwards_to,
}
use registrator.Aws.Lookup.Run.{
  find_balancer, service_of, describe_balancer, get_elb_and_cache_details,
}
use registrator.Aws.Cache.{SetsOne}
use registrator.Aws.Lookup.Named.{get_elb_and_cache_details-named}
use registrator.Aws.Lookup.{Balancer}
use registrator.Aws.Lookup.Run.{scan_page}
use registrator.Aws.Health.{up, starting, HealthState, test_health}
use registrator.Aws.Lookup.Shadowed.{test_health_shadowed}
use registrator.Common.Map.{get_or}
use registrator.Common.{inl}
use registrator.Examples.Balancers.{map_cache, group}

abbrev service_called : String → List EcsService
service_called name =
    record {
      name = name;
      task_definition = if name == "web" then "web:7" else "db:3";
      target_groups = "tg-web" ∷ [];
    }
    ∷ []

abbrev web_group : TargetGroup
web_group = record { arn = "tg-web"; load_balancers = "lb-1" ∷ [] }

-- The first page has a marker, and the page behind it is an error.
abbrev two_pages : Option String → Option (List TargetGroup × Option String)
two_pages none = some (web_group ∷ [], some "next")
two_pages (some m) = none

abbrev one_page : Option String → Option (List TargetGroup × Option String)
one_page none = some (web_group ∷ [], none)
one_page (some m) = none

abbrev pub cluster_api : AwsApi
cluster_api = record {
  has_session = true;
  list_services = λ cluster. some ("web" ∷ "db" ∷ []);
  describe_tasks = λ cluster task. some ("web:7" ∷ []);
  describe_services = λ cluster names. some (services_named service_called names);
  describe_target_groups = λ arns. some (web_group ∷ []);
  target_groups_page = one_page;
  describe_target_health =
      λ arn. some (record { target = "i-1"; port = pos 8080; state = "healthy" } ∷ []);
  describe_listeners = λ arn. some (record { port = pos 443; actions = some "tg-web" ∷ [] } ∷ []);
  describe_load_balancers = λ arns. some (record { arn = "lb-1"; dns_name = "lb.aws" } ∷ []);
}

abbrev pub no_session : AwsApi
no_session = record cluster_api { has_session = false }

lookup_service_name-whole_example :
    lookup_service_name cluster_api "prod" "task-1"
    ≡ only_match (some (matching "web:7" (services_named service_called ("web" ∷ "db" ∷ []))))
lookup_service_name-whole_example =
    lookup_service_name-whole cluster_api service_called "prod" "task-1" "web:7" "web" ("db" ∷ [])
      [] refl refl refl (λ names h k. refl)

lookup_service_name_test : lookup_service_name cluster_api "prod" "task-1" ≡ "web"
unfolding lookup_service_name match_services matching
lookup_service_name_test = refl

get_all_target_groups_lem_example : get_all_target_groups two_pages 5 ≡ nil_page
get_all_target_groups_lem_example =
    get_all_target_groups_lem two_pages 5 (web_group ∷ []) [] (some "next") (some "next")
      (omega arith) refl refl refl

abbrev Described : String → List TargetHealth → Type 0
Described arn ts = cluster_api.describe_target_health arn ≡ some ts

abbrev pub of_web : LookupValues
of_web = record {
  instance_id = "i-1";
  port = pos 8080;
  cluster_name = "prod";
  service_name = "web";
  task_arn = "";
}

sets_one : SetsOne map_cache
sets_one k j v s = get-put k j v s

abbrev IsWeb : TargetGroup → Type 0
IsWeb tg = tg ≡ web_group

abbrev no_balancer : Balancer
no_balancer = record { lb_arns = []; tg_arn = "" }

-- The container's load balancer is known, the health of its group is not.
abbrev known : HealthState map_cache
known = record {
  cache = ("container_c", load_balancer (record group { target_group_arn = "tg-web" })) ∷ [];
  previous = [];
}

test_health_shadowed_example :
    ((test_health map_cache cluster_api.describe_target_health "c" none known).0 ≡ up)
    × ((test_health map_cache cluster_api.describe_target_health "c" none (record known {
      cache = (scan_page map_cache cluster_api 5 of_web (web_group ∷ []) no_balancer known.cache).1;
    })).0
        ≡ starting)
unfolding get get_or
test_health_shadowed_example =
    test_health_shadowed map_cache sets_one cluster_api 5 of_web web_group [] no_balancer "c"
      (record group { target_group_arn = "tg-web" }) none
      (record { target = "i-1"; port = pos 8080; state = "healthy" } ∷ []) known
      (apart "UNKNOWN" up refl) (apart "" up refl) refl refl refl refl (inl refl)

get_elb_and_cache_details-named_example :
    get_elb_and_cache_details map_cache cluster_api 5 of_web []
    ≡ get_elb_and_cache_details map_cache cluster_api 5 (record of_web { cluster_name = "test" }) []
get_elb_and_cache_details-named_example =
    get_elb_and_cache_details-named map_cache cluster_api 5 of_web
      (record of_web { cluster_name = "test" }) [] (apart "web" "" refl) refl

get_elb_and_cache_details_test :
    (get_elb_and_cache_details map_cache cluster_api 5 of_web []).0
    ≡ found (
        load_balancer (record {
          dns_name = "lb.aws";
          port = pos 443;
          elb_endpoint = "";
          target_group_arn = "tg-web";
          ip_address = "";
          vip_address = "";
        }))
unfolding get_elb_and_cache_details find_balancer service_of get_load_balancer_from_service
    describe_balancer get_and_cache listener_port forwards_to get put
get_elb_and_cache_details_test = refl
