-- ===== src/Aws/Api.antt =====
-- What the package aws asks of the AWS clients: third-party code, whose answers are functions of the
-- arguments at the time of one lookup, `none` for an error, that of a session included.
use registrator.Common.{String, Bool, Option, List}
use registrator.Common.Int.{ℤ}

-- A target, the port it is reached at, and the state of its health.
pub record TargetHealth : Type 0 where
  pub target : String
  pub port : ℤ
  pub state : String

-- No ARN of a load balancer at all is nil.
pub record TargetGroup : Type 0 where
  pub arn : String
  pub load_balancers : List String

-- A listener's port, and the target groups of its default actions, nil for an action without one.
pub record Listener : Type 0 where
  pub port : ℤ
  pub actions : List (Option String)

pub record LoadBalancer : Type 0 where
  pub arn : String
  pub dns_name : String

-- A service of a cluster, with the target groups of its load balancers.
pub record EcsService : Type 0 where
  pub name : String
  pub task_definition : String
  pub target_groups : List String

pub record AwsApi : Type 0 where
  pub has_session : Bool
  -- ListServicesPages and DescribeTasks of a cluster, the latter as the definitions of a task
  pub list_services : String → Option (List String)
  pub describe_tasks : String → String → Option (List String)
  pub describe_services : String → List String → Option (List EcsService)
  pub describe_target_groups : List String → Option (List TargetGroup)
  -- A page of the groups behind a marker, with the next marker if there is one
  pub target_groups_page : Option String → Option (List TargetGroup × Option String)
  pub describe_target_health : String → Option (List TargetHealth)
  pub describe_listeners : String → Option (List Listener)
  pub describe_load_balancers : List String → Option (List LoadBalancer)

-- LoadBalancerRegistrationInfo of aws/structs.go
pub record LoadBalancerInfo : Type 0 where
  pub dns_name : String
  pub port : ℤ
  pub elb_endpoint : String
  pub target_group_arn : String
  pub ip_address : String
  pub vip_address : String

-- What the shared cache holds, by the type that a reader asserts.
pub data Cached : Type 0 where
  load_balancer : LoadBalancerInfo → Cached
  healthy_targets : List TargetHealth → Cached
  target_health : List TargetHealth → Cached
  target_groups : List (List TargetGroup) → Cached
  listeners : List Listener → Cached
  load_balancers : List LoadBalancer → Cached
