-- ===== src/Aws/Registration.antt =====
-- mutateRegistrationInfo, RegisterWithELBv2 and HeartbeatELBv2 of aws/elb.go, with testHealth: a load
-- balancer is registered in eureka in the place of the container. The waits between the attempts are
-- left out; what AWS answers may be another thing at each of them.
pub mod Kept
pub mod Attempts
use registrator.Common.{
  ℕ, zero, suc, ◌+◌, String, ◌<>◌, Bool, true, false, not, Option, none, some, List, [], ◌∷◌,
  if◌then◌else◌, ◌==◌,
}
use registrator.Common.Int.{ℤ, pos}
use registrator.Common.Map.{Map, get_or, put}
use registrator.Common.Decimal.{itoa, atoi_value}
use registrator.Common.Text.{chars}
use registrator.Bridge.Types.{Service}
use registrator.Aws.Cache.{Cache}
use registrator.Aws.Flags.{attr, has_explicit_elb, check_elb_flags, check_elb_only_reg}
use registrator.Aws.Instance.{AwsMetadata, AmazonMetadata, Instance, unique_id}
use registrator.Aws.Api.{TargetHealth, AwsApi, LoadBalancerInfo, Cached, load_balancer}
use registrator.Aws.Health.{up, HealthState, test_health}
use registrator.Aws.Lookup.{Looked, found, failed, crashed, unended, LookupValues, then_look}
use registrator.Aws.Lookup.Run.{get_elbv2_for_container}

-- fargo's connection to eureka: an error is its text, and `status` is none for an error or for no
-- instance.
pub record Eureka : Type 1 where
  pub State : Type 0
  pub register : Instance → State → Option String × State
  pub reregister : Instance → State → Option String × State
  pub deregister : Instance → State → Option String × State
  pub heartbeat : Instance → State → Option String × State
  pub status : String → String → State → Option String
  pub get_apps : State → Option String

-- What the attributes say, of which the port may be any text.
unfoldable explicit_info : Map String → LoadBalancerInfo
unfolding atoi_value get_or
explicit_info attrs = record {
  dns_name = attr "eureka_elbv2_hostname" attrs;
  port = atoi_value (chars (attr "eureka_elbv2_port" attrs));
  elb_endpoint = attr "eureka_elbv2_hostname" attrs <> ("_" <> attr "eureka_elbv2_port" attrs);
  target_group_arn = attr "eureka_elbv2_targetgroup" attrs;
  ip_address = "";
  vip_address = "";
}

unfoldable pub values_of : AwsMetadata → Map String → ℤ → LookupValues
unfolding get_or
values_of aws attrs port = record {
  instance_id = aws.instance_id;
  port = port;
  cluster_name = attr "com.amazonaws.ecs.cluster" attrs;
  service_name = attr "ecs_service" attrs;
  task_arn = attr "com.amazonaws.ecs.task-arn" attrs;
}

-- An ELB-only registration says nothing of the container.
abbrev without_container : Bool → Instance → Instance
without_container false r = r
without_container true r = record r {
  amazon = some (record {
    availability_zone = "";
    public_hostname = r.host_name;
    public_ipv4 = "";
    instance_id = unique_id r.host_name r.port;
    local_hostname = "";
    host_name = r.host_name;
    local_ipv4 = "";
  });
  metadata = put "aws-instance-id" "" (put "container-name" "" (put "container-id" "" r.metadata));
}

-- mutateRegistrationInfo with the details of a load balancer
unfoldable pub as_load_balancer : Map String → LoadBalancerInfo → Instance → Instance
unfolding check_elb_only_reg put unique_id
as_load_balancer attrs info r =
    let elb : Instance = record r {
      ip_addr = info.ip_address;
      vip_address = info.ip_address;
      port = info.port;
      host_name = info.dns_name;
      metadata = put "elbv2-endpoint" info.elb_endpoint (put "has-elbv2" "true" r.metadata);
    } in
    record (without_container (check_elb_only_reg attrs) elb) {
      renewal_interval = pos 0;
      duration = pos 35;
    }

-- Details that have been looked up, with the endpoint.
unfoldable pub with_endpoint : LoadBalancerInfo → LoadBalancerInfo
unfolding itoa
with_endpoint info = record info {
  elb_endpoint = info.dns_name <> ("_" <> itoa info.port);
  ip_address = "";
}

module _ (C : Cache Cached) (fuel : ℕ) (aws : AwsMetadata) where
  -- getELBMetadata
  unfoldable pub get_elb_metadata :
      AwsApi → Service → ℤ → C.State → Looked LoadBalancerInfo × C.State
  unfolding has_explicit_elb explicit_info get_elbv2_for_container values_of with_endpoint
  get_elb_metadata api s port c =
      if has_explicit_elb s.attrs
      then (
        found (explicit_info s.attrs),
        C.set ("container_" <> s.origin.container_id) (load_balancer (explicit_info s.attrs)) c,
      )
      else then_look C
          (get_elbv2_for_container C api fuel s.origin.container_id (values_of aws s.attrs port) c)
          (λ info c'. (found (with_endpoint info), c'))

  -- mutateRegistrationInfo
  unfoldable pub mutate_registration_info :
      AwsApi → Service → Instance → C.State → Looked Instance × C.State
  unfolding get_elb_metadata as_load_balancer
  mutate_registration_info api s r c =
      then_look C (get_elb_metadata api s r.port c)
        (λ info c'. (found (as_load_balancer s.attrs info r), c'))

  module _ (E : Eureka) where
    -- The state of eureka, and of this package.
    pub record Calls : Type 0 where
      pub client : E.State
      pub health : HealthState C

    -- DescribeTargetHealth in a session
    abbrev pub describe : AwsApi → String → Option (List TargetHealth)
    describe api arn = if api.has_session then api.describe_target_health arn else none

    -- testHealth and ReregisterInstance
    unfoldable pub reregister_elb : AwsApi → Service → Instance → Calls → Option String × Calls
    unfolding test_health unique_id
    reregister_elb api s elb w =
        let (status, health) =
          test_health C (describe api) s.origin.container_id
            (E.status elb.app (unique_id elb.host_name elb.port) w.client) w.health in
        let (err, client) = E.reregister (record elb { status = status }) w.client in
        (err, record { client = client; health = health })

    abbrev pub with_cache : C.State → Calls → Calls
    with_cache c w = record w { health = record w.health { cache = c } }

    abbrev pub Done : Type 0
    Done = Looked (Option String) × Calls

    -- A result that eureka gives.
    abbrev pub sent : Option String × Calls → Done
    sent (err, w) = (found err, w)

    -- What follows an attempt: the next ones only after an error.
    abbrev pub after_attempt :
        AwsApi → Service → Calls → (Calls → Done) → Looked Instance × C.State → Done
    after_attempt api s w rest (found elb, c) = sent (reregister_elb api s elb (with_cache c w))
    after_attempt api s w rest (failed, c) = rest (with_cache c w)
    after_attempt api s w rest (crashed, c) = (crashed, with_cache c w)
    after_attempt api s w rest (unended, c) = (unended, with_cache c w)

    -- The attempts that are left, and the number of the next one.
    unfoldable pub register_from : ℕ → ℕ → (ℕ → AwsApi) → Service → Instance → Calls → Done
    unfolding mutate_registration_info reregister_elb unique_id
    register_from zero n apis s r w =
        (found (some ("unable to register ELBv2: " <> unique_id r.host_name r.port)), w)
    register_from (suc left) n apis s r w =
        after_attempt (apis n) s w (λ w'. register_from left (n + 1) apis s r w')
          (mutate_registration_info (apis n) s r w.health.cache)

    -- RegisterWithELBv2: once, and three times again
    unfoldable pub register_with_elbv2 : (ℕ → AwsApi) → Service → Instance → Calls → Done
    unfolding check_elb_flags register_from
    register_with_elbv2 apis s r w =
        register_from (if check_elb_flags s.attrs then 4 else 0) 0 apis s r w

    -- HeartbeatELBv2 with the registration of the load balancer: the error of the heartbeat, if the
    -- registration that follows has none.
    unfoldable pub heartbeat_elb : AwsApi → Service → Instance → Calls → Option String × Calls
    unfolding reregister_elb get_or
    heartbeat_elb api s elb w =
        let (err, client) = E.heartbeat elb w.client in
        let w' : Calls = record w { client = client } in
        if get_or "" s.origin.container_id w.health.previous == up
        then (err, w')
        else (let (err', w'') = reregister_elb api s elb w' in
            elim err' [ none ↦ (err, w'') | some e ↦ (some e, w'') ])

    -- What follows the look-up of a heartbeat.
    abbrev pub after_lookup : AwsApi → Service → Instance → Calls → Looked Instance × C.State → Done
    after_lookup api s r w (found elb, c) = sent (heartbeat_elb api s elb (with_cache c w))
    after_lookup api s r w (failed, c) = (
      found (some ("unable to heartbeat ELBv2. " <> unique_id r.host_name r.port)),
      with_cache c w,
    )
    after_lookup api s r w (crashed, c) = (crashed, with_cache c w)
    after_lookup api s r w (unended, c) = (unended, with_cache c w)

    -- HeartbeatELBv2
    unfoldable pub heartbeat_elbv2 : AwsApi → Service → Instance → Calls → Done
    unfolding check_elb_flags mutate_registration_info heartbeat_elb unique_id
    heartbeat_elbv2 api s r w =
        if check_elb_flags s.attrs
        then after_lookup api s r w (mutate_registration_info api s r w.health.cache)
        else (found (some ("unable to heartbeat ELBv2. " <> unique_id r.host_name r.port)), w)
