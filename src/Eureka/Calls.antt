-- ===== src/Eureka/Calls.antt =====
-- Register, Deregister, Refresh, Services and Ping of eureka/eureka.go. A service with the flags of a
-- load balancer goes to aws/elb.go.
pub mod Laws
pub mod Expiring
use registrator.Common.{ℕ, String, ◌<>◌, Bool, Option, none, some, List, [], if◌then◌else◌, ◌==◌}
use registrator.Common.Text.{chars, contains}
use registrator.Bridge.Types.{Service}
use registrator.Adapter.Uri.{Uri}
use registrator.Aws.Cache.{Cache}
use registrator.Aws.Flags.{check_elb_flags}
use registrator.Aws.Instance.{AwsMetadata, Instance}
use registrator.Aws.Api.{AwsApi, Cached}
use registrator.Aws.Lookup.{Looked, found, failed, crashed, unended}
use registrator.Aws.Registration.{Eureka, Calls, register_with_elbv2, heartbeat_elbv2}
use registrator.Eureka.{instance_information}

-- Whether the error of a heartbeat says that eureka does not know the registration.
unfoldable pub dropped_out : String → Bool
unfolding contains
dropped_out err = contains (chars "heartbeat failed, rcode = 404") (chars err)

-- The address that the factory gives to the client.
unfoldable pub eureka_url : Uri → String
eureka_url uri =
    if uri.host == "" then "http://eureka:8761" else "http://" <> (uri.host <> uri.path)

module _ (C : Cache Cached) (fuel : ℕ) (aws : AwsMetadata) (E : Eureka) where
  abbrev ClientWorld : Type 0
  ClientWorld = Calls C fuel aws E

  abbrev Reply : Type 0
  Reply = Looked (Option String) × ClientWorld

  -- A nil dereference while the registration is made.
  abbrev pub with_instance : ClientWorld → (Instance → Reply) → Option Instance → Reply
  with_instance w f none = (crashed, w)
  with_instance w f (some r) = f r

  -- A call to eureka itself.
  abbrev call : (E.State → Option String × E.State) → ClientWorld → Reply
  call f w = let (err, client) = f w.client in (found err, record w { client = client })

  -- The calls with the registration that instanceInformation makes.
  abbrev pub register_instance : (ℕ → AwsApi) → Service → ClientWorld → Instance → Reply
  register_instance apis s w r =
      if check_elb_flags s.attrs
      then register_with_elbv2 C fuel aws E apis s r w
      else call (E.register r) w

  unfoldable pub eureka_register : (ℕ → AwsApi) → Service → ClientWorld → Reply
  unfolding check_elb_flags register_with_elbv2
  eureka_register apis s w =
      with_instance w (register_instance apis s w) (instance_information aws s)

  -- A load balancer is left to expire, and its details are forgotten.
  abbrev pub deregister_instance : Service → ClientWorld → Instance → Reply
  deregister_instance s w r =
      if check_elb_flags s.attrs
      then (
        found none,
        record w {
          health = record w.health {
            cache = C.delete ("container_" <> s.origin.container_id) w.health.cache;
          };
        },
      )
      else call (E.deregister r) w

  unfoldable pub eureka_deregister : Service → ClientWorld → Reply
  unfolding check_elb_flags
  eureka_deregister s w = with_instance w (deregister_instance s w) (instance_information aws s)

  -- The error of a load balancer's heartbeat is dropped.
  abbrev pub without_error : Reply → Reply
  without_error (found err, w) = (found none, w)
  without_error (failed, w) = (failed, w)
  without_error (crashed, w) = (crashed, w)
  without_error (unended, w) = (unended, w)

  -- What follows a heartbeat: the error of the registration is dropped.
  unfoldable pub after_heartbeat : Instance → Option String → ClientWorld → Reply
  unfolding dropped_out
  after_heartbeat r none w = (found none, w)
  after_heartbeat r (some err) w =
      if dropped_out err
      then (found none, record w { client = (E.register r w.client).1 })
      else (found (some err), w)

  abbrev pub refresh_instance : AwsApi → Service → ClientWorld → Instance → Reply
  refresh_instance api s w r =
      if check_elb_flags s.attrs
      then without_error (heartbeat_elbv2 C fuel aws E api s r w)
      else (let (err, client) = E.heartbeat r w.client in
          after_heartbeat r err (record w { client = client }))

  unfoldable pub eureka_refresh : AwsApi → Service → ClientWorld → Reply
  unfolding check_elb_flags heartbeat_elbv2 after_heartbeat
  eureka_refresh api s w = with_instance w (refresh_instance api s w) (instance_information aws s)

  unfoldable pub eureka_services : ClientWorld → Option (List Service)
  eureka_services w = some []

  unfoldable pub eureka_ping : ClientWorld → Option String
  eureka_ping w = E.get_apps w.client
