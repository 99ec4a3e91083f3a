-- ===== src/Eureka/Calls/Expiring.antt =====
-- A service with the flags of a load balancer in eureka/eureka.go: its load balancer is left to expire.
use registrator.Common.{◌≡◌, ℕ, String, ◌<>◌, Option, none, some, if◌then◌else◌, ◌==◌}
use registrator.Bridge.Types.{Service}
use registrator.Aws.Cache.{Cache}
use registrator.Aws.Instance.{AwsMetadata, Instance}
use registrator.Aws.Api.{Cached}
use registrator.Aws.Lookup.{Looked, found, failed, crashed, unended, run_and_cache, keep}
use registrator.Aws.Registration.{Eureka, Calls}

-- A cache in which deleting a key removes it and changes no other one.
abbrev DeletesOne : Cache Cached → Type 0
DeletesOne C =
    (k j : String) (s : C.State) → C.get j (C.delete k s) ≡ (if k == j then none else C.get j s)

-- A call that ends reports no error.
abbrev pub NoError : Looked (Option String) → Type 0
NoError (found none) = Unit
NoError (found (some e)) = ⊥
NoError failed = ⊥
NoError crashed = Unit
NoError unended = Unit

module _ (C : Cache Cached) (fuel : ℕ) (aws : AwsMetadata) (E : Eureka) where
  -- The result of a heartbeat is never an error of a look-up.
  abbrev Reports : Looked (Option String) → Type 0
  Reports (found e) = Unit
  Reports failed = ⊥
  Reports crashed = Unit
  Reports unended = Unit

  -- The state once the details of a service's load balancer are forgotten.
  abbrev forgotten : Service → Calls C fuel aws E → Calls C fuel aws E
  forgotten s w = record w {
    health = record w.health {
      cache = C.delete ("container_" <> s.origin.container_id) w.health.cache;
    };
  }

  -- A look-up behind the entry of the service's container runs, whatever it does, and is kept.
  abbrev pub LooksAnew : Service → (C.State → Looked Cached × C.State) → C.State → Type 0
  LooksAnew s look c =
      let entry = "container_" <> s.origin.container_id in
      run_and_cache C entry look c ≡ keep C entry (look c)
