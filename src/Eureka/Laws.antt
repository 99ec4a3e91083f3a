-- ===== src/Eureka/Laws.antt =====
-- The registration of eureka/eureka.go: it is made for every service, and says whose it is.
use registrator.Common.{
  ◌≡◌, refl, String, Bool, true, false, ◌&&◌, not, Option, none, some, if◌then◌else◌, ◌==◌,
  Bool-cases, inl, inr,
}
use registrator.Common.Map.{Map, get, get_or, put, get-put}
use registrator.Bridge.Types.{Service}
use registrator.Aws.Flags.{my_own}
use registrator.Aws.Instance.{AwsMetadata, Instance}
use registrator.Eureka.{
  AwsMetadata, Instance, placement, container_metadata, uses_public_ip, endpoint_ip, instance_at,
  instance_information, check_boolean_flag,
}

-- The keys that say whose registration it is.
abbrev pub IsOfContainer : Service → Map String → Type 0
IsOfContainer s m =
    (get "is-container" m ≡ some "true")
    × (get "container-id" m ≡ some s.origin.container_id)
    × (get "container-name" m ≡ some s.origin.container_name)

container_metadata-IsOfContainer : (s : Service) → IsOfContainer s (container_metadata s)
unfolding container_metadata
container_metadata-IsOfContainer s = (simp get-put, simp get-put, simp get-put)

with_instance_id :
    (s : Service) (id : String) → IsOfContainer s (put "aws-instance-id" id (container_metadata s))
with_instance_id s id =
    let (x, y, z) = container_metadata-IsOfContainer s in
    (
      rw (get-put "aws-instance-id" "is-container" id (container_metadata s)) x,
      rw (get-put "aws-instance-id" "container-id" id (container_metadata s)) y,
      rw (get-put "aws-instance-id" "container-name" id (container_metadata s)) z,
    )

placement-IsOfContainer :
    (aws : AwsMetadata) (s : Service) → IsOfContainer s (placement aws s).metadata
unfolding placement
placement-IsOfContainer aws s =
    elim (Bool-cases (get_or "" "eureka_datacenterinfo_name" s.attrs == my_own)) [
      | inl e ↦ rw (e, placement) (container_metadata-IsOfContainer s)
      | inr e ↦
          elim (Bool-cases (check_boolean_flag s.attrs "eureka_datacenterinfo_auto_populate")) [
            | inl b ↦ rw (e, b, placement) (with_instance_id s aws.instance_id)
            | inr b ↦ rw (e, b, placement) (container_metadata-IsOfContainer s)
          ]
    ]

populated_lem :
    (aws : AwsMetadata) (s : Service)
    → (placement aws s).populated ≡ (
        if get_or "" "eureka_datacenterinfo_name" s.attrs == my_own
        then none
        else if check_boolean_flag s.attrs "eureka_datacenterinfo_auto_populate"
        then some aws
        else none)
unfolding placement
populated_lem aws s = elim (Bool-cases (get_or "" "eureka_datacenterinfo_name" s.attrs == my_own)) [
  | inl e ↦ rw (e, placement) refl
  | inr e ↦ elim (Bool-cases (check_boolean_flag s.attrs "eureka_datacenterinfo_auto_populate")) [
    | inl b ↦ rw (e, b, placement) refl
    | inr b ↦ rw (e, b, placement) refl
  ]
]

-- The public address is read only where the metadata is there.
address_of :
    (own auto public : Bool) (aws : AwsMetadata) (o : Option AwsMetadata) (ip : String)
    → o ≡ (if own then none else if auto then some aws else none)
    → (r : String) × ((if public && (auto && not own)
          then (elim o as (λ x. Option String) [ none ↦ none | some a ↦ some a.public_ip ])
          else some ip)
        ≡ some r)
address_of own auto false aws o ip e = (ip, refl)
address_of own false true aws o ip e = (ip, refl)
address_of true true true aws o ip e = (ip, refl)
address_of false true true aws o ip e = (aws.public_ip, rw e refl)

endpoint_ip_total :
    (aws : AwsMetadata) (s : Service) → (ip : String) × (endpoint_ip s (placement aws s) ≡ some ip)
unfolding endpoint_ip uses_public_ip
endpoint_ip_total aws s =
    address_of (get_or "" "eureka_datacenterinfo_name" s.attrs == my_own)
      (check_boolean_flag s.attrs "eureka_datacenterinfo_auto_populate")
      (check_boolean_flag s.attrs "eureka_register_aws_public_ip") aws (placement aws s).populated
      s.ip (populated_lem aws s)

-- Every service has a registration: `awsMetadata` is read only where it has been set. The
-- registration has the service's name and port, and says that it is of a container, and of which, in
-- metadata that no attribute of the service overwrites.
pub instance_information_total :
    (aws : AwsMetadata) (s : Service)
    → (i : Instance) × (instance_information aws s ≡ some i)
      × (i.app ≡ s.name)
      × (i.port ≡ s.port)
      × IsOfContainer s i.metadata
unfolding instance_information instance_at
instance_information_total aws s =
    let (ip, e) = endpoint_ip_total aws s in
    (
      instance_at s (placement aws s) ip,
      rw (e, instance_information) refl,
      refl,
      refl,
      placement-IsOfContainer aws s,
    )
