-- ===== src/Examples/Registrations.antt =====
-- A container on a host of AWS, in eureka.
use registrator.Common.{◌≡◌, refl, some, [], ◌∷◌}
use registrator.Common.Int.{pos, negsuc}
use registrator.Bridge.Types.{Service}
use registrator.Common.Decimal.{to_int32}
use registrator.Aws.Instance.{AwsMetadata, Instance, unique_id}
use registrator.Eureka.{instance_information}
use registrator.Eureka.Laws.{IsOfContainer, instance_information_total}
use registrator.Examples.Fixtures.{web_service}

abbrev pub aws : AwsMetadata
aws = record {
  instance_id = "i-1";
  private_ip = "10.1.0.1";
  public_ip = "54.0.0.1";
  private_hostname = "ip-10-1-0-1";
  public_hostname = "ec2-54-0-0-1";
  availability_zone = "us-east-1a";
  region = "us-east-1";
}

-- Its own attributes try to name another container.
abbrev public_service : Service
public_service = record web_service {
  attrs =
      ("eureka_register_aws_public_ip", "true")
      ∷ ("eureka_datacenterinfo_auto_populate", "true")
      ∷ ("eureka_metadata_container-id", "another")
      ∷ [];
}

instance_information_total_example :
    (i : Instance) × (instance_information aws public_service ≡ some i)
    × (i.app ≡ public_service.name)
    × (i.port ≡ public_service.port)
    × IsOfContainer public_service i.metadata
instance_information_total_example = instance_information_total aws public_service

unique_id_test : unique_id "host1" (pos 8080) ≡ "host1_8080"
unfolding unique_id
unique_id_test = refl

to_int32_tests :
    (to_int32 (pos 35) ≡ pos 35)
    × (to_int32 (pos 2147483648) ≡ negsuc 2147483647)
    × (to_int32 (negsuc 0) ≡ negsuc 0)
unfolding to_int32
to_int32_tests = (refl, refl, refl)
