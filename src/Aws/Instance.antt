-- ===== src/Aws/Instance.antt =====
-- A registration in eureka, as aws/elb.go and eureka/eureka.go fill it.
use registrator.Common.{String, ◌<>◌, Option}
use registrator.Common.Int.{ℤ}
use registrator.Common.Map.{Map}
use registrator.Common.Decimal.{itoa}

-- Metadata of aws/metadata.go
pub record AwsMetadata : Type 0 where
  pub instance_id : String
  pub private_ip : String
  pub public_ip : String
  pub private_hostname : String
  pub public_hostname : String
  pub availability_zone : String
  pub region : String

-- fargo's AmazonMetadataType and Instance, with the fields that are set here
pub record AmazonMetadata : Type 0 where
  pub availability_zone : String
  pub public_hostname : String
  pub public_ipv4 : String
  pub instance_id : String
  pub local_hostname : String
  pub host_name : String
  pub local_ipv4 : String

pub record Instance : Type 0 where
  pub app : String
  pub port : ℤ
  pub status : String
  pub renewal_interval : ℤ
  pub duration : ℤ
  pub metadata : Map String
  pub host_name : String
  pub data_center : String
  pub amazon : Option AmazonMetadata
  pub ip_addr : String
  pub vip_address : String

-- GetUniqueID
unfoldable pub unique_id : String → ℤ → String
unfolding itoa
unique_id host_name port = host_name <> ("_" <> itoa port)
