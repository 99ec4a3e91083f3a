-- ===== src/Eureka.antt =====
-- instanceInformation of eureka/eureka.go: what a service is registered as. The metadata of the AWS
-- host, aws.GetMetadata, is a parameter: it is read from a service of that host once.
pub mod Laws
pub mod Calls
use registrator.Common.{
  ℕ, zero, suc, ◌+◌, ◌-◌, ◌/◌, ◌%◌, ◌^◌, String, ◌<>◌, Bool, true, false, ◌&&◌, not, Option, none,
  some, List, [], ◌∷◌, ◌++◌, Char, if◌then◌else◌, ◌==◌, ltb,
}
use registrator.Common.Int.{ℤ, pos, negsuc}
use registrator.Common.Map.{Map, get, get_or, put}
use registrator.Common.Decimal.{to_int32}
use registrator.Common.Text.{chars, text, strip_prefix, atoi}
use registrator.Bridge.Types.{Service, ServicePort}
use registrator.Aws.Instance.{AwsMetadata, AmazonMetadata, Instance, unique_id}
use registrator.Aws.Flags.{my_own, parse_bool}

abbrev flag_value : Option Bool → Bool
flag_value none = false
flag_value (some b) = b

unfoldable pub check_boolean_flag : Map String → String → Bool
unfolding parse_bool get_or
check_boolean_flag attrs flag =
    let v = get_or "" flag attrs in if v == "" then false else flag_value (parse_bool v)

-- ShortHandTernary
abbrev pub or_else : String → String → String
or_else s t = if s == "" then t else s

abbrev seconds_of : Option ℤ → ℤ
seconds_of none = pos 0
seconds_of (some v) = to_int32 v

-- A lease's time: its default where the attribute is empty, and zero where it is no number.
unfoldable pub lease_time : Map String → String → ℤ → ℤ
unfolding get_or atoi to_int32
lease_time attrs key default =
    let v = get_or "" key attrs in if v == "" then default else seconds_of (atoi (chars v))

-- The loop over the attributes, `eureka_metadata_` left out of the keys.
unfoldable pub attribute_metadata : Map String → Map String → Map String
unfolding strip_prefix put
attribute_metadata m [] = m
attribute_metadata m ((k, v) ∷ attrs) = elim (strip_prefix (chars "eureka_metadata_") (chars k)) [
  | none ↦ attribute_metadata m attrs
  | some key ↦ attribute_metadata (put (text key) v m) attrs
]

unfoldable pub container_metadata : Service → Map String
unfolding attribute_metadata put
container_metadata s = put "container-name" s.origin.container_name (
    put "container-id" s.origin.container_id
      (put "is-container" "true" (attribute_metadata [] s.attrs)))

-- The name of the host, the data centre and the metadata, which differ by branch. `populated` is
-- `awsMetadata`, nil but in the first branch.
pub record Placement : Type 0 where
  pub host_name : String
  pub data_center : String
  pub amazon : Option AmazonMetadata
  pub metadata : Map String
  pub populated : Option AwsMetadata

unfoldable pub placement : AwsMetadata → Service → Placement
unfolding check_boolean_flag container_metadata unique_id get_or
placement aws s =
    let attr : String → String = λ k. get_or "" k s.attrs in
    let local = or_else (attr "eureka_datacenterinfo_localhostname") s.ip in
    if attr "eureka_datacenterinfo_name" == my_own
    then record {
      host_name = unique_id s.ip s.port;
      data_center = my_own;
      amazon = none;
      metadata = container_metadata s;
      populated = none;
    }
    else if check_boolean_flag s.attrs "eureka_datacenterinfo_auto_populate"
    then record {
      host_name = aws.private_hostname;
      data_center = "Amazon";
      amazon = some (record {
        availability_zone = aws.availability_zone;
        public_hostname = aws.public_hostname;
        public_ipv4 = aws.public_ip;
        instance_id = unique_id aws.private_hostname s.port;
        local_hostname = aws.private_hostname;
        host_name = aws.private_hostname;
        local_ipv4 = aws.private_ip;
      });
      metadata = put "aws-instance-id" aws.instance_id (container_metadata s);
      populated = some aws;
    }
    else record {
      host_name = local;
      data_center = "Amazon";
      amazon = some (record {
        availability_zone = "";
        public_hostname = or_else (attr "eureka_datacenterinfo_publichostname") s.origin.host_ip;
        public_ipv4 = or_else (attr "eureka_datacenterinfo_publicipv4") s.origin.host_ip;
        instance_id = unique_id local s.port;
        local_hostname = local;
        host_name = local;
        local_ipv4 = or_else (attr "eureka_datacenterinfo_localipv4") s.ip;
      });
      metadata = container_metadata s;
      populated = none;
    }

unfoldable pub uses_public_ip : Map String → Bool
unfolding check_boolean_flag get_or
uses_public_ip attrs =
    check_boolean_flag attrs "eureka_register_aws_public_ip"
    && (check_boolean_flag attrs "eureka_datacenterinfo_auto_populate"
        && not (get_or "" "eureka_datacenterinfo_name" attrs == my_own))

-- The address of the endpoint; `none` is the nil dereference of `awsMetadata`.
unfoldable pub endpoint_ip : Service → Placement → Option String
unfolding uses_public_ip
endpoint_ip s p =
    if uses_public_ip s.attrs
    then elim p.populated [ none ↦ none | some aws ↦ some aws.public_ip ]
    else some s.ip

unfoldable pub instance_at : Service → Placement → String → Instance
unfolding lease_time get_or
instance_at s p ip = record {
  app = s.name;
  port = s.port;
  status = if get_or "" "eureka_status" s.attrs == "DOWN" then "DOWN" else "UP";
  renewal_interval = lease_time s.attrs "eureka_leaseinfo_renewalintervalinsecs" (pos 30);
  duration = lease_time s.attrs "eureka_leaseinfo_durationinsecs" (pos 90);
  metadata = p.metadata;
  host_name = p.host_name;
  data_center = p.data_center;
  amazon = p.amazon;
  ip_addr = or_else (get_or "" "eureka_ipaddr" s.attrs) ip;
  vip_address = or_else (get_or "" "eureka_vip" s.attrs) ip;
}

unfoldable pub instance_information : AwsMetadata → Service → Option Instance
unfolding placement endpoint_ip instance_at
instance_information aws s =
    let p = placement aws s in
    elim (endpoint_ip s p) [ none ↦ none | some ip ↦ some (instance_at s p ip) ]
