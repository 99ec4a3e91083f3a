-- ===== src/Aws/Metadata.antt =====
-- aws/metadata.go: what the metadata service of the host says, read once.
use registrator.Common.{
  ◌≡◌, refl, String, Bool, true, Option, none, some, if◌then◌else◌, Bool-cases, inl, inr,
}
use registrator.Aws.Instance.{AwsMetadata}

-- The client of the service: the region of the identity document, and the value of a key.
pub record MetadataGetter : Type 0 where
  pub available : Bool
  pub identity_region : Option String
  pub get : String → Option String

-- getDataOrFail
unfoldable pub get_data_or_fail : MetadataGetter → String → String
get_data_or_fail svc key = elim (svc.get key) [ none ↦ "" | some v ↦ v ]

abbrev pub no_metadata : AwsMetadata
no_metadata = record {
  instance_id = "";
  private_ip = "";
  public_ip = "";
  private_hostname = "";
  public_hostname = "";
  availability_zone = "";
  region = "";
}

unfoldable pub retrieve_metadata : MetadataGetter → AwsMetadata
unfolding get_data_or_fail
retrieve_metadata svc =
    if svc.available
    then record {
      instance_id = get_data_or_fail svc "instance-id";
      private_ip = get_data_or_fail svc "local-ipv4";
      public_ip = get_data_or_fail svc "public-ipv4";
      private_hostname = get_data_or_fail svc "local-hostname";
      public_hostname = get_data_or_fail svc "public-hostname";
      availability_zone = get_data_or_fail svc "placement/availability-zone";
      region = elim svc.identity_region [ none ↦ "" | some r ↦ r ];
    }
    else no_metadata

-- metadataCache, `none` for nil, and whether `once` has been used.
pub record MetadataCache : Type 0 where
  pub cached : Option AwsMetadata
  pub used : Bool

unfoldable pub get_metadata : MetadataGetter → MetadataCache → Option AwsMetadata × MetadataCache
unfolding retrieve_metadata
get_metadata svc c = if c.used then (c.cached, c) else (
  some (retrieve_metadata svc),
  record { cached = some (retrieve_metadata svc); used = true },
)

unfoldable pub set_metadata : Option AwsMetadata → MetadataCache → MetadataCache
set_metadata md c = record { cached = md; used = true }

-- A later call has the answer of the first one, whatever the service says by then.
get_metadata-again :
    (svc svc' : MetadataGetter) (c : MetadataCache)
    → (get_metadata svc' (get_metadata svc c).1).0 ≡ (get_metadata svc c).0
unfolding get_metadata
get_metadata-again svc svc' c = elim (Bool-cases c.used) [
  | inl e ↦ rw (e, get_metadata) refl
  | inr e ↦ rw (e, get_metadata) refl
]
