-- ===== src/Signing/Credentials.antt =====
-- The documents of certificates and profiles, and what they are mapped to
-- (crates/stack_core/src/providers/appstore/client.rs, crates/stack_core/src/domain.rs).
use stack_connect_core.Prelude.{String, Bool, Option, none, some, List, and_then, or_empty}
use stack_connect_core.Prelude.Table.{Table, lookup}
use stack_connect_core.Paging.{Links, ToOneRelationship}

pub record CertificateAttributes : Type 0 where
  pub display_name : Option String
  pub name : Option String
  pub certificate_type : Option String
  pub platform : Option String
  pub serial_number : Option String
  pub expiration_date : Option String
  pub activated : Bool
  pub certificate_content : Option String

pub record CertificateResource : Type 0 where
  pub id : String
  pub attributes : CertificateAttributes

pub record CertificatesResponse : Type 0 where
  pub resources : List CertificateResource
  pub links : Links

pub record CertificateDocument : Type 0 where
  pub resource : CertificateResource

pub record CertificateInfo : Type 0 where
  pub id : String
  pub display_name : String
  pub name : String
  pub certificate_type : String
  pub platform : Option String
  pub serial_number : Option String
  pub expiration_date : Option String
  pub is_activated : Bool
  pub certificate_content : Option String

pub record ProfileAttributes : Type 0 where
  pub name : Option String
  pub profile_type : Option String
  pub profile_state : Option String
  pub platform : Option String
  pub uuid : Option String
  pub created_date : Option String
  pub expiration_date : Option String
  pub profile_content : Option String

pub record ProfileRelationships : Type 0 where
  pub bundle_id : ToOneRelationship

pub record ProfileResource : Type 0 where
  pub id : String
  pub attributes : ProfileAttributes
  pub relationships : ProfileRelationships

pub record ProfileBundleIdAttributes : Type 0 where
  pub identifier : Option String

pub data ProfileIncluded : Type 0 where
  bundle_ids : String → ProfileBundleIdAttributes → ProfileIncluded
  other : ProfileIncluded

pub record ProfilesResponse : Type 0 where
  pub resources : List ProfileResource
  pub included : List ProfileIncluded
  pub links : Links

pub record ProfileDocument : Type 0 where
  pub resource : ProfileResource

pub record ProvisioningProfileInfo : Type 0 where
  pub id : String
  pub name : String
  pub profile_type : String
  pub profile_state : String
  pub platform : Option String
  pub uuid : Option String
  pub bundle_id : Option String
  pub created_date : Option String
  pub expiration_date : Option String
  pub profile_content : Option String

unfoldable pub into_certificate_info : CertificateResource → CertificateInfo
into_certificate_info r = record {
  id = r.id;
  display_name = or_empty r.attributes.display_name;
  name = or_empty r.attributes.name;
  certificate_type = or_empty r.attributes.certificate_type;
  platform = r.attributes.platform;
  serial_number = r.attributes.serial_number;
  expiration_date = r.attributes.expiration_date;
  is_activated = r.attributes.activated;
  certificate_content = r.attributes.certificate_content;
}

abbrev pub flatten : Option (Option String) → Option String
flatten none = none
flatten (some o) = o

unfoldable pub into_profile_info : ProfileResource → Table (Option String) → ProvisioningProfileInfo
into_profile_info r included_bundle_ids = record {
  id = r.id;
  name = or_empty r.attributes.name;
  profile_type = or_empty r.attributes.profile_type;
  profile_state = or_empty r.attributes.profile_state;
  platform = r.attributes.platform;
  uuid = r.attributes.uuid;
  bundle_id =
      and_then r.relationships.bundle_id.resource
        (λ rel. flatten (lookup rel.id included_bundle_ids));
  created_date = r.attributes.created_date;
  expiration_date = r.attributes.expiration_date;
  profile_content = r.attributes.profile_content;
}
