-- ===== src/Signing/Documents.antt =====
-- The documents of devices and bundle ids, and what they are mapped to
-- (crates/stack_core/src/providers/appstore/client.rs, crates/stack_core/src/domain.rs).
use mathlib.Core.Option
use stack_connect_core.Prelude.{String, not, Option, none, some, List, ◌==◌, keep_if, or_empty}
use stack_connect_core.Paging.{Links}

pub record DeviceAttributes : Type 0 where
  pub name : Option String
  pub udid : Option String
  pub platform : Option String
  pub device_class : Option String
  pub model : Option String
  pub status : Option String
  pub added_date : Option String

pub record DeviceResource : Type 0 where
  pub id : String
  pub attributes : DeviceAttributes

pub record DevicesResponse : Type 0 where
  pub resources : List DeviceResource
  pub links : Links

pub record DeviceDocument : Type 0 where
  pub resource : DeviceResource

pub record DeviceInfo : Type 0 where
  pub id : String
  pub name : String
  pub udid : Option String
  pub platform : Option String
  pub device_class : Option String
  pub model : Option String
  pub status : String
  pub added_date : Option String

pub record BundleIdAttributes : Type 0 where
  pub identifier : Option String
  pub name : Option String
  pub platform : Option String
  pub seed_id : Option String

pub record BundleIdResource : Type 0 where
  pub id : String
  pub attributes : BundleIdAttributes

pub record BundleIdsResponse : Type 0 where
  pub resources : List BundleIdResource
  pub links : Links

pub record BundleIdDocument : Type 0 where
  pub resource : BundleIdResource

pub record BundleIdInfo : Type 0 where
  pub id : String
  pub identifier : String
  pub name : String
  pub platform : String
  pub seed_id : Option String

pub record BundleIdCapabilityAttributes : Type 0 where
  pub capability_type : Option String

pub record BundleIdCapabilityResource : Type 0 where
  pub id : String
  pub attributes : BundleIdCapabilityAttributes

pub record BundleIdCapabilitiesResponse : Type 0 where
  pub resources : List BundleIdCapabilityResource
  pub links : Links

pub record BundleIdCapabilityDocument : Type 0 where
  pub resource : BundleIdCapabilityResource

pub record BundleIdCapabilityInfo : Type 0 where
  pub id : String
  pub capability_type : String

abbrev or_enabled : Option String → String
or_enabled none = "ENABLED"
or_enabled (some status) = status

unfoldable pub into_device_info : DeviceResource → DeviceInfo
into_device_info r = record {
  id = r.id;
  name = or_empty r.attributes.name;
  udid = r.attributes.udid;
  platform = r.attributes.platform;
  device_class = r.attributes.device_class;
  model = r.attributes.model;
  status = or_enabled r.attributes.status;
  added_date = r.attributes.added_date;
}

unfoldable pub into_bundle_id_info : BundleIdResource → BundleIdInfo
into_bundle_id_info r = record {
  id = r.id;
  identifier = or_empty r.attributes.identifier;
  name = or_empty r.attributes.name;
  platform = or_empty r.attributes.platform;
  seed_id = r.attributes.seed_id;
}

-- `None` without a type, which the callers skip.
unfoldable pub into_capability_info : BundleIdCapabilityResource → Option BundleIdCapabilityInfo
into_capability_info r =
    Option.map (λ capability_type. record { id = r.id; capability_type = capability_type })
      (keep_if (λ t. not (t == "")) r.attributes.capability_type)
