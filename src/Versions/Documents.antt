-- ===== src/Versions/Documents.antt =====
-- The documents of app store versions and of phased releases, and what they are mapped to
-- (crates/stack_core/src/providers/appstore/client.rs, crates/stack_core/src/domain.rs).
use stack_connect_core.Prelude.{ℤ, String, Option, List}
use stack_connect_core.Error.{Parsed}

pub record AppStoreVersionResourceAttributes : Type 0 where
  pub platform : Option String
  pub app_store_state : Option String
  pub app_version_state : Option String
  pub version_string : Option String
  pub copyright : Option String
  pub release_type : Option String
  pub created_date : Option String

pub record AppStoreVersionResource : Type 0 where
  pub id : String
  pub attributes : AppStoreVersionResourceAttributes

pub record AppStoreVersionsResponse : Type 0 where
  pub resources : List AppStoreVersionResource

pub record AppStoreVersionDocument : Type 0 where
  pub resource : AppStoreVersionResource

pub record PhasedReleaseResourceAttributes : Type 0 where
  pub phased_release_state : Option String
  pub start_date : Option String
  pub total_pause_duration : Option ℤ
  pub current_day_number : Option ℤ

pub record PhasedReleaseResource : Type 0 where
  pub id : String
  pub attributes : PhasedReleaseResourceAttributes

pub record PhasedReleaseDocument : Type 0 where
  pub resource : Option PhasedReleaseResource

pub record AppStoreVersionInfo : Type 0 where
  pub id : String
  pub app_id : String
  pub platform : Option String
  pub app_store_state : Option String
  pub app_version_state : Option String
  pub version_string : Option String
  pub copyright : Option String
  pub release_type : Option String
  pub created_date : Option String

pub record PhasedReleaseInfo : Type 0 where
  pub id : String
  pub state : Option String
  pub start_date : Option String
  pub total_pause_duration : Option ℤ
  pub current_day_number : Option ℤ

unfoldable pub into_version_info : AppStoreVersionResource → String → AppStoreVersionInfo
into_version_info r app_id = record {
  id = r.id;
  app_id = app_id;
  platform = r.attributes.platform;
  app_store_state = r.attributes.app_store_state;
  app_version_state = r.attributes.app_version_state;
  version_string = r.attributes.version_string;
  copyright = r.attributes.copyright;
  release_type = r.attributes.release_type;
  created_date = r.attributes.created_date;
}

unfoldable pub into_phased_release_info : PhasedReleaseResource → PhasedReleaseInfo
into_phased_release_info r = record {
  id = r.id;
  state = r.attributes.phased_release_state;
  start_date = r.attributes.start_date;
  total_pause_duration = r.attributes.total_pause_duration;
  current_day_number = r.attributes.current_day_number;
}

pub record Decoders : Type 0 where
  pub versions : String → Parsed AppStoreVersionsResponse
  pub version : String → Parsed AppStoreVersionDocument
  pub phased_release : String → Parsed PhasedReleaseDocument
