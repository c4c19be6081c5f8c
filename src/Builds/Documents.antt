-- ===== src/Builds/Documents.antt =====
-- The documents of builds and what they are mapped to
-- (crates/stack_core/src/providers/appstore/client.rs, crates/stack_core/src/domain.rs).
use stack_connect_core.Prelude.{ℕ, String, Bool, Option, List}
use stack_connect_core.Prelude.Table.{Table}
use stack_connect_core.Error.{Parsed}
use stack_connect_core.Paging.{Links, ResourceIdentifier, ToOneRelationship}

pub record IconAssetToken : Type 0 where
  pub template_url : Option String
  pub width : Option ℕ
  pub height : Option ℕ

pub record ToManyRelationship : Type 0 where
  pub resources : List ResourceIdentifier

pub record BuildRelationships : Type 0 where
  pub pre_release_version : ToOneRelationship
  pub build_beta_detail : ToOneRelationship
  pub beta_app_review_submission : ToOneRelationship
  pub beta_groups : ToManyRelationship
  pub beta_build_localizations : ToManyRelationship

pub record BuildAttributes : Type 0 where
  pub version : Option String
  pub uploaded_date : Option String
  pub expired : Option Bool
  pub processing_state : Option String
  pub min_os_version : Option String
  pub expiration_date : Option String
  pub computed_min_mac_os_version : Option String
  pub computed_min_vision_os_version : Option String
  pub build_audience_type : Option String
  pub uses_non_exempt_encryption : Option Bool
  pub icon_asset_token : Option IconAssetToken

pub record BuildResource : Type 0 where
  pub id : String
  pub attributes : BuildAttributes
  pub relationships : BuildRelationships

pub record PreReleaseVersionAttributes : Type 0 where
  pub version : Option String
  pub platform : Option String

pub record BuildBetaDetailAttributes : Type 0 where
  pub external_build_state : Option String
  pub internal_build_state : Option String
  pub auto_notify_enabled : Option Bool

pub record BetaAppReviewSubmissionAttributes : Type 0 where
  pub beta_review_state : Option String
  pub submitted_date : Option String

pub record BetaGroupAttributes : Type 0 where
  pub name : Option String
  pub created_date : Option String
  pub is_internal_group : Option Bool
  pub has_access_to_all_builds : Option Bool
  pub public_link_enabled : Option Bool
  pub public_link : Option String
  pub feedback_enabled : Option Bool

pub record BetaGroupRelationships : Type 0 where
  pub app : ToOneRelationship

pub record BetaGroupResource : Type 0 where
  pub id : String
  pub attributes : BetaGroupAttributes
  pub relationships : BetaGroupRelationships

pub record BetaBuildLocalizationAttributes : Type 0 where
  pub locale : Option String
  pub whats_new : Option String

pub record BetaBuildLocalizationResource : Type 0 where
  pub id : String
  pub attributes : BetaBuildLocalizationAttributes

pub data BuildIncluded : Type 0 where
  pre_release_version : String → PreReleaseVersionAttributes → BuildIncluded
  build_beta_detail : String → BuildBetaDetailAttributes → BuildIncluded
  beta_app_review_submission : String → BetaAppReviewSubmissionAttributes → BuildIncluded
  beta_group : BetaGroupResource → BuildIncluded
  beta_build_localization : BetaBuildLocalizationResource → BuildIncluded
  other : BuildIncluded

pub record IncludedIndex : Type 0 where
  pub pre_release_versions : Table PreReleaseVersionAttributes
  pub build_beta_details : Table BuildBetaDetailAttributes
  pub beta_app_review_submissions : Table BetaAppReviewSubmissionAttributes
  pub beta_groups : Table BetaGroupResource
  pub beta_build_localizations : Table BetaBuildLocalizationResource

pub record BuildsResponse : Type 0 where
  pub builds : List BuildResource
  pub included : List BuildIncluded
  pub links : Links

pub record BuildDocument : Type 0 where
  pub build : Option BuildResource
  pub included : List BuildIncluded

pub record BuildInfo : Type 0 where
  pub id : String
  pub app_id : String
  pub version : Option String
  pub uploaded_date : Option String
  pub expired : Option Bool
  pub processing_state : Option String
  pub min_os_version : Option String
  pub expiration_date : Option String
  pub marketing_version : Option String
  pub platform : Option String
  pub external_build_state : Option String
  pub internal_build_state : Option String
  pub auto_notify_enabled : Option Bool
  pub beta_review_state : Option String
  pub submitted_date : Option String
  pub computed_min_mac_os_version : Option String
  pub computed_min_vision_os_version : Option String
  pub build_audience_type : Option String
  pub uses_non_exempt_encryption : Option Bool
  pub icon_url : Option String

pub record BetaGroupInfo : Type 0 where
  pub id : String
  pub app_id : String
  pub name : Option String
  pub created_date : Option String
  pub is_internal_group : Option Bool
  pub has_access_to_all_builds : Option Bool
  pub public_link_enabled : Option Bool
  pub public_link : Option String
  pub feedback_enabled : Option Bool

pub record BetaBuildLocalizationInfo : Type 0 where
  pub id : String
  pub locale : String
  pub whats_new : Option String

pub record BuildDetailInfo : Type 0 where
  pub build : BuildInfo
  pub beta_groups : List BetaGroupInfo
  pub localizations : List BetaBuildLocalizationInfo

pub record BuildsPage : Type 0 where
  pub builds : List BuildInfo
  pub next_token : Option String

pub record Decoders : Type 0 where
  pub builds : String → Parsed BuildsResponse
  pub build : String → Parsed BuildDocument
