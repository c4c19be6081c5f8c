-- ===== src/Listing.antt =====
-- What the store shows of an app (crates/stack_core/src/providers/appstore/client.rs): its
-- localizations, its accessibility, its information with the age rating, and the contact of its
-- reviewers.
mod Documents
mod Details
pub mod Localizations
pub mod Bodies
pub mod Info
pub mod Included
unfoldable pub use Documents.*
unfoldable pub use Details.*
use stack_connect_core.Prelude.{String}
use stack_connect_core.Error.{Parsed}
use stack_connect_core.Builds.{BuildsResponse}

pub record Decoders : Type 0 where
  pub app_info_localizations : String → Parsed AppInfoLocalizationsResponse
  pub app_info_localization : String → Parsed AppInfoLocalizationDocument
  pub localizations : String → Parsed AppStoreLocalizationsResponse
  pub declarations : String → Parsed AccessibilityDeclarationsResponse
  pub declaration : String → Parsed AccessibilityDeclarationDocument
  pub app_infos : String → Parsed AppInfosResponse
  pub app_detail : String → Parsed AppDetailDocument
  pub categories : String → Parsed AppCategoriesResponse
  pub builds : String → Parsed BuildsResponse
  pub review_detail : String → Parsed AppReviewDetailDocument
