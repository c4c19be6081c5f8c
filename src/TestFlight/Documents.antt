-- ===== src/TestFlight/Documents.antt =====
-- The documents of TestFlight and what they are mapped to
-- (crates/stack_core/src/providers/appstore/client.rs, crates/stack_core/src/domain.rs).
use mathlib.Core.Option
use stack_connect_core.Prelude.{ℕ, String, Bool, Option, none, some, List, and_then, or_empty}
use stack_connect_core.Error.{Parsed}
use stack_connect_core.Paging.{Links, ResourceIdentifier}
use stack_connect_core.Builds.{
  BetaGroupResource, BetaGroupInfo, BetaBuildLocalizationResource, BetaBuildLocalizationInfo,
}

pub record BetaGroupsResponse : Type 0 where
  pub resources : List BetaGroupResource
  pub links : Links

pub record BetaGroupDocument : Type 0 where
  pub resource : BetaGroupResource

pub record BetaTesterAttributes : Type 0 where
  pub first_name : Option String
  pub last_name : Option String
  pub email : Option String
  pub invite_type : Option String
  pub state : Option String

pub record BetaTesterResource : Type 0 where
  pub id : String
  pub attributes : BetaTesterAttributes

pub record BetaTestersResponse : Type 0 where
  pub resources : List BetaTesterResource
  pub links : Links

pub record BetaTesterDocument : Type 0 where
  pub resource : BetaTesterResource

pub record Paging : Type 0 where
  pub total : ℕ

pub record Meta : Type 0 where
  pub paging : Option Paging

pub record BetaTestersCountResponse : Type 0 where
  pub meta : Option Meta

pub record BetaTesterInfo : Type 0 where
  pub id : String
  pub first_name : Option String
  pub last_name : Option String
  pub email : Option String
  pub invite_type : Option String
  pub state : Option String

pub record BetaBuildLocalizationsResponse : Type 0 where
  pub resources : List BetaBuildLocalizationResource
  pub links : Links

pub record BetaBuildLocalizationDocument : Type 0 where
  pub resource : BetaBuildLocalizationResource

pub record BetaAppLocalizationAttributes : Type 0 where
  pub locale : Option String
  pub feedback_email : Option String
  pub description : Option String

pub record BetaAppLocalizationResource : Type 0 where
  pub id : String
  pub attributes : BetaAppLocalizationAttributes

pub record BetaAppLocalizationsResponse : Type 0 where
  pub resources : List BetaAppLocalizationResource
  pub links : Links

pub record BetaAppLocalizationDocument : Type 0 where
  pub resource : BetaAppLocalizationResource

pub record BetaAppLocalizationInfo : Type 0 where
  pub id : String
  pub locale : String
  pub feedback_email : Option String
  pub description : Option String

pub record BetaAppReviewDetailAttributes : Type 0 where
  pub contact_first_name : Option String
  pub contact_last_name : Option String
  pub contact_email : Option String
  pub contact_phone : Option String
  pub demo_account_name : Option String
  pub demo_account_password : Option String
  pub is_demo_account_required : Option Bool
  pub notes : Option String

pub record BetaAppReviewDetailResource : Type 0 where
  pub id : String
  pub attributes : BetaAppReviewDetailAttributes

pub record BetaAppReviewDetailDocument : Type 0 where
  pub resource : BetaAppReviewDetailResource

pub record BetaAppReviewDetailInfo : Type 0 where
  pub id : String
  pub contact_first_name : Option String
  pub contact_last_name : Option String
  pub contact_email : Option String
  pub contact_phone : Option String
  pub demo_account_name : Option String
  pub demo_account_password : Option String
  pub is_demo_account_required : Option Bool
  pub notes : Option String

unfoldable pub into_beta_group_info : BetaGroupResource → String → BetaGroupInfo
into_beta_group_info r app_id = record {
  id = r.id;
  app_id = app_id;
  name = r.attributes.name;
  created_date = r.attributes.created_date;
  is_internal_group = r.attributes.is_internal_group;
  has_access_to_all_builds = r.attributes.has_access_to_all_builds;
  public_link_enabled = r.attributes.public_link_enabled;
  public_link = r.attributes.public_link;
  feedback_enabled = r.attributes.feedback_enabled;
}

unfoldable pub into_beta_group_info_inferring_app : BetaGroupResource → BetaGroupInfo
unfolding into_beta_group_info
into_beta_group_info_inferring_app r =
    into_beta_group_info r
      (or_empty (Option.map (λ (rel : ResourceIdentifier). rel.id) r.relationships.app.resource))

abbrev or_zero : Option ℕ → ℕ
or_zero none = 0
or_zero (some n) = n

unfoldable pub total : BetaTestersCountResponse → ℕ
total r = or_zero (Option.map (λ (p : Paging). p.total) (and_then r.meta (λ m. m.paging)))

unfoldable pub into_beta_tester_info : BetaTesterResource → BetaTesterInfo
into_beta_tester_info r = record {
  id = r.id;
  first_name = r.attributes.first_name;
  last_name = r.attributes.last_name;
  email = r.attributes.email;
  invite_type = r.attributes.invite_type;
  state = r.attributes.state;
}

unfoldable pub into_beta_build_localization_info :
    BetaBuildLocalizationResource → BetaBuildLocalizationInfo
into_beta_build_localization_info r = record {
  id = r.id;
  locale = or_empty r.attributes.locale;
  whats_new = r.attributes.whats_new;
}

unfoldable pub into_beta_app_localization_info :
    BetaAppLocalizationResource → BetaAppLocalizationInfo
into_beta_app_localization_info r = record {
  id = r.id;
  locale = or_empty r.attributes.locale;
  feedback_email = r.attributes.feedback_email;
  description = r.attributes.description;
}

unfoldable pub into_beta_app_review_detail_info :
    BetaAppReviewDetailResource → BetaAppReviewDetailInfo
into_beta_app_review_detail_info r = record {
  id = r.id;
  contact_first_name = r.attributes.contact_first_name;
  contact_last_name = r.attributes.contact_last_name;
  contact_email = r.attributes.contact_email;
  contact_phone = r.attributes.contact_phone;
  demo_account_name = r.attributes.demo_account_name;
  demo_account_password = r.attributes.demo_account_password;
  is_demo_account_required = r.attributes.is_demo_account_required;
  notes = r.attributes.notes;
}

pub record Decoders : Type 0 where
  pub groups : String → Parsed BetaGroupsResponse
  pub group : String → Parsed BetaGroupDocument
  pub testers : String → Parsed BetaTestersResponse
  pub tester : String → Parsed BetaTesterDocument
  pub tester_count : String → Parsed BetaTestersCountResponse
  pub build_localizations : String → Parsed BetaBuildLocalizationsResponse
  pub build_localization : String → Parsed BetaBuildLocalizationDocument
  pub app_localizations : String → Parsed BetaAppLocalizationsResponse
  pub app_localization : String → Parsed BetaAppLocalizationDocument
  pub review_detail : String → Parsed BetaAppReviewDetailDocument
