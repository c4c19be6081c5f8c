-- ===== src/Listing/Details.antt =====
-- The documents of an app's information and what they are mapped to
-- (crates/stack_core/src/providers/appstore/client.rs, crates/stack_core/src/domain.rs).
use stack_connect_core.Prelude.{String, Bool, Option, List, map}
use stack_connect_core.Paging.{Links, ResourceIdentifier, ToOneRelationship}
use stack_connect_core.Builds.{ToManyRelationship}
use stack_connect_core.Listing.Documents.{AppInfoLocalizationResource, AppInfoLocalizationInfo}

pub record AgeRatingDeclarationAttributes : Type 0 where
  pub alcohol_tobacco_or_drug_use_or_references : Option String
  pub contests : Option String
  pub gambling_simulated : Option String
  pub guns_or_other_weapons : Option String
  pub medical_or_treatment_information : Option String
  pub profanity_or_crude_humor : Option String
  pub sexual_content_graphic_and_nudity : Option String
  pub sexual_content_or_nudity : Option String
  pub horror_or_fear_themes : Option String
  pub mature_or_suggestive_themes : Option String
  pub violence_cartoon_or_fantasy : Option String
  pub violence_realistic : Option String
  pub violence_realistic_prolonged_graphic_or_sadistic : Option String
  pub is_advertising : Option Bool
  pub is_gambling : Option Bool
  pub is_unrestricted_web_access : Option Bool
  pub is_user_generated_content : Option Bool
  pub age_rating_override_v2 : Option String

pub record AgeRatingDeclarationResource : Type 0 where
  pub id : String
  pub attributes : AgeRatingDeclarationAttributes

pub record AgeRatingDeclarationInfo : Type 0 where
  pub id : String
  pub alcohol_tobacco_or_drug_use_or_references : Option String
  pub contests : Option String
  pub gambling_simulated : Option String
  pub guns_or_other_weapons : Option String
  pub medical_or_treatment_information : Option String
  pub profanity_or_crude_humor : Option String
  pub sexual_content_graphic_and_nudity : Option String
  pub sexual_content_or_nudity : Option String
  pub horror_or_fear_themes : Option String
  pub mature_or_suggestive_themes : Option String
  pub violence_cartoon_or_fantasy : Option String
  pub violence_realistic : Option String
  pub violence_realistic_prolonged_graphic_or_sadistic : Option String
  pub is_advertising : Option Bool
  pub is_gambling : Option Bool
  pub is_unrestricted_web_access : Option Bool
  pub is_user_generated_content : Option Bool
  pub age_rating_override_v2 : Option String

pub record AppInfoResourceAttributes : Type 0 where
  pub app_store_age_rating : Option String

pub record AppInfoResourceRelationships : Type 0 where
  pub primary_category : ToOneRelationship
  pub primary_subcategory_one : ToOneRelationship
  pub secondary_category : ToOneRelationship
  pub secondary_subcategory_one : ToOneRelationship
  pub age_rating_declaration : ToOneRelationship

pub record AppInfoResource : Type 0 where
  pub id : String
  pub attributes : AppInfoResourceAttributes
  pub relationships : AppInfoResourceRelationships

pub data AppInfoIncluded : Type 0 where
  app_info_localizations : AppInfoLocalizationResource → AppInfoIncluded
  age_rating_declarations : AgeRatingDeclarationResource → AppInfoIncluded
  other : AppInfoIncluded

pub record AppInfosResponse : Type 0 where
  pub resources : List AppInfoResource
  pub included : List AppInfoIncluded

pub record AppDetailAttributes : Type 0 where
  pub sku : Option String
  pub primary_locale : Option String
  pub content_rights_declaration : Option String

pub record AppDetailResource : Type 0 where
  pub attributes : AppDetailAttributes

pub record AppDetailDocument : Type 0 where
  pub resource : AppDetailResource

pub record AppInfoDetails : Type 0 where
  pub app_info_id : String
  pub app_id : String
  pub sku : Option String
  pub primary_locale : Option String
  pub content_rights_declaration : Option String
  pub primary_category_id : Option String
  pub primary_subcategory_one_id : Option String
  pub secondary_category_id : Option String
  pub secondary_subcategory_one_id : Option String
  pub age_rating_declaration_id : Option String
  pub app_store_age_rating : Option String
  pub localizations : List AppInfoLocalizationInfo
  pub age_rating : Option AgeRatingDeclarationInfo

pub record AppCategoryRelationships : Type 0 where
  pub subcategories : ToManyRelationship

pub record AppCategoryResource : Type 0 where
  pub id : String
  pub relationships : AppCategoryRelationships

pub record AppCategoriesResponse : Type 0 where
  pub resources : List AppCategoryResource
  pub links : Links

pub record AppCategoryInfo : Type 0 where
  pub id : String
  pub subcategory_ids : List String

pub record AppReviewDetailAttributes : Type 0 where
  pub contact_first_name : Option String
  pub contact_last_name : Option String
  pub contact_email : Option String
  pub contact_phone : Option String
  pub notes : Option String
  pub demo_account_name : Option String
  pub demo_account_password : Option String
  pub is_demo_account_required : Option Bool

pub record AppReviewDetailResource : Type 0 where
  pub id : String
  pub attributes : AppReviewDetailAttributes

pub record AppReviewDetailDocument : Type 0 where
  pub resource : Option AppReviewDetailResource

pub record AppReviewDetailInfo : Type 0 where
  pub id : String
  pub contact_first_name : Option String
  pub contact_last_name : Option String
  pub contact_email : Option String
  pub contact_phone : Option String
  pub notes : Option String
  pub demo_account_name : Option String
  pub demo_account_password : Option String
  pub is_demo_account_required : Option Bool

unfoldable pub into_age_rating_declaration_info :
    AgeRatingDeclarationResource → AgeRatingDeclarationInfo
into_age_rating_declaration_info r = record {
  id = r.id;
  alcohol_tobacco_or_drug_use_or_references =
      r.attributes.alcohol_tobacco_or_drug_use_or_references;
  contests = r.attributes.contests;
  gambling_simulated = r.attributes.gambling_simulated;
  guns_or_other_weapons = r.attributes.guns_or_other_weapons;
  medical_or_treatment_information = r.attributes.medical_or_treatment_information;
  profanity_or_crude_humor = r.attributes.profanity_or_crude_humor;
  sexual_content_graphic_and_nudity = r.attributes.sexual_content_graphic_and_nudity;
  sexual_content_or_nudity = r.attributes.sexual_content_or_nudity;
  horror_or_fear_themes = r.attributes.horror_or_fear_themes;
  mature_or_suggestive_themes = r.attributes.mature_or_suggestive_themes;
  violence_cartoon_or_fantasy = r.attributes.violence_cartoon_or_fantasy;
  violence_realistic = r.attributes.violence_realistic;
  violence_realistic_prolonged_graphic_or_sadistic =
      r.attributes.violence_realistic_prolonged_graphic_or_sadistic;
  is_advertising = r.attributes.is_advertising;
  is_gambling = r.attributes.is_gambling;
  is_unrestricted_web_access = r.attributes.is_unrestricted_web_access;
  is_user_generated_content = r.attributes.is_user_generated_content;
  age_rating_override_v2 = r.attributes.age_rating_override_v2;
}

unfoldable pub into_app_category_info : AppCategoryResource → AppCategoryInfo
into_app_category_info r = record {
  id = r.id;
  subcategory_ids =
      map (λ (rel : ResourceIdentifier). rel.id) r.relationships.subcategories.resources;
}

unfoldable pub into_app_review_detail_info : AppReviewDetailResource → AppReviewDetailInfo
into_app_review_detail_info r = record {
  id = r.id;
  contact_first_name = r.attributes.contact_first_name;
  contact_last_name = r.attributes.contact_last_name;
  contact_email = r.attributes.contact_email;
  contact_phone = r.attributes.contact_phone;
  notes = r.attributes.notes;
  demo_account_name = r.attributes.demo_account_name;
  demo_account_password = r.attributes.demo_account_password;
  is_demo_account_required = r.attributes.is_demo_account_required;
}
