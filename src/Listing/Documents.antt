-- ===== src/Listing/Documents.antt =====
-- The documents of an app's store listing and what they are mapped to: localizations and
-- accessibility (crates/stack_core/src/providers/appstore/client.rs,
-- crates/stack_core/src/domain.rs).
use stack_connect_core.Prelude.{String, Bool, Option, List, or_empty, or_false}
use stack_connect_core.Paging.{Links}

pub record AppInfoLocalizationAttributes : Type 0 where
  pub locale : Option String
  pub name : Option String
  pub subtitle : Option String
  pub privacy_policy_url : Option String
  pub privacy_choices_url : Option String
  pub privacy_policy_text : Option String

pub record AppInfoLocalizationResource : Type 0 where
  pub id : String
  pub attributes : AppInfoLocalizationAttributes

pub record AppInfoLocalizationsResponse : Type 0 where
  pub resources : List AppInfoLocalizationResource
  pub links : Links

pub record AppInfoLocalizationDocument : Type 0 where
  pub resource : AppInfoLocalizationResource

pub record AppInfoLocalizationInfo : Type 0 where
  pub id : String
  pub locale : String
  pub name : Option String
  pub subtitle : Option String
  pub privacy_policy_url : Option String
  pub privacy_choices_url : Option String
  pub privacy_policy_text : Option String

pub record AppStoreLocalizationAttributes : Type 0 where
  pub locale : Option String
  pub description : Option String
  pub keywords : Option String
  pub promotional_text : Option String
  pub support_url : Option String
  pub marketing_url : Option String
  pub whats_new : Option String

pub record AppStoreLocalizationResource : Type 0 where
  pub id : String
  pub attributes : AppStoreLocalizationAttributes

pub record AppStoreLocalizationsResponse : Type 0 where
  pub resources : List AppStoreLocalizationResource
  pub links : Links

pub record AppStoreLocalizationInfo : Type 0 where
  pub id : String
  pub locale : Option String
  pub description : Option String
  pub keywords : Option String
  pub promotional_text : Option String
  pub support_url : Option String
  pub marketing_url : Option String
  pub whats_new : Option String

pub record AccessibilityDeclarationAttributes : Type 0 where
  pub device_family : Option String
  pub state : Option String
  pub supports_audio_descriptions : Option Bool
  pub supports_captions : Option Bool
  pub supports_dark_interface : Option Bool
  pub supports_differentiate_without_color : Option Bool
  pub supports_larger_text : Option Bool
  pub supports_reduced_motion : Option Bool
  pub supports_sufficient_contrast : Option Bool
  pub supports_voice_control : Option Bool
  pub supports_voiceover : Option Bool

pub record AccessibilityDeclarationResource : Type 0 where
  pub id : String
  pub attributes : AccessibilityDeclarationAttributes

pub record AccessibilityDeclarationsResponse : Type 0 where
  pub resources : List AccessibilityDeclarationResource
  pub links : Links

pub record AccessibilityDeclarationDocument : Type 0 where
  pub resource : AccessibilityDeclarationResource

pub record AccessibilityDeclarationInfo : Type 0 where
  pub id : String
  pub device_family : String
  pub state : Option String
  pub supports_audio_descriptions : Bool
  pub supports_captions : Bool
  pub supports_dark_interface : Bool
  pub supports_differentiate_without_color : Bool
  pub supports_larger_text : Bool
  pub supports_reduced_motion : Bool
  pub supports_sufficient_contrast : Bool
  pub supports_voice_control : Bool
  pub supports_voiceover : Bool

unfoldable pub into_app_info_localization_info :
    AppInfoLocalizationResource → AppInfoLocalizationInfo
into_app_info_localization_info r = record {
  id = r.id;
  locale = or_empty r.attributes.locale;
  name = r.attributes.name;
  subtitle = r.attributes.subtitle;
  privacy_policy_url = r.attributes.privacy_policy_url;
  privacy_choices_url = r.attributes.privacy_choices_url;
  privacy_policy_text = r.attributes.privacy_policy_text;
}

unfoldable pub to_app_info_localization_info : AppInfoLocalizationResource → AppInfoLocalizationInfo
to_app_info_localization_info r = record {
  id = r.id;
  locale = or_empty r.attributes.locale;
  name = r.attributes.name;
  subtitle = r.attributes.subtitle;
  privacy_policy_url = r.attributes.privacy_policy_url;
  privacy_choices_url = r.attributes.privacy_choices_url;
  privacy_policy_text = r.attributes.privacy_policy_text;
}

unfoldable pub into_app_store_localization_info :
    AppStoreLocalizationResource → AppStoreLocalizationInfo
into_app_store_localization_info r = record {
  id = r.id;
  locale = r.attributes.locale;
  description = r.attributes.description;
  keywords = r.attributes.keywords;
  promotional_text = r.attributes.promotional_text;
  support_url = r.attributes.support_url;
  marketing_url = r.attributes.marketing_url;
  whats_new = r.attributes.whats_new;
}

unfoldable pub into_accessibility_declaration_info :
    AccessibilityDeclarationResource → AccessibilityDeclarationInfo
into_accessibility_declaration_info r = record {
  id = r.id;
  device_family = or_empty r.attributes.device_family;
  state = r.attributes.state;
  supports_audio_descriptions = or_false r.attributes.supports_audio_descriptions;
  supports_captions = or_false r.attributes.supports_captions;
  supports_dark_interface = or_false r.attributes.supports_dark_interface;
  supports_differentiate_without_color = or_false r.attributes.supports_differentiate_without_color;
  supports_larger_text = or_false r.attributes.supports_larger_text;
  supports_reduced_motion = or_false r.attributes.supports_reduced_motion;
  supports_sufficient_contrast = or_false r.attributes.supports_sufficient_contrast;
  supports_voice_control = or_false r.attributes.supports_voice_control;
  supports_voiceover = or_false r.attributes.supports_voiceover;
}
