-- ===== src/Listing/Localizations.antt =====
-- The localizations of an app's information and of a version, and the accessibility declarations
-- (crates/stack_core/src/providers/appstore/client.rs).
use stack_connect_core.Prelude.{ℤ, ℕ, String, ◌<>◌, Bool, true, Option, List, map, if◌then◌else◌}
use stack_connect_core.Json.{Members, text, flag, member, end, to_one, member_if, changes, creation}
use stack_connect_core.Wire.{Host, M, pure, decoded, ◌>>=◌}
use stack_connect_core.Transport.{
  AppStoreClient, post_json_2xx, patch_json_2xx, patch_unit, delete_at,
}
use stack_connect_core.Paging.{fetch_all}
use stack_connect_core.Screenshots.{int_to_string}
use stack_connect_core.Listing.{
  Decoders, AppInfoLocalizationInfo, AppStoreLocalizationInfo, AccessibilityDeclarationInfo,
  into_app_info_localization_info, into_app_store_localization_info,
  into_accessibility_declaration_info,
}

abbrev pub name_attributes : String → Option String → Members
name_attributes name subtitle = member "name" (text name) (member_if "subtitle" subtitle end)

abbrev pub privacy_attributes : Option String → Option String → Option String → Members
privacy_attributes policy_url choices_url policy_text =
    member_if "privacyPolicyUrl" policy_url
      (member_if "privacyChoicesUrl" choices_url (member_if "privacyPolicyText" policy_text end))

abbrev pub localization_attributes :
    Option String
    → Option String
    → Option String
    → Option String
    → Option String
    → Option String
    → Members
localization_attributes description keywords promotional_text support_url marketing_url whats_new =
    member_if "description" description (
      member_if "keywords" keywords (
        member_if "promotionalText" promotional_text (
          member_if "supportUrl" support_url
            (member_if "marketingUrl" marketing_url (member_if "whatsNew" whats_new end)))))

-- The arguments `supports_…` of `update_accessibility_declaration`.
pub record Supports : Type 0 where
  pub audio_descriptions : Bool
  pub captions : Bool
  pub dark_interface : Bool
  pub differentiate_without_color : Bool
  pub larger_text : Bool
  pub reduced_motion : Bool
  pub sufficient_contrast : Bool
  pub voice_control : Bool
  pub voiceover : Bool

abbrev supports_attributes : Supports → Members
supports_attributes s = member "supportsAudioDescriptions" (flag s.audio_descriptions) (
    member "supportsCaptions" (flag s.captions) (
      member "supportsDarkInterface" (flag s.dark_interface) (
        member "supportsDifferentiateWithoutColorAlone" (flag s.differentiate_without_color) (
          member "supportsLargerText" (flag s.larger_text) (
            member "supportsReducedMotion" (flag s.reduced_motion) (
              member "supportsSufficientContrast" (flag s.sufficient_contrast) (
                member "supportsVoiceControl" (flag s.voice_control)
                  (member "supportsVoiceover" (flag s.voiceover) end))))))))

-- Only a publication mentions `publish`.
abbrev pub declaration_attributes : Bool → Supports → Members
declaration_attributes publish s =
    if publish then member "publish" (flag true) (supports_attributes s) else supports_attributes s

module _ {H : Host} (D : Decoders) (c : AppStoreClient) where
  unfoldable pub fetch_app_info_localizations : ℕ → String → M H (List AppInfoLocalizationInfo)
  fetch_app_info_localizations fuel app_info_id =
      fetch_all c "app info localizations response: " D.app_info_localizations
        (λ page. map into_app_info_localization_info page.resources) (λ page. page.links) fuel
        (c.base_url <> "/v1/appInfos/" <> app_info_id <> "/appInfoLocalizations")

  abbrev changed_localization : String → Members → M H AppInfoLocalizationInfo
  changed_localization id attributes = do
    body ←
        patch_json_2xx c (c.base_url <> "/v1/appInfoLocalizations/" <> id)
          (changes "appInfoLocalizations" id attributes)
    changed ← decoded "app info localization response: " (D.app_info_localization body)
    pure (into_app_info_localization_info changed.resource)

  unfoldable pub update_app_info_localization :
      String → String → Option String → M H AppInfoLocalizationInfo
  update_app_info_localization id name subtitle =
      changed_localization id (name_attributes name subtitle)

  unfoldable pub update_app_info_localization_privacy :
      String → Option String → Option String → Option String → M H AppInfoLocalizationInfo
  update_app_info_localization_privacy id policy_url choices_url policy_text =
      changed_localization id (privacy_attributes policy_url choices_url policy_text)

  unfoldable pub create_app_info_localization :
      String → String → String → Option String → M H AppInfoLocalizationInfo
  create_app_info_localization app_info_id locale name subtitle = do
    body ← post_json_2xx c (c.base_url <> "/v1/appInfoLocalizations") (
        creation "appInfoLocalizations"
          (member "locale" (text locale) (name_attributes name subtitle))
          (member "appInfo" (to_one "appInfos" app_info_id) end))
    made ← decoded "app info localization response: " (D.app_info_localization body)
    pure (into_app_info_localization_info made.resource)

  unfoldable pub fetch_localizations : ℕ → String → M H (List AppStoreLocalizationInfo)
  fetch_localizations fuel version_id =
      fetch_all c "app store version localizations response: " D.localizations
        (λ page. map into_app_store_localization_info page.resources) (λ page. page.links) fuel
        (c.base_url <> "/v1/appStoreVersions/" <> version_id <> "/appStoreVersionLocalizations")

  unfoldable pub fetch_accessibility_declarations :
      ℕ → String → ℤ → M H (List AccessibilityDeclarationInfo)
  fetch_accessibility_declarations fuel app_id limit =
      fetch_all c "accessibility declarations response: " D.declarations
        (λ page. map into_accessibility_declaration_info page.resources) (λ page. page.links) fuel
        (c.base_url
          <> "/v1/apps/"
          <> app_id
          <> "/accessibilityDeclarations?limit="
          <> int_to_string limit)

  unfoldable pub create_accessibility_declaration :
      String → String → M H AccessibilityDeclarationInfo
  create_accessibility_declaration app_id device_family = do
    body ← post_json_2xx c (c.base_url <> "/v1/accessibilityDeclarations") (
        creation "accessibilityDeclarations" (member "deviceFamily" (text device_family) end)
          (member "app" (to_one "apps" app_id) end))
    made ← decoded "accessibility declaration response: " (D.declaration body)
    pure (into_accessibility_declaration_info made.resource)

  unfoldable pub update_accessibility_declaration :
      String → Bool → Supports → M H AccessibilityDeclarationInfo
  update_accessibility_declaration id publish supports = do
    body ←
        patch_json_2xx c (c.base_url <> "/v1/accessibilityDeclarations/" <> id)
          (changes "accessibilityDeclarations" id (declaration_attributes publish supports))
    changed ← decoded "accessibility declaration response: " (D.declaration body)
    pure (into_accessibility_declaration_info changed.resource)

module _ {H : Host} (c : AppStoreClient) where
  unfoldable pub delete_app_info_localization : String → M H (Unit {0})
  delete_app_info_localization id = delete_at c (c.base_url <> "/v1/appInfoLocalizations/" <> id)

  unfoldable pub update_localization :
      String
      → Option String
      → Option String
      → Option String
      → Option String
      → Option String
      → Option String
      → M H (Unit {0})
  update_localization id description keywords promotional_text support_url marketing_url whats_new =
      patch_unit c (c.base_url <> "/v1/appStoreVersionLocalizations/" <> id) (
        changes "appStoreVersionLocalizations" id (
          localization_attributes description keywords promotional_text support_url marketing_url
            whats_new))

  unfoldable pub delete_accessibility_declaration : String → M H (Unit {0})
  delete_accessibility_declaration id =
      delete_at c (c.base_url <> "/v1/accessibilityDeclarations/" <> id)
