-- ===== src/TestFlight/Localizations.antt =====
-- What a beta test says of a build and of an app, in each language, and how its reviewers reach the
-- team (crates/stack_core/src/providers/appstore/client.rs).
use stack_connect_core.Prelude.{ℕ, String, ◌<>◌, Bool, Option, List, map, to_string}
use stack_connect_core.Json.{
  Json, Members, text, member, end, to_one, member_if, flag_if, changes, creation,
}
use stack_connect_core.Wire.{Host, M, pure, decoded, ◌>>=◌}
use stack_connect_core.Transport.{AppStoreClient, get_page, post_json_2xx, patch_json_2xx}
use stack_connect_core.Paging.{fetch_all}
use stack_connect_core.Builds.{BetaBuildLocalizationInfo}
use stack_connect_core.TestFlight.{
  Decoders, BetaAppLocalizationInfo, BetaAppReviewDetailInfo, into_beta_build_localization_info,
  into_beta_app_localization_info, into_beta_app_review_detail_info,
}

abbrev creation_of_build_localization : String → String → String → Json
creation_of_build_localization build_id locale whats_new =
    creation "betaBuildLocalizations"
      (member "whatsNew" (text whats_new) (member "locale" (text locale) end))
      (member "build" (to_one "builds" build_id) end)

abbrev pub app_localization_attributes : Option String → Option String → Members
app_localization_attributes feedback_email description =
    member_if "feedbackEmail" feedback_email (member_if "description" description end)

abbrev pub beta_review_attributes :
    Option String
    → Option String
    → Option String
    → Option String
    → Option String
    → Option String
    → Option Bool
    → Option String
    → Members
beta_review_attributes first_name last_name email phone demo_name demo_password demo_required
      notes =
    member_if "contactFirstName" first_name (
      member_if "contactLastName" last_name (
        member_if "contactEmail" email (
          member_if "contactPhone" phone (
            member_if "demoAccountName" demo_name (
              member_if "demoAccountPassword" demo_password
                (flag_if "demoAccountRequired" demo_required (member_if "notes" notes end)))))))

module _ {H : Host} (D : Decoders) (c : AppStoreClient) where
  unfoldable pub fetch_beta_build_localizations :
      ℕ → String → ℕ → M H (List BetaBuildLocalizationInfo)
  fetch_beta_build_localizations fuel build_id limit =
      fetch_all c "beta build localizations response: " D.build_localizations
        (λ page. map into_beta_build_localization_info page.resources) (λ page. page.links) fuel
        (c.base_url
          <> "/v1/betaBuildLocalizations?filter[build]="
          <> build_id
          <> "&limit="
          <> to_string limit)

  unfoldable pub create_beta_build_localization :
      String → String → String → M H BetaBuildLocalizationInfo
  create_beta_build_localization build_id locale whats_new = do
    body ←
        post_json_2xx c (c.base_url <> "/v1/betaBuildLocalizations")
          (creation_of_build_localization build_id locale whats_new)
    made ← decoded "beta build localization response: " (D.build_localization body)
    pure (into_beta_build_localization_info made.resource)

  unfoldable pub update_beta_build_localization : String → String → M H BetaBuildLocalizationInfo
  update_beta_build_localization id whats_new = do
    body ←
        patch_json_2xx c (c.base_url <> "/v1/betaBuildLocalizations/" <> id)
          (changes "betaBuildLocalizations" id (member "whatsNew" (text whats_new) end))
    changed ← decoded "beta build localization response: " (D.build_localization body)
    pure (into_beta_build_localization_info changed.resource)

  unfoldable pub fetch_beta_app_localizations : ℕ → String → ℕ → M H (List BetaAppLocalizationInfo)
  fetch_beta_app_localizations fuel app_id limit =
      fetch_all c "beta app localizations response: " D.app_localizations
        (λ page. map into_beta_app_localization_info page.resources) (λ page. page.links) fuel
        (c.base_url <> "/v1/apps/" <> app_id <> "/betaAppLocalizations?limit=" <> to_string limit)

  unfoldable pub create_beta_app_localization :
      String → String → Option String → Option String → M H BetaAppLocalizationInfo
  create_beta_app_localization app_id locale feedback_email description = do
    body ← post_json_2xx c (c.base_url <> "/v1/betaAppLocalizations") (
        creation "betaAppLocalizations"
          (member "locale" (text locale) (app_localization_attributes feedback_email description))
          (member "app" (to_one "apps" app_id) end))
    made ← decoded "beta app localization response: " (D.app_localization body)
    pure (into_beta_app_localization_info made.resource)

  unfoldable pub update_beta_app_localization :
      String → Option String → Option String → M H BetaAppLocalizationInfo
  update_beta_app_localization id feedback_email description = do
    body ←
        patch_json_2xx c (c.base_url <> "/v1/betaAppLocalizations/" <> id) (
          changes "betaAppLocalizations" id
            (app_localization_attributes feedback_email description))
    changed ← decoded "beta app localization response: " (D.app_localization body)
    pure (into_beta_app_localization_info changed.resource)

  unfoldable pub fetch_beta_app_review_detail : String → M H BetaAppReviewDetailInfo
  fetch_beta_app_review_detail app_id = do
    body ← get_page c (c.base_url <> "/v1/apps/" <> app_id <> "/betaAppReviewDetail")
    found ← decoded "beta app review detail response: " (D.review_detail body)
    pure (into_beta_app_review_detail_info found.resource)

  unfoldable pub update_beta_app_review_detail :
      String
      → Option String
      → Option String
      → Option String
      → Option String
      → Option String
      → Option String
      → Option Bool
      → Option String
      → M H BetaAppReviewDetailInfo
  update_beta_app_review_detail id first_name last_name email phone demo_name demo_password
        demo_required notes =
      do
        body ← patch_json_2xx c (c.base_url <> "/v1/betaAppReviewDetails/" <> id) (
            changes "betaAppReviewDetails" id (
              beta_review_attributes first_name last_name email phone demo_name demo_password
                demo_required notes))
        changed ← decoded "beta app review detail response: " (D.review_detail body)
        pure (into_beta_app_review_detail_info changed.resource)
