-- ===== src/Builds.antt =====
-- Builds (crates/stack_core/src/providers/appstore/client.rs): a build's relationships are resolved
-- against the `included` section of its document.
mod Documents
pub mod Fetch
pub mod Index
pub mod Pages
pub mod Writes
pub use Documents.*
use stack_connect_core.Prelude.{
  ℕ, String, Option, none, some, List, [], ◌∷◌, and_then, replace, to_string, or_empty,
}
use stack_connect_core.Prelude.Table.{insert, lookup, add_each}

abbrev pub or_512 : Option ℕ → ℕ
or_512 none = 512
or_512 (some n) = n

unfoldable pub to_icon_url : IconAssetToken → Option String
unfolding replace to_string
to_icon_url t = and_then t.template_url λ template. some (
    replace "{f}" "png" (
      replace "{h}" (to_string (or_512 t.height))
        (replace "{w}" (to_string (or_512 t.width)) template)))

abbrev pub empty_index : IncludedIndex
empty_index = record {
  pre_release_versions = [];
  build_beta_details = [];
  beta_app_review_submissions = [];
  beta_groups = [];
  beta_build_localizations = [];
}

-- One round of the loop of `from_included`.
unfoldable pub add_included : IncludedIndex → BuildIncluded → IncludedIndex
add_included x (pre_release_version id a) = record x {
  pre_release_versions = insert id a x.pre_release_versions;
}
add_included x (build_beta_detail id a) = record x {
  build_beta_details = insert id a x.build_beta_details;
}
add_included x (beta_app_review_submission id a) = record x {
  beta_app_review_submissions = insert id a x.beta_app_review_submissions;
}
add_included x (beta_group r) = record x { beta_groups = insert r.id r x.beta_groups }
add_included x (beta_build_localization r) = record x {
  beta_build_localizations = insert r.id r x.beta_build_localizations;
}
add_included x other = x

unfoldable pub from_included : List BuildIncluded → IncludedIndex
unfolding add_each add_included
from_included included = add_each add_included empty_index included

unfoldable pub build_info_from : BuildResource → String → IncludedIndex → BuildInfo
unfolding to_icon_url lookup
build_info_from r app_id x =
    let pre_release =
      and_then r.relationships.pre_release_version.resource
        (λ rel. lookup rel.id x.pre_release_versions) in
    let beta_detail =
      and_then r.relationships.build_beta_detail.resource
        (λ rel. lookup rel.id x.build_beta_details) in
    let review =
      and_then r.relationships.beta_app_review_submission.resource
        (λ rel. lookup rel.id x.beta_app_review_submissions) in
    record {
      id = r.id;
      app_id = app_id;
      version = r.attributes.version;
      uploaded_date = r.attributes.uploaded_date;
      expired = r.attributes.expired;
      processing_state = r.attributes.processing_state;
      min_os_version = r.attributes.min_os_version;
      expiration_date = r.attributes.expiration_date;
      marketing_version = and_then pre_release (λ p. p.version);
      platform = and_then pre_release (λ p. p.platform);
      external_build_state = and_then beta_detail (λ d. d.external_build_state);
      internal_build_state = and_then beta_detail (λ d. d.internal_build_state);
      auto_notify_enabled = and_then beta_detail (λ d. d.auto_notify_enabled);
      beta_review_state = and_then review (λ s. s.beta_review_state);
      submitted_date = and_then review (λ s. s.submitted_date);
      computed_min_mac_os_version = r.attributes.computed_min_mac_os_version;
      computed_min_vision_os_version = r.attributes.computed_min_vision_os_version;
      build_audience_type = r.attributes.build_audience_type;
      uses_non_exempt_encryption = r.attributes.uses_non_exempt_encryption;
      icon_url = and_then r.attributes.icon_asset_token to_icon_url;
    }

unfoldable pub to_beta_group_info : BetaGroupResource → String → BetaGroupInfo
to_beta_group_info r app_id = record {
  id = r.id;
  app_id = app_id;
  name = r.attributes.name;
  created_date = r.attributes.created_date;
  is_internal_group = r.attributes.is_internal_group;
  has_access_to_all_builds = r.attributes.has_access_to_all_builds;
  public_link_enabled = r.attributes.public_link_enabled;
  public_link = r.attributes.public_link;
  feedback_enabled = r.attributes.feedback_enabled;
}

unfoldable pub to_beta_build_localization_info :
    BetaBuildLocalizationResource → BetaBuildLocalizationInfo
to_beta_build_localization_info r = record {
  id = r.id;
  locale = or_empty r.attributes.locale;
  whats_new = r.attributes.whats_new;
}
