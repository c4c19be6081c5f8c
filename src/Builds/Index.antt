-- ===== src/Builds/Index.antt =====
-- What the index of an `included` section holds
-- (crates/stack_core/src/providers/appstore/client.rs).
use stack_connect_core.Prelude.{String, ◌≡◌, refl, Option, none, some, List}
use stack_connect_core.Prelude.Table.{lookup, replaced, last_from, add_each-last}
use stack_connect_core.Builds.{
  BuildIncluded, pre_release_version, build_beta_detail, beta_app_review_submission, beta_group,
  beta_build_localization, other, IncludedIndex, PreReleaseVersionAttributes,
  BuildBetaDetailAttributes, BetaAppReviewSubmissionAttributes, BetaGroupResource,
  BetaBuildLocalizationResource, add_included, from_included, empty_index,
}

abbrev pub as_pre_release : BuildIncluded → Option (String × PreReleaseVersionAttributes)
as_pre_release (pre_release_version id a) = some (id, a)
as_pre_release _ = none

abbrev pub as_beta_detail : BuildIncluded → Option (String × BuildBetaDetailAttributes)
as_beta_detail (build_beta_detail id a) = some (id, a)
as_beta_detail _ = none

abbrev pub as_review : BuildIncluded → Option (String × BetaAppReviewSubmissionAttributes)
as_review (beta_app_review_submission id a) = some (id, a)
as_review _ = none

abbrev pub as_group : BuildIncluded → Option (String × BetaGroupResource)
as_group (beta_group r) = some (r.id, r)
as_group _ = none

abbrev pub as_localization : BuildIncluded → Option (String × BetaBuildLocalizationResource)
as_localization (beta_build_localization r) = some (r.id, r)
as_localization _ = none

pre_release_step :
    (id : String) (x : IncludedIndex) (r : BuildIncluded)
    → lookup id (add_included x r).pre_release_versions
      ≡ replaced as_pre_release id (lookup id x.pre_release_versions) r
unfolding add_included lookup
pre_release_step id x (pre_release_version _ _) = refl
pre_release_step id x (build_beta_detail _ _) = refl
pre_release_step id x (beta_app_review_submission _ _) = refl
pre_release_step id x (beta_group _) = refl
pre_release_step id x (beta_build_localization _) = refl
pre_release_step id x other = refl

beta_detail_step :
    (id : String) (x : IncludedIndex) (r : BuildIncluded)
    → lookup id (add_included x r).build_beta_details
      ≡ replaced as_beta_detail id (lookup id x.build_beta_details) r
unfolding add_included lookup
beta_detail_step id x (pre_release_version _ _) = refl
beta_detail_step id x (build_beta_detail _ _) = refl
beta_detail_step id x (beta_app_review_submission _ _) = refl
beta_detail_step id x (beta_group _) = refl
beta_detail_step id x (beta_build_localization _) = refl
beta_detail_step id x other = refl

review_step :
    (id : String) (x : IncludedIndex) (r : BuildIncluded)
    → lookup id (add_included x r).beta_app_review_submissions
      ≡ replaced as_review id (lookup id x.beta_app_review_submissions) r
unfolding add_included lookup
review_step id x (pre_release_version _ _) = refl
review_step id x (build_beta_detail _ _) = refl
review_step id x (beta_app_review_submission _ _) = refl
review_step id x (beta_group _) = refl
review_step id x (beta_build_localization _) = refl
review_step id x other = refl

group_step :
    (id : String) (x : IncludedIndex) (r : BuildIncluded)
    → lookup id (add_included x r).beta_groups ≡ replaced as_group id (lookup id x.beta_groups) r
unfolding add_included lookup
group_step id x (pre_release_version _ _) = refl
group_step id x (build_beta_detail _ _) = refl
group_step id x (beta_app_review_submission _ _) = refl
group_step id x (beta_group _) = refl
group_step id x (beta_build_localization _) = refl
group_step id x other = refl

localization_step :
    (id : String) (x : IncludedIndex) (r : BuildIncluded)
    → lookup id (add_included x r).beta_build_localizations
      ≡ replaced as_localization id (lookup id x.beta_build_localizations) r
unfolding add_included lookup
localization_step id x (pre_release_version _ _) = refl
localization_step id x (build_beta_detail _ _) = refl
localization_step id x (beta_app_review_submission _ _) = refl
localization_step id x (beta_group _) = refl
localization_step id x (beta_build_localization _) = refl
localization_step id x other = refl

-- Each of the five tables of the index finds for an id the last entry of its own type in the
-- `included` section that has the id, and nothing where there is none: an entry of another type
-- with the same id neither hides it nor stands in for it.
pub from_included-last :
    (id : String) (included : List BuildIncluded)
    → lookup id (from_included included).pre_release_versions
        ≡ last_from as_pre_release id none included
      × lookup id (from_included included).build_beta_details
        ≡ last_from as_beta_detail id none included
      × lookup id (from_included included).beta_app_review_submissions
        ≡ last_from as_review id none included
      × lookup id (from_included included).beta_groups ≡ last_from as_group id none included
      × lookup id (from_included included).beta_build_localizations
        ≡ last_from as_localization id none included
unfolding from_included lookup
from_included-last id included = (
  add_each-last as_pre_release add_included (λ x. lookup id x.pre_release_versions) id
      (pre_release_step id) empty_index included,
  add_each-last as_beta_detail add_included (λ x. lookup id x.build_beta_details) id
      (beta_detail_step id) empty_index included,
  add_each-last as_review add_included (λ x. lookup id x.beta_app_review_submissions) id
      (review_step id) empty_index included,
  add_each-last as_group add_included (λ x. lookup id x.beta_groups) id (group_step id) empty_index
      included,
  add_each-last as_localization add_included (λ x. lookup id x.beta_build_localizations) id
      (localization_step id) empty_index included,
)
