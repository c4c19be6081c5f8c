-- ===== src/Listing/Info.antt =====
-- The information on an app, with its categories, age rating and review contact
-- (crates/stack_core/src/providers/appstore/client.rs).
use mathlib.Core.Option
use stack_connect_core.Prelude.{
  ℕ, String, ◌<>◌, Bool, Option, none, some, List, [], ◌∷◌, ◌++◌, map, and_then,
}
use stack_connect_core.Prelude.Table.{Table, insert, lookup, add_each}
use stack_connect_core.Error.{http, decode}
use stack_connect_core.Json.{end, member_if, changes}
use stack_connect_core.Wire.{Host, M, pure, raise, decoded, ◌>>=◌}
use stack_connect_core.Transport.{AppStoreClient, get_page, get_or_404, patch_json_2xx, patch_unit}
use stack_connect_core.Paging.{ResourceIdentifier, ToOneRelationship, fetch_all}
use stack_connect_core.Builds.{BuildResource, to_icon_url}
use stack_connect_core.Listing.Bodies.{
  category_document, AgeRatingAnswers, rating_attributes, review_attributes,
}
use stack_connect_core.Listing.{
  Decoders, AppInfoLocalizationInfo, AgeRatingDeclarationInfo, AppInfoResource, AppInfoIncluded,
  app_info_localizations, age_rating_declarations, other, AppDetailAttributes, AppInfoDetails,
  AppCategoryInfo, AppReviewDetailResource, AppReviewDetailInfo, to_app_info_localization_info,
  into_age_rating_declaration_info, into_app_category_info, into_app_review_detail_info,
}

-- What the loop over `included` gathers.
pub record Gathered : Type 0 where
  pub localizations : List AppInfoLocalizationInfo
  pub age_ratings : Table AgeRatingDeclarationInfo

abbrev pub nothing_gathered : Gathered
nothing_gathered = record { localizations = []; age_ratings = [] }

-- One round of the loop.
unfoldable pub gather : Gathered → AppInfoIncluded → Gathered
gather g (app_info_localizations loc) = record g {
  localizations = g.localizations ++ (to_app_info_localization_info loc ∷ []);
}
gather g (age_rating_declarations decl) = record g {
  age_ratings = insert decl.id (into_age_rating_declaration_info decl) g.age_ratings;
}
gather g other = g

abbrev pub id_of : ToOneRelationship → Option String
id_of rel = Option.map (λ (r : ResourceIdentifier). r.id) rel.resource

unfoldable pub details_from :
    String → AppInfoResource → List AppInfoIncluded → AppDetailAttributes → AppInfoDetails
unfolding gather
details_from app_id app_info included app =
    let g = add_each gather nothing_gathered included in
    let age_rating_id = id_of app_info.relationships.age_rating_declaration in
    record {
      app_info_id = app_info.id;
      app_id = app_id;
      sku = app.sku;
      primary_locale = app.primary_locale;
      content_rights_declaration = app.content_rights_declaration;
      primary_category_id = id_of app_info.relationships.primary_category;
      primary_subcategory_one_id = id_of app_info.relationships.primary_subcategory_one;
      secondary_category_id = id_of app_info.relationships.secondary_category;
      secondary_subcategory_one_id = id_of app_info.relationships.secondary_subcategory_one;
      age_rating_declaration_id = age_rating_id;
      app_store_age_rating = app_info.attributes.app_store_age_rating;
      localizations = g.localizations;
      age_rating = and_then age_rating_id (λ id. lookup id g.age_ratings);
    }

-- The icon of the first build, if it has one.
abbrev icon_of : List BuildResource → Option String
icon_of [] = none
icon_of (build ∷ _) = and_then build.attributes.icon_asset_token to_icon_url

module _ {H : Host} (D : Decoders) (c : AppStoreClient) where
  abbrev pub first_app_info : String → List AppInfoResource → M H AppInfoResource
  first_app_info app_id [] = raise (http 404 ("no app info found for app " <> app_id))
  first_app_info app_id (app_info ∷ _) = pure app_info

  unfoldable pub fetch_app_info : String → M H AppInfoDetails
  fetch_app_info app_id = do
    body ← get_page c (
        (c.base_url <> "/v1/apps/")
        <> app_id
        <> "/appInfos?include=ageRatingDeclaration,appInfoLocalizations,primaryCategory,primarySubcategoryOne,secondaryCategory,secondarySubcategoryOne&limit=1&limit[appInfoLocalizations]=50")
    page ← decoded "app infos response: " (D.app_infos body)
    app_info ← first_app_info app_id page.resources
    app_body ← get_page c (
        (c.base_url <> "/v1/apps/")
        <> app_id
        <> "?fields[apps]=sku,primaryLocale,contentRightsDeclaration")
    app ← decoded "app detail response: " (D.app_detail app_body)
    pure (details_from app_id app_info page.included app.resource.attributes)

  unfoldable pub fetch_app_categories : ℕ → M H (List AppCategoryInfo)
  fetch_app_categories fuel =
      fetch_all c "app categories response: " D.categories
        (λ page. map into_app_category_info page.resources) (λ page. page.links) fuel
        (c.base_url
          <> "/v1/appCategories?filter[platforms]=IOS&exists[parent]=false&include=subcategories")

  unfoldable pub fetch_icon_url : String → M H (Option String)
  fetch_icon_url app_id = do
    body ←
        get_page c
          ((c.base_url <> "/v1/builds?filter[app]=") <> app_id <> "&sort=-uploadedDate&limit=1")
    page ← decoded "builds response: " (D.builds body)
    pure (icon_of page.builds)

  abbrev pub review_detail_of : Option String → M H (Option AppReviewDetailInfo)
  review_detail_of none = pure none
  review_detail_of (some body) = do
    found ← decoded "app review detail response: " (D.review_detail body)
    pure (Option.map into_app_review_detail_info found.resource)

  unfoldable pub fetch_app_review_detail : String → M H (Option AppReviewDetailInfo)
  fetch_app_review_detail version_id = do
    found ←
        get_or_404 c
          (c.base_url <> "/v1/appStoreVersions/" <> version_id <> "/appStoreReviewDetail")
    review_detail_of found

  abbrev or_missing_detail : Option AppReviewDetailResource → M H AppReviewDetailInfo
  or_missing_detail none = raise (decode "app review detail response: missing data")
  or_missing_detail (some r) = pure (into_app_review_detail_info r)

  unfoldable pub update_app_review_detail :
      String
      → Option String
      → Option String
      → Option String
      → Option String
      → Option String
      → Option String
      → Option String
      → Option Bool
      → M H AppReviewDetailInfo
  update_app_review_detail id first_name last_name email phone notes demo_name demo_password
        demo_required =
      do
        body ← patch_json_2xx c (c.base_url <> "/v1/appStoreReviewDetails/" <> id) (
            changes "appStoreReviewDetails" id (
              review_attributes first_name last_name email phone notes demo_name demo_password
                demo_required))
        changed ← decoded "app review detail response: " (D.review_detail body)
        or_missing_detail changed.resource

module _ {H : Host} (c : AppStoreClient) where
  unfoldable pub update_app_info_category :
      String → Option String → Option String → Option String → Option String → M H (Unit {0})
  update_app_info_category app_info_id primary subcategory_one secondary secondary_subcategory_one =
      patch_unit c (c.base_url <> "/v1/appInfos/" <> app_info_id)
        (category_document app_info_id primary subcategory_one secondary secondary_subcategory_one)

  unfoldable pub update_app : String → Option String → Option String → M H (Unit {0})
  update_app id content_rights_declaration primary_locale =
      patch_unit c (c.base_url <> "/v1/apps/" <> id) (
        changes "apps" id (
          member_if "contentRightsDeclaration" content_rights_declaration
            (member_if "primaryLocale" primary_locale end)))

  unfoldable pub update_age_rating : String → AgeRatingAnswers → M H (Unit {0})
  update_age_rating id answers =
      patch_unit c (c.base_url <> "/v1/ageRatingDeclarations/" <> id)
        (changes "ageRatingDeclarations" id (rating_attributes answers))
