-- ===== src/Tests/ListingRuns.antt =====
-- Runs of the listings that resolve included resources: profiles, app infos and screenshot sets
-- (crates/stack_core/src/providers/appstore/client.rs).
use stack_connect_core.Prelude.{◌≡◌, String, Option, none, some, List, [], ◌∷◌, map, All, and_then}
use stack_connect_core.Prelude.Table.{last_from}
use stack_connect_core.Error.{parsed, malformed}
use stack_connect_core.Wire.Outcomes.{Returns}
use stack_connect_core.Signing
use stack_connect_core.Signing.{ProfileResource, ProfilesResponse, bundle_ids, other}
use stack_connect_core.Signing.Devices.{fetch_bundle_id_capabilities}
use stack_connect_core.Signing.Known.{IsKnown, capabilities-IsKnown}
use stack_connect_core.Signing.Profiles.{profiles_of}
use stack_connect_core.Signing.Resolved.{seen, expected, profiles_of-last}
use stack_connect_core.Listing
use stack_connect_core.Listing.{
  AppInfoResource, AppInfoIncluded, AgeRatingDeclarationResource, AppDetailAttributes,
}
use stack_connect_core.Listing.Info.{id_of, details_from}
use stack_connect_core.Listing.Included.{localized, as_age_rating, details_from-included}
use stack_connect_core.Screenshots.Sets.{AppScreenshotSetsResponse, sets_of}
use stack_connect_core.Screenshots.Sets
use stack_connect_core.Screenshots.Sets.Resolved
use stack_connect_core.Screenshots.Sets.Resolved.{sets_of-included}
use stack_connect_core.Screenshots.{AppScreenshotResource}
use mathlib.Core.Option
use stack_connect_core.Tests.Script.{scripted, sample_client as client}
use stack_connect_core.Tests.UserRuns.{last_page}

abbrev profile : String → Option String → ProfileResource
profile id rel = record {
  id = id;
  attributes = record {
    name = some "Ad hoc";
    profile_type = none;
    profile_state = none;
    platform = none;
    uuid = none;
    created_date = none;
    expiration_date = none;
    profile_content = none;
  };
  relationships = record {
    bundle_id = record { resource = Option.map (λ i. record { id = i }) rel };
  };
}

abbrev profiles_page : ProfilesResponse
profiles_page = record {
  resources = profile "p1" (some "b1") ∷ profile "p2" none ∷ profile "p3" (some "b9") ∷ [];
  included =
      bundle_ids "b1" (record { identifier = some "com.x" })
      ∷ other
      ∷ bundle_ids "b1" (record { identifier = some "com.y" })
      ∷ [];
  links = last_page;
}

profiles_of-last_example :
    map seen (profiles_of profiles_page)
    ≡ map (expected profiles_page.included) profiles_page.resources
profiles_of-last_example = profiles_of-last profiles_page

abbrev pub signing : Signing.Decoders
signing = record {
  devices = λ s. malformed "?";
  device = λ s. malformed "?";
  bundle_ids = λ s. malformed "?";
  bundle_id = λ s. malformed "?";
  capabilities = λ s. parsed (record {
    resources =
        record { id = "c1"; attributes = record { capability_type = some "PUSH" } }
        ∷ record { id = "c2"; attributes = record { capability_type = some "" } }
        ∷ [];
    links = last_page;
  });
  capability = λ s. malformed "?";
  certificates = λ s. malformed "?";
  certificate = λ s. malformed "?";
  profiles = λ s. parsed profiles_page;
  profile = λ s. malformed "?";
}

capabilities-IsKnown_example :
    Returns {H = scripted} (All IsKnown) (fetch_bundle_id_capabilities signing client 2 "b1")
capabilities-IsKnown_example = capabilities-IsKnown signing client 2 "b1"

abbrev declaration : String → AgeRatingDeclarationResource
declaration contests = record {
  id = "a1";
  attributes = record {
    alcohol_tobacco_or_drug_use_or_references = none;
    contests = some contests;
    gambling_simulated = none;
    guns_or_other_weapons = none;
    medical_or_treatment_information = none;
    profanity_or_crude_humor = none;
    sexual_content_graphic_and_nudity = none;
    sexual_content_or_nudity = none;
    horror_or_fear_themes = none;
    mature_or_suggestive_themes = none;
    violence_cartoon_or_fantasy = none;
    violence_realistic = none;
    violence_realistic_prolonged_graphic_or_sadistic = none;
    is_advertising = none;
    is_gambling = none;
    is_unrestricted_web_access = none;
    is_user_generated_content = none;
    age_rating_override_v2 = none;
  };
}

abbrev localization : String → AppInfoIncluded
localization locale = Listing.app_info_localizations (record {
  id = locale;
  attributes = record {
    locale = some locale;
    name = none;
    subtitle = none;
    privacy_policy_url = none;
    privacy_choices_url = none;
    privacy_policy_text = none;
  };
})

abbrev info_included : List AppInfoIncluded
info_included =
    localization "en"
    ∷ Listing.age_rating_declarations (declaration "NONE")
    ∷ Listing.other
    ∷ localization "de"
    ∷ []

abbrev app_info : AppInfoResource
app_info = record {
  id = "ai1";
  attributes = record { app_store_age_rating = none };
  relationships = record {
    primary_category = record { resource = none };
    primary_subcategory_one = record { resource = none };
    secondary_category = record { resource = none };
    secondary_subcategory_one = record { resource = none };
    age_rating_declaration = record { resource = some (record { id = "a1" }) };
  };
}

abbrev app_attributes : AppDetailAttributes
app_attributes = record { sku = some "S"; primary_locale = none; content_rights_declaration = none }

details_from-included_example :
    let d = details_from "app" app_info info_included app_attributes in
    (d.localizations ≡ localized info_included)
    × (d.age_rating
        ≡ and_then
            (id_of app_info.relationships.age_rating_declaration)
            (λ id. last_from as_age_rating id none info_included))
details_from-included_example = details_from-included "app" app_info info_included app_attributes

abbrev shot : String → AppScreenshotResource
shot id = record {
  id = id;
  attributes = record { file_name = some "a.png"; file_size = none; image_asset = none };
}

abbrev sets_page : AppScreenshotSetsResponse
sets_page = record {
  resources =
      record {
        id = "s1";
        attributes = record { screenshot_display_type = none };
        relationships = record {
          app_screenshots = record {
            resources = record { id = "x2" } ∷ record { id = "x9" } ∷ record { id = "x1" } ∷ [];
          };
        };
      }
      ∷ [];
  included = Sets.app_screenshots (shot "x1") ∷ Sets.other ∷ Sets.app_screenshots (shot "x2") ∷ [];
  links = last_page;
}

sets_of-included_example :
    map Resolved.seen (sets_of sets_page)
    ≡ map (Resolved.expected sets_page.included) sets_page.resources
sets_of-included_example = sets_of-included sets_page

abbrev pub infos : Listing.Decoders
infos = record {
  app_info_localizations = λ s. malformed "?";
  app_info_localization = λ s. malformed "?";
  localizations = λ s. malformed "?";
  declarations = λ s. malformed "?";
  declaration = λ s. malformed "?";
  app_infos = λ s. parsed (record { resources = app_info ∷ []; included = info_included });
  app_detail = λ s. parsed (record { resource = record { attributes = app_attributes } });
  categories = λ s. malformed "?";
  builds = λ s. malformed "?";
  review_detail = λ s. malformed "?";
}
