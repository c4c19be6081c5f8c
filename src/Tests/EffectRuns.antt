-- ===== src/Tests/EffectRuns.antt =====
-- Updates and readings at concrete data
-- (crates/stack_core/src/providers/appstore/client.rs).
use stack_connect_core.Prelude.{String, false, Option, none, some, pos}
use stack_connect_core.Error.{malformed}
use stack_connect_core.Wire.Emits.{Emits}
use stack_connect_core.Versions
use stack_connect_core.Versions.{update_version}
use stack_connect_core.TestFlight
use stack_connect_core.TestFlight.Groups.{update_beta_group}
use stack_connect_core.Users.{fetch_users, fetch_team_members, fetch_user_visible_apps}
use stack_connect_core.Signing.Devices.{
  fetch_devices, fetch_bundle_ids, fetch_bundle_id_capabilities,
}
use stack_connect_core.Signing.Profiles.{
  fetch_certificates, fetch_certificate_content, fetch_profiles, fetch_profile_content,
}
use stack_connect_core.Listing.Info.{
  fetch_app_info, fetch_app_categories, fetch_app_review_detail, fetch_icon_url,
}
use stack_connect_core.Listing.Localizations.{update_localization}
use stack_connect_core.Effects.Merged.{
  Merges, version_put, group_put, localization_put, updates-Merges,
}
use stack_connect_core.Effects.ReadOnly.{IsGet, fetches-ReadOnly}
use stack_connect_core.Tests.Script.{scripted, sample_client as client}
use stack_connect_core.Tests.UserRuns.{people}
use stack_connect_core.Tests.ListingRuns.{signing, infos}

abbrev versions : Versions.Decoders
versions = record {
  versions = λ s. malformed "?";
  version = λ s. malformed "?";
  phased_release = λ s. malformed "?";
}

abbrev groups : TestFlight.Decoders
groups = record {
  groups = λ s. malformed "?";
  group = λ s. malformed "?";
  testers = λ s. malformed "?";
  tester = λ s. malformed "?";
  tester_count = λ s. malformed "?";
  build_localizations = λ s. malformed "?";
  build_localization = λ s. malformed "?";
  app_localizations = λ s. malformed "?";
  app_localization = λ s. malformed "?";
  review_detail = λ s. malformed "?";
}

abbrev given : Option String
given = some "value"

updates-Merges_example :
    Emits {H = scripted}
      (Merges "https://asc/v1/appStoreVersions/1" "appStoreVersions" "1"
        (version_put given none given none))
      (update_version versions client "1" given none given none)
    × Emits {H = scripted}
        (Merges "https://asc/v1/betaGroups/1" "betaGroups" "1"
          (group_put given (some false) (some (pos 100)) none))
        (update_beta_group groups client "1" given (some false) (some (pos 100)) none)
    × Emits {H = scripted}
        (Merges "https://asc/v1/appStoreVersionLocalizations/1" "appStoreVersionLocalizations" "1"
          (localization_put given given none none none given))
        (update_localization client "1" given given none none none given)
updates-Merges_example =
    updates-Merges versions groups client "1" given none given none given (some false)
      (some (pos 100)) none given given none none none given

fetches-ReadOnly_example :
    (Emits {H = scripted} IsGet (fetch_users people client 3)
      × Emits {H = scripted} IsGet (fetch_team_members people client 3)
      × Emits {H = scripted} IsGet (fetch_user_visible_apps people client 3 "1"))
    × (Emits {H = scripted} IsGet (fetch_devices signing client 3)
        × Emits {H = scripted} IsGet (fetch_bundle_ids signing client 3)
        × Emits {H = scripted} IsGet (fetch_bundle_id_capabilities signing client 3 "1")
        × Emits {H = scripted} IsGet (fetch_certificates signing client 3)
        × Emits {H = scripted} IsGet (fetch_certificate_content signing client "1")
        × Emits {H = scripted} IsGet (fetch_profiles signing client 3)
        × Emits {H = scripted} IsGet (fetch_profile_content signing client "1"))
    × (Emits {H = scripted} IsGet (fetch_app_info infos client "1")
        × Emits {H = scripted} IsGet (fetch_app_categories infos client 3)
        × Emits {H = scripted} IsGet (fetch_app_review_detail infos client "1")
        × Emits {H = scripted} IsGet (fetch_icon_url infos client "1"))
fetches-ReadOnly_example = fetches-ReadOnly client people signing infos 3 "1"
