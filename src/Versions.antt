-- ===== src/Versions.antt =====
-- App store versions and their phased releases
-- (crates/stack_core/src/providers/appstore/client.rs).
mod Documents
unfoldable pub use Documents.*
use mathlib.Core.Option
use stack_connect_core.Prelude.{ℕ, String, ◌<>◌, Option, none, some, List, map, to_string}
use stack_connect_core.Error.{decode}
use stack_connect_core.Json.{
  text, member, end, Members, Json, single, to_one, member_if, changes, creation,
}
use stack_connect_core.Wire.{Host, M, pure, raise, decoded, ◌>>=◌}
use stack_connect_core.Transport.{
  AppStoreClient, get_page, get_or_404, post_json_2xx, patch_json_2xx, patch_unit, delete_at,
}

abbrev creation_of_version : String → String → String → Json
creation_of_version app_id platform version_string =
    creation "appStoreVersions"
      (member "platform" (text platform)
        (member "versionString" (text version_string) (member "releaseType" (text "MANUAL") end)))
      (member "app" (to_one "apps" app_id) end)

abbrev pub version_attributes :
    Option String → Option String → Option String → Option String → Members
version_attributes version_string copyright release_type earliest_release_date =
    member_if "versionString" version_string (
      member_if "copyright" copyright (
        member_if "releaseType" release_type
          (member_if "earliestReleaseDate" earliest_release_date end)))

module _ {H : Host} (D : Decoders) (c : AppStoreClient) where
  unfoldable pub fetch_versions : String → ℕ → M H (List AppStoreVersionInfo)
  fetch_versions app_id limit = do
    body ←
        get_page c
          (c.base_url <> "/v1/apps/" <> app_id <> "/appStoreVersions?limit=" <> to_string limit)
    page ← decoded "app store versions response: " (D.versions body)
    pure (map (λ v. into_version_info v app_id) page.resources)

  unfoldable pub create_version : String → String → String → M H AppStoreVersionInfo
  create_version app_id platform version_string = do
    body ←
        post_json_2xx c (c.base_url <> "/v1/appStoreVersions")
          (creation_of_version app_id platform version_string)
    made ← decoded "app store version response: " (D.version body)
    pure (into_version_info made.resource app_id)

  unfoldable pub update_version :
      String → Option String → Option String → Option String → Option String → M H (Unit {0})
  update_version id version_string copyright release_type earliest_release_date =
      patch_unit c (c.base_url <> "/v1/appStoreVersions/" <> id) (
        changes "appStoreVersions" id
          (version_attributes version_string copyright release_type earliest_release_date))

  unfoldable pub delete_version : String → M H (Unit {0})
  delete_version id = delete_at c (c.base_url <> "/v1/appStoreVersions/" <> id)

  abbrev phased_release_of : Option String → M H (Option PhasedReleaseInfo)
  phased_release_of none = pure none
  phased_release_of (some body) = do
    document ← decoded "phased release response: " (D.phased_release body)
    pure (Option.map into_phased_release_info document.resource)

  unfoldable pub fetch_phased_release : String → M H (Option PhasedReleaseInfo)
  fetch_phased_release version_id = do
    found ←
        get_or_404 c
          (c.base_url <> "/v1/appStoreVersions/" <> version_id <> "/appStoreVersionPhasedRelease")
    phased_release_of found

  abbrev or_missing_data : Option PhasedReleaseResource → M H PhasedReleaseInfo
  or_missing_data none = raise (decode "phased release response: missing data")
  or_missing_data (some r) = pure (into_phased_release_info r)

  unfoldable pub create_phased_release : String → String → M H PhasedReleaseInfo
  create_phased_release version_id state = do
    body ← post_json_2xx c (c.base_url <> "/v1/appStoreVersionPhasedReleases") (
        creation "appStoreVersionPhasedReleases" (member "phasedReleaseState" (text state) end)
          (member "appStoreVersion" (to_one "appStoreVersions" version_id) end))
    document ← decoded "phased release response: " (D.phased_release body)
    or_missing_data document.resource

  unfoldable pub delete_phased_release : String → M H (Unit {0})
  delete_phased_release id = delete_at c (c.base_url <> "/v1/appStoreVersionPhasedReleases/" <> id)

  unfoldable pub update_phased_release_state : String → String → M H PhasedReleaseInfo
  update_phased_release_state id state = do
    body ←
        patch_json_2xx c (c.base_url <> "/v1/appStoreVersionPhasedReleases/" <> id) (
          changes "appStoreVersionPhasedReleases" id (member "phasedReleaseState" (text state) end))
    document ← decoded "phased release response: " (D.phased_release body)
    or_missing_data document.resource
