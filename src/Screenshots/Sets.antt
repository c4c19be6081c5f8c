-- ===== src/Screenshots/Sets.antt =====
-- Screenshot sets (crates/stack_core/src/providers/appstore/client.rs): the screenshots of a set are
-- resolved against the `included` section of its page.
pub mod Resolved
use stack_connect_core.Prelude.{String, ◌<>◌, Option, List, [], map}
use stack_connect_core.Prelude.Table.{Table, insert, add_each}
use stack_connect_core.Prelude.{ℕ}
use stack_connect_core.Error.{Parsed}
use stack_connect_core.Json.{text, member, end, to_one, creation}
use stack_connect_core.Wire.{Host, M, pure, decoded, ◌>>=◌}
use stack_connect_core.Transport.{AppStoreClient, post_json_2xx, delete_at}
use stack_connect_core.Paging.{Links, fetch_all}
use stack_connect_core.Builds.{ToManyRelationship}
use stack_connect_core.Builds.Fetch.{resolve_all}
use stack_connect_core.Screenshots.{AppScreenshotResource, ScreenshotInfo, to_screenshot_info}

pub record AppScreenshotSetAttributes : Type 0 where
  pub screenshot_display_type : Option String

pub record AppScreenshotSetRelationships : Type 0 where
  pub app_screenshots : ToManyRelationship

pub record AppScreenshotSetResource : Type 0 where
  pub id : String
  pub attributes : AppScreenshotSetAttributes
  pub relationships : AppScreenshotSetRelationships

pub data AppScreenshotIncluded : Type 0 where
  app_screenshots : AppScreenshotResource → AppScreenshotIncluded
  other : AppScreenshotIncluded

pub record AppScreenshotSetsResponse : Type 0 where
  pub resources : List AppScreenshotSetResource
  pub included : List AppScreenshotIncluded
  pub links : Links

pub record AppScreenshotSetDocument : Type 0 where
  pub resource : AppScreenshotSetResource

pub record ScreenshotSetInfo : Type 0 where
  pub id : String
  pub display_type : Option String
  pub screenshots : List ScreenshotInfo

pub record SetDecoders : Type 0 where
  pub sets : String → Parsed AppScreenshotSetsResponse
  pub set : String → Parsed AppScreenshotSetDocument

-- One round of the `collect` into the table of included screenshots.
unfoldable pub add_screenshot :
    Table AppScreenshotResource → AppScreenshotIncluded → Table AppScreenshotResource
add_screenshot table (app_screenshots r) = insert r.id r table
add_screenshot table other = table

unfoldable pub set_from : Table AppScreenshotResource → AppScreenshotSetResource → ScreenshotSetInfo
set_from table s = record {
  id = s.id;
  display_type = s.attributes.screenshot_display_type;
  screenshots =
      map to_screenshot_info (resolve_all table s.relationships.app_screenshots.resources);
}

abbrev pub sets_of : AppScreenshotSetsResponse → List ScreenshotSetInfo
sets_of page =
    let table = add_each add_screenshot [] page.included in map (set_from table) page.resources

module _ {H : Host} (D : SetDecoders) (c : AppStoreClient) where
  unfoldable pub fetch_screenshot_sets : ℕ → String → M H (List ScreenshotSetInfo)
  fetch_screenshot_sets fuel localization_id =
      fetch_all c "app screenshot sets response: " D.sets sets_of (λ page. page.links) fuel
        (c.base_url <> "/v1/appStoreVersionLocalizations/" <> localization_id
          <> "/appScreenshotSets?include=appScreenshots")

  unfoldable pub create_screenshot_set : String → String → M H ScreenshotSetInfo
  create_screenshot_set localization_id display_type = do
    body ← post_json_2xx c (c.base_url <> "/v1/appScreenshotSets") (
        creation "appScreenshotSets" (member "screenshotDisplayType" (text display_type) end) (
          member "appStoreVersionLocalization"
            (to_one "appStoreVersionLocalizations" localization_id) end))
    made ← decoded "app screenshot set response: " (D.set body)
    pure (record {
      id = made.resource.id;
      display_type = made.resource.attributes.screenshot_display_type;
      screenshots = [];
    })

  unfoldable pub delete_screenshot_set : String → M H (Unit {0})
  delete_screenshot_set id = delete_at c (c.base_url <> "/v1/appScreenshotSets/" <> id)
