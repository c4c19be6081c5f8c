-- ===== src/Screenshots/Sets/Resolved.antt =====
-- The screenshots of a page of screenshot sets (crates/stack_core/src/providers/appstore/client.rs).
use stack_connect_core.Prelude.{
  String, ◌≡◌, refl, inl, inr, Option-cases, Option, none, some, List, [], ◌∷◌, map,
}
use stack_connect_core.Prelude.Table.{Table, lookup, replaced, last_from, add_each, add_each-last}
use stack_connect_core.Paging.{ResourceIdentifier}
use stack_connect_core.Builds.Fetch.{resolve_all}
use stack_connect_core.Screenshots.{AppScreenshotResource, ScreenshotInfo, to_screenshot_info}
use stack_connect_core.Screenshots.Sets.{
  AppScreenshotIncluded, app_screenshots, other, AppScreenshotSetResource,
  AppScreenshotSetsResponse, ScreenshotSetInfo, add_screenshot, set_from, sets_of,
}

abbrev pub as_screenshot : AppScreenshotIncluded → Option (String × AppScreenshotResource)
as_screenshot (app_screenshots r) = some (r.id, r)
as_screenshot other = none

abbrev pub kept_before : Option AppScreenshotResource → List ScreenshotInfo → List ScreenshotInfo
kept_before none rest = rest
kept_before (some r) rest = to_screenshot_info r ∷ rest

-- For each relationship in turn the last included screenshot with its id, if there is one.
abbrev pub included_for : List AppScreenshotIncluded → List ResourceIdentifier → List ScreenshotInfo
included_for included [] = []
included_for included (rel ∷ rels) =
    kept_before (last_from as_screenshot rel.id none included) (included_for included rels)

abbrev pub seen : ScreenshotSetInfo → String × List ScreenshotInfo
seen s = (s.id, s.screenshots)

abbrev pub expected :
    List AppScreenshotIncluded → AppScreenshotSetResource → String × List ScreenshotInfo
expected included s = (s.id, included_for included s.relationships.app_screenshots.resources)

add_screenshot-step :
    (id : String) (table : Table AppScreenshotResource) (r : AppScreenshotIncluded)
    → lookup id (add_screenshot table r) ≡ replaced as_screenshot id (lookup id table) r
unfolding add_screenshot lookup
add_screenshot-step id table (app_screenshots _) = refl
add_screenshot-step id table other = refl

module _ (included : List AppScreenshotIncluded) where
  abbrev table : Table AppScreenshotResource
  table = add_each add_screenshot [] included

  lookup-last : (id : String) → lookup id table ≡ last_from as_screenshot id none included
  unfolding lookup
  lookup-last id =
      add_each-last as_screenshot add_screenshot (λ t. lookup id t) id (add_screenshot-step id) []
        included

  resolve_all-kept :
      (rel : ResourceIdentifier) (rels : List ResourceIdentifier)
      → map to_screenshot_info (resolve_all table (rel ∷ rels))
        ≡ kept_before (lookup rel.id table) (map to_screenshot_info (resolve_all table rels))
  unfolding resolve_all
  resolve_all-kept rel rels = elim (Option-cases (lookup rel.id table)) [
    | inl e ↦ rw (e, resolve_all) refl
    | inr (r, e) ↦ rw (e, resolve_all) refl
  ]

  resolve_all-included :
      (rels : List ResourceIdentifier)
      → map to_screenshot_info (resolve_all table rels) ≡ included_for included rels
  unfolding resolve_all
  resolve_all-included [] = refl
  resolve_all-included (rel ∷ rels) =
      rw (resolve_all-kept rel rels, lookup-last rel.id, resolve_all-included rels) refl

  sets-included :
      (sets : List AppScreenshotSetResource)
      → map seen (map (set_from table) sets) ≡ map (expected included) sets
  unfolding set_from
  sets-included [] = refl
  sets-included (s ∷ sets) =
      rw (sets-included sets, resolve_all-included s.relationships.app_screenshots.resources) refl

-- The sets of a page are its resources in their order, and the screenshots of a set are those that
-- its relationship names, in the order of the relationship: for each name the last included
-- screenshot with the id, and nothing for a name without one.
pub sets_of-included :
    (page : AppScreenshotSetsResponse)
    → map seen (sets_of page) ≡ map (expected page.included) page.resources
sets_of-included page = sets-included page.included page.resources
