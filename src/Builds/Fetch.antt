-- ===== src/Builds/Fetch.antt =====
-- The reading operations on builds (crates/stack_core/src/providers/appstore/client.rs).
use mathlib.Core.Option
use stack_connect_core.Prelude.{
  ℕ, String, ◌<>◌, Option, none, some, List, [], ◌∷◌, map, join, to_string,
}
use stack_connect_core.Prelude.Table.{Table, lookup}
use stack_connect_core.Error.{decode}
use stack_connect_core.Wire.{Host, M, pure, raise, decoded, ◌>>=◌}
use stack_connect_core.Transport.{AppStoreClient, get_page, get_or_404}
use stack_connect_core.Paging.{ResourceIdentifier, next_page, follow, extend}
use stack_connect_core.Builds.{
  Decoders, BuildsResponse, BuildDocument, BuildResource, BuildInfo, BuildsPage, BuildDetailInfo,
  BuildIncluded, empty_index, from_included, build_info_from, to_beta_group_info,
  to_beta_build_localization_info,
}

abbrev pub builds_query : ℕ → String
builds_query limit =
    ("&sort=-uploadedDate&limit=" <> to_string limit)
    <> "&include=preReleaseVersion,buildBetaDetail,betaAppReviewSubmission"

abbrev pub platform_filter : Option String → String
platform_filter none = ""
platform_filter (some platform) = "&filter[preReleaseVersion.platform]=" <> platform

abbrev pub state_filter : List String → String
state_filter [] = ""
state_filter (x ∷ xs) = "&filter[processingState]=" <> join "," (x ∷ xs)

abbrev pub builds_url : AppStoreClient → String → ℕ → String
builds_url c app_id limit =
    ((c.base_url <> "/v1/builds?filter[app]=") <> app_id) <> builds_query limit

abbrev pub builds_page_url :
    AppStoreClient → String → Option String → List String → ℕ → Option String → String
builds_page_url c app_id platform states limit (some token) = token
builds_page_url c app_id platform states limit none =
    (builds_url c app_id limit <> platform_filter platform) <> state_filter states

abbrev pub builds_of : String → BuildsResponse → List BuildInfo
builds_of app_id page =
    let index = from_included page.included in map (λ b. build_info_from b app_id index) page.builds

-- `rels.iter().filter_map(|rel| table.get(&rel.id))`
unfoldable pub resolve_all {ℓ} : {V : Type ℓ} → Table V → List ResourceIdentifier → List V
resolve_all table [] = []
resolve_all table (rel ∷ rels) =
    let rest = resolve_all table rels in
    elim (lookup rel.id table) [ none ↦ rest | some v ↦ v ∷ rest ]

unfoldable pub build_detail_from : BuildResource → List BuildIncluded → BuildDetailInfo
unfolding resolve_all
build_detail_from r included =
    let index = from_included included in
    record {
      build = build_info_from r "" index;
      beta_groups =
          map (λ g. to_beta_group_info g "")
            (resolve_all index.beta_groups r.relationships.beta_groups.resources);
      localizations = map to_beta_build_localization_info (
          resolve_all index.beta_build_localizations
            r.relationships.beta_build_localizations.resources);
    }

module _ {H : Host} (D : Decoders) (c : AppStoreClient) where
  unfoldable pub fetch_builds_at : String → String → M H (List BuildInfo × Option String)
  fetch_builds_at app_id url = do
    body ← get_page c url
    page ← decoded "builds response: " (D.builds body)
    pure (builds_of app_id page, next_page page.links)

  unfoldable pub fetch_builds : ℕ → String → ℕ → M H (List BuildInfo)
  fetch_builds fuel app_id limit =
      follow (extend (fetch_builds_at app_id)) fuel [] (some (builds_url c app_id limit))

  unfoldable pub fetch_builds_page :
      String → Option String → List String → ℕ → Option String → M H BuildsPage
  fetch_builds_page app_id platform states limit page_token = do
    (builds, next) ←
        fetch_builds_at app_id (builds_page_url c app_id platform states limit page_token)
    pure (record { builds = builds; next_token = next })

  unfoldable pub fetch_builds_for_group : ℕ → String → ℕ → M H (List BuildInfo)
  fetch_builds_for_group fuel group_id limit =
      follow (extend (fetch_builds_at "")) fuel [] (
        some (((c.base_url <> "/v1/builds?filter[betaGroups]=") <> group_id) <> builds_query limit))

  abbrev pub detail_of : BuildDocument → Option BuildResource → M H BuildDetailInfo
  detail_of document none = raise (decode "build detail response: missing data")
  detail_of document (some r) = pure (build_detail_from r document.included)

  unfoldable pub fetch_build_detail : String → M H BuildDetailInfo
  fetch_build_detail build_id = do
    body ← get_page c (
        (c.base_url <> "/v1/builds/")
        <> build_id
        <> "?include=preReleaseVersion,buildBetaDetail,betaAppReviewSubmission,betaGroups,betaBuildLocalizations&limit[betaBuildLocalizations]=50&limit[betaGroups]=50")
    document ← decoded "build detail response: " (D.build body)
    detail_of document document.build

  abbrev pub current_of : Option String → M H (Option BuildInfo)
  current_of none = pure none
  current_of (some body) = do
    document ← decoded "current build response: " (D.build body)
    pure (Option.map (λ r. build_info_from r "" empty_index) document.build)

  unfoldable pub fetch_current_build : String → M H (Option BuildInfo)
  fetch_current_build version_id = do
    found ← get_or_404 c (c.base_url <> "/v1/appStoreVersions/" <> version_id <> "/build")
    current_of found
