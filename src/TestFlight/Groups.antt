-- ===== src/TestFlight/Groups.antt =====
-- Beta groups and beta testers (crates/stack_core/src/providers/appstore/client.rs).
use stack_connect_core.Prelude.{
  ℕ, ℤ, String, ◌<>◌, Bool, true, Option, List, [], ◌∷◌, map, to_string,
}
use stack_connect_core.Json.{
  Json, Members, text, flag, array, member, end, object, document, to_one, identifiers, member_if,
  flag_if, integer_if, changes, creation,
}
use stack_connect_core.Wire.{Host, M, pure, decoded, ◌>>=◌}
use stack_connect_core.Transport.{
  AppStoreClient, get_page, post_json_2xx, patch_json_2xx, post_unit, delete_at, delete_with,
}
use stack_connect_core.Paging.{fetch_all}
use stack_connect_core.Builds.{BetaGroupInfo}
use stack_connect_core.TestFlight.{
  Decoders, BetaTesterInfo, into_beta_group_info, into_beta_group_info_inferring_app,
  into_beta_tester_info, total,
}

abbrev creation_of_group : String → String → Bool → Bool → Bool → Json
creation_of_group app_id name is_internal public_link_enabled has_access_to_all_builds =
    creation "betaGroups"
      (member "name" (text name) (
        member "isInternalGroup" (flag is_internal) (
          member "hasAccessToAllBuilds" (flag has_access_to_all_builds) (
            member "isPublicLinkEnabled" (flag public_link_enabled)
              (member "isFeedbackEnabled" (flag true) end)))))
      (member "app" (to_one "apps" app_id) end)

abbrev pub group_attributes : Option String → Option Bool → Option ℤ → Option Bool → Members
group_attributes name public_link_enabled public_link_limit feedback_enabled =
    member_if "name" name (
      flag_if "isPublicLinkEnabled" public_link_enabled (
        integer_if "publicLinkLimit" public_link_limit
          (flag_if "isFeedbackEnabled" feedback_enabled end)))

abbrev creation_of_tester : String → String → Option String → Option String → Json
creation_of_tester group_id email first_name last_name =
    creation "betaTesters"
      (member_if "firstName" first_name
        (member_if "lastName" last_name (member "email" (text email) end)))
      (member "betaGroups" (document (array (identifiers "betaGroups" (group_id ∷ [])))) end)

abbrev invitation_of_tester : String → String → Json
invitation_of_tester tester_id app_id = document (
    object (
      member "type" (text "betaTesterInvitations") (
        member "relationships"
          (object (
            member "betaTester" (to_one "betaTesters" tester_id)
              (member "app" (to_one "apps" app_id) end)))
          end)))

module _ {H : Host} (D : Decoders) (c : AppStoreClient) where
  unfoldable pub fetch_beta_groups : ℕ → String → ℕ → M H (List BetaGroupInfo)
  fetch_beta_groups fuel app_id limit =
      fetch_all c "beta groups response: " D.groups
        (λ page. map (λ g. into_beta_group_info g app_id) page.resources) (λ page. page.links) fuel
        (c.base_url <> "/v1/betaGroups?filter[app]=" <> app_id <> "&limit=" <> to_string limit)

  unfoldable pub fetch_beta_testers : ℕ → String → ℕ → M H (List BetaTesterInfo)
  fetch_beta_testers fuel group_id limit =
      fetch_all c "beta testers response: " D.testers
        (λ page. map into_beta_tester_info page.resources) (λ page. page.links) fuel
        (c.base_url
          <> "/v1/betaTesters?filter[betaGroups]="
          <> group_id
          <> "&limit="
          <> to_string limit)

  unfoldable pub create_beta_group : String → String → Bool → Bool → Bool → M H BetaGroupInfo
  create_beta_group app_id name is_internal public_link_enabled has_access_to_all_builds = do
    body ←
        post_json_2xx c (c.base_url <> "/v1/betaGroups")
          (creation_of_group app_id name is_internal public_link_enabled has_access_to_all_builds)
    made ← decoded "beta group response: " (D.group body)
    pure (into_beta_group_info made.resource app_id)

  unfoldable pub update_beta_group :
      String → Option String → Option Bool → Option ℤ → Option Bool → M H BetaGroupInfo
  update_beta_group group_id name public_link_enabled public_link_limit feedback_enabled = do
    body ← patch_json_2xx c (c.base_url <> "/v1/betaGroups/" <> group_id) (
        changes "betaGroups" group_id
          (group_attributes name public_link_enabled public_link_limit feedback_enabled))
    changed ← decoded "beta group response: " (D.group body)
    pure (into_beta_group_info_inferring_app changed.resource)

  unfoldable pub delete_beta_group : String → M H (Unit {0})
  delete_beta_group group_id = delete_at c (c.base_url <> "/v1/betaGroups/" <> group_id)

  unfoldable pub add_beta_tester :
      String → String → Option String → Option String → M H BetaTesterInfo
  add_beta_tester group_id email first_name last_name = do
    body ←
        post_json_2xx c (c.base_url <> "/v1/betaTesters")
          (creation_of_tester group_id email first_name last_name)
    added ← decoded "beta tester response: " (D.tester body)
    pure (into_beta_tester_info added.resource)

  unfoldable pub remove_beta_tester : String → String → M H (Unit {0})
  remove_beta_tester group_id tester_id =
      delete_with c (c.base_url <> "/v1/betaGroups/" <> group_id <> "/relationships/betaTesters")
        (document (array (identifiers "betaTesters" (tester_id ∷ []))))

  unfoldable pub fetch_tester_count : String → M H ℕ
  fetch_tester_count group_id = do
    body ← get_page c (c.base_url <> "/v1/betaGroups/" <> group_id <> "/betaTesters?limit=1")
    response ← decoded "beta testers count response: " (D.tester_count body)
    pure (total response)

  unfoldable pub resend_invite : String → String → M H (Unit {0})
  resend_invite tester_id app_id =
      post_unit c (c.base_url <> "/v1/betaTesterInvitations")
        (invitation_of_tester tester_id app_id)
