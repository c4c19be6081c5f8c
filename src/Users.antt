-- ===== src/Users.antt =====
-- The users of a team: the active ones, and those who have been invited
-- (crates/stack_core/src/providers/appstore/client.rs).
mod Documents
pub mod Listed
pub mod Everyone
unfoldable pub use Documents.*
use stack_connect_core.Prelude.{ℕ, String, ◌<>◌, Bool, Option, some, List, [], map, if◌then◌else◌}
use stack_connect_core.Json.{
  Json, Members, text, flag, array, member, end, document, texts, identifiers, changes,
  plain_creation,
}
use stack_connect_core.Wire.{Host, M, ◌>>=◌}
use stack_connect_core.Transport.{AppStoreClient, post_unit, patch_unit, delete_at}
use stack_connect_core.Paging.{follow, extend, read_page, fetch_all}

abbrev pub active_url : AppStoreClient → String
active_url c =
    c.base_url
    <> "/v1/users?fields[users]=firstName,lastName,username,roles,allAppsVisible,provisioningAllowed&limit=200"

abbrev pub pending_url : AppStoreClient → String
pending_url c =
    c.base_url
    <> "/v1/userInvitations?fields[userInvitations]=firstName,lastName,email,roles,allAppsVisible,provisioningAllowed,expirationDate&limit=200"

abbrev pub access_attributes : List String → Bool → Bool → Members
access_attributes roles all_apps_visible provisioning_allowed =
    member "roles" (array (texts roles)) (
      member "allAppsVisible" (flag all_apps_visible)
        (member "provisioningAllowed" (flag provisioning_allowed) end))

-- An invitation is deleted in place of a user who has not accepted it.
abbrev pub user_url : AppStoreClient → String → Bool → String
user_url c id is_pending =
    if is_pending
    then c.base_url <> "/v1/userInvitations/" <> id
    else c.base_url <> "/v1/users/" <> id

module _ {H : Host} (D : Decoders) (c : AppStoreClient) where
  unfoldable pub fetch_team_members : ℕ → M H (List TeamMemberInfo)
  fetch_team_members fuel =
      fetch_all c "users response: " D.users (λ page. map into_team_member_info page.resources)
        (λ page. page.links) fuel
        (c.base_url <> "/v1/users?fields[users]=firstName,lastName,username,roles&limit=200")

  abbrev pub active_page : String → M H (List UserInfo × Option String)
  active_page =
      read_page c "users response: " D.users (λ page. map into_active_user_info page.resources)
        (λ page. page.links)

  abbrev pub pending_page : String → M H (List UserInfo × Option String)
  pending_page =
      read_page c "user invitations response: " D.invitations
        (λ page. map into_pending_user_info page.resources) (λ page. page.links)

  -- Two loops that gather in one list.
  unfoldable pub fetch_users : ℕ → M H (List UserInfo)
  fetch_users fuel = do
    users ← follow (extend active_page) fuel [] (some (active_url c))
    follow (extend pending_page) fuel users (some (pending_url c))

  unfoldable pub fetch_user_visible_apps : ℕ → String → M H (List String)
  fetch_user_visible_apps fuel id =
      fetch_all c "visible apps response: " D.visible_apps
        (λ page. map (λ (linkage : Linkage). linkage.id) page.resources) (λ page. page.links) fuel
        (c.base_url <> "/v1/users/" <> id <> "/relationships/visibleApps?limit=200")

module _ {H : Host} (c : AppStoreClient) where
  unfoldable pub invite_user : String → String → String → List String → Bool → Bool → M H (Unit {0})
  invite_user email first_name last_name roles all_apps_visible provisioning_allowed =
      post_unit c (c.base_url <> "/v1/userInvitations") (
        plain_creation "userInvitations" (
          member "email" (text email) (
            member "firstName" (text first_name) (
              member "lastName" (text last_name)
                (access_attributes roles all_apps_visible provisioning_allowed)))))

  unfoldable pub delete_user : String → Bool → M H (Unit {0})
  delete_user id is_pending = delete_at c (user_url c id is_pending)

  unfoldable pub update_user : String → List String → Bool → Bool → M H (Unit {0})
  update_user id roles all_apps_visible provisioning_allowed =
      patch_unit c (c.base_url <> "/v1/users/" <> id)
        (changes "users" id (access_attributes roles all_apps_visible provisioning_allowed))

  unfoldable pub update_user_visible_apps : String → List String → M H (Unit {0})
  update_user_visible_apps id app_ids =
      patch_unit c (c.base_url <> "/v1/users/" <> id <> "/relationships/visibleApps")
        (document (array (identifiers "apps" app_ids)))
