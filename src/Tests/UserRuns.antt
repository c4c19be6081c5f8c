-- ===== src/Tests/UserRuns.antt =====
-- Runs of the listing of users
-- (crates/stack_core/src/providers/appstore/client.rs).
use stack_connect_core.Prelude.{
  ◌≡◌, refl, arith, true, none, some, List, [], ◌∷◌, ◌++◌, ◌==◌, if◌then◌else◌,
}
use stack_connect_core.Error.{ok, parsed, malformed}
use stack_connect_core.Wire.{
  Session, answer, ◌>>=◌, unix_now, cached, exchange, decoded, pure, log_line,
}
use stack_connect_core.Auth.{bearer_token, needs_refresh}
use stack_connect_core.Transport.{get_page, send_and_read}
use stack_connect_core.Paging.{Links, read_page, follow}
use stack_connect_core.Paging.Walks.{ended, turned}
use stack_connect_core.Users
use stack_connect_core.Users.{
  UserResource, UserInvitationResource, UserInfo, into_active_user_info, into_pending_user_info,
  active_page, pending_page, active_url, pending_url, fetch_users, fetch_team_members,
  fetch_user_visible_apps,
}
use stack_connect_core.Users.Listed.{list_active, list_pending, fetch_users-append}
use stack_connect_core.Users.Everyone.{
  ListsUsers, ListsInvitations, IsListOf, IsEveryone, fetch_users-Serves, fetch_users-IsEveryone,
}
use stack_connect_core.Tests.Script.{scripted, sample_client as client, ready}

abbrev pub last_page : Links
last_page = record { next = none }

abbrev ann : UserResource
ann = record {
  id = "u1";
  attributes = record {
    first_name = some "Ann";
    last_name = none;
    username = some "ann@x";
    roles = "ADMIN" ∷ [];
    all_apps_visible = none;
    provisioning_allowed = none;
  };
}

abbrev bob : UserInvitationResource
bob = record {
  id = "i1";
  attributes = record {
    first_name = some "Bob";
    last_name = none;
    email = some "bob@x";
    roles = [];
    all_apps_visible = some true;
    provisioning_allowed = none;
    expiration_date = some "2026";
  };
}

abbrev pub people : Users.Decoders
people = record {
  users = λ s.
      if s == "users"
      then parsed (record { resources = ann ∷ []; links = last_page })
      else malformed "?";
  invitations = λ s. parsed (record { resources = bob ∷ []; links = last_page });
  visible_apps = λ s. malformed "?";
}

abbrev both : Session scripted
both = ready (answer 200 "users" ∷ answer 200 "invitations" ∷ [])

fetch_users-append_example :
    fetch_users people client 3 both
    ≡ (list_active people client 3 >>= λ active.
          list_pending people client 3 >>= λ pending. pure (active ++ pending))
        both
fetch_users-append_example = fetch_users-append people client 3 both

abbrev after_users : Session scripted
after_users = (get_page client (active_url client) both).1

abbrev after_invitations : Session scripted
after_invitations = (get_page client (pending_url client) after_users).1

users_page : get_page client (active_url client) both ≡ (ok "users", after_users)
unfolding get_page bearer_token unix_now cached needs_refresh send_and_read exchange log_line pure
    ◌>>=◌
users_page = refl

invitations_page :
    get_page client (pending_url client) after_users ≡ (ok "invitations", after_invitations)
unfolding get_page bearer_token unix_now cached needs_refresh send_and_read exchange log_line pure
    ◌>>=◌
invitations_page = refl

both_listed : ListsUsers people client 1 (ann ∷ []) both after_users
both_listed = turned users_page refl refl (ended refl)

invitation_listed : ListsInvitations people client 1 (bob ∷ []) after_users after_invitations
invitation_listed = turned invitations_page refl refl (ended refl)

fetch_users-Serves_example :
    (list : List UserInfo) × (fetch_users people client 1 both ≡ (ok list, after_invitations))
    × IsListOf scripted client (ann ∷ []) (bob ∷ []) list
fetch_users-Serves_example =
    fetch_users-Serves people client 1 both_listed invitation_listed (omega arith) (omega arith)

everyone :
    (fetch_users people client 1 both).0
    ≡ ok (into_active_user_info ann ∷ into_pending_user_info bob ∷ [])
unfolding fetch_users follow read_page get_page bearer_token unix_now cached needs_refresh
    send_and_read exchange log_line decoded pure ◌>>=◌
everyone = refl

fetch_users-IsEveryone_example :
    IsEveryone people client 1 both
      (fetch_users people client 1 both).1
      (into_active_user_info ann ∷ into_pending_user_info bob ∷ [])
fetch_users-IsEveryone_example =
    fetch_users-IsEveryone people client 1 both
      (into_active_user_info ann ∷ into_pending_user_info bob ∷ []) everyone
