-- ===== src/Users/Documents.antt =====
-- The documents of users and of invitations, and what they are mapped to
-- (crates/stack_core/src/providers/appstore/client.rs, crates/stack_core/src/domain.rs).
use stack_connect_core.Prelude.{String, Bool, true, false, Option, none, List, or_false}
use stack_connect_core.Error.{Parsed}
use stack_connect_core.Paging.{Links}

pub record UserAttributes : Type 0 where
  pub first_name : Option String
  pub last_name : Option String
  pub username : Option String
  pub roles : List String
  pub all_apps_visible : Option Bool
  pub provisioning_allowed : Option Bool

pub record UserResource : Type 0 where
  pub id : String
  pub attributes : UserAttributes

pub record UsersResponse : Type 0 where
  pub resources : List UserResource
  pub links : Links

pub record UserInvitationAttributes : Type 0 where
  pub first_name : Option String
  pub last_name : Option String
  pub email : Option String
  pub roles : List String
  pub all_apps_visible : Option Bool
  pub provisioning_allowed : Option Bool
  pub expiration_date : Option String

pub record UserInvitationResource : Type 0 where
  pub id : String
  pub attributes : UserInvitationAttributes

pub record UserInvitationsResponse : Type 0 where
  pub resources : List UserInvitationResource
  pub links : Links

pub record Linkage : Type 0 where
  pub id : String

pub record VisibleAppsLinkageResponse : Type 0 where
  pub resources : List Linkage
  pub links : Links

pub record TeamMemberInfo : Type 0 where
  pub id : String
  pub first_name : Option String
  pub last_name : Option String
  pub username : Option String
  pub roles : List String

pub record UserInfo : Type 0 where
  pub id : String
  pub first_name : Option String
  pub last_name : Option String
  pub email : Option String
  pub roles : List String
  pub all_apps_visible : Bool
  pub provisioning_allowed : Bool
  pub is_pending : Bool
  pub expiration_date : Option String

unfoldable pub into_team_member_info : UserResource → TeamMemberInfo
into_team_member_info r = record {
  id = r.id;
  first_name = r.attributes.first_name;
  last_name = r.attributes.last_name;
  username = r.attributes.username;
  roles = r.attributes.roles;
}

unfoldable pub into_active_user_info : UserResource → UserInfo
into_active_user_info r = record {
  id = r.id;
  first_name = r.attributes.first_name;
  last_name = r.attributes.last_name;
  email = r.attributes.username;
  roles = r.attributes.roles;
  all_apps_visible = or_false r.attributes.all_apps_visible;
  provisioning_allowed = or_false r.attributes.provisioning_allowed;
  is_pending = false;
  expiration_date = none;
}

unfoldable pub into_pending_user_info : UserInvitationResource → UserInfo
into_pending_user_info r = record {
  id = r.id;
  first_name = r.attributes.first_name;
  last_name = r.attributes.last_name;
  email = r.attributes.email;
  roles = r.attributes.roles;
  all_apps_visible = or_false r.attributes.all_apps_visible;
  provisioning_allowed = or_false r.attributes.provisioning_allowed;
  is_pending = true;
  expiration_date = r.attributes.expiration_date;
}

pub record Decoders : Type 0 where
  pub users : String → Parsed UsersResponse
  pub invitations : String → Parsed UserInvitationsResponse
  pub visible_apps : String → Parsed VisibleAppsLinkageResponse
