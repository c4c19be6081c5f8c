-- ===== src/Users/Everyone.antt =====
-- Whom `fetch_users` lists, and what `delete_user` removes of them
-- (crates/stack_core/src/providers/appstore/client.rs).
use mathlib.Core.Path.{subst}
use stack_connect_core.Prelude.{
  ℕ, ◌≤◌, ◌≡◌, refl, sym, ◌∙◌, ap, true, false, String, ◌<>◌, some, List, [], ◌∷◌, ◌++◌, map,
}
use stack_connect_core.Error.{ok}
use stack_connect_core.Wire.{Host, Session}
use stack_connect_core.Wire.Emits.{Emits}
use stack_connect_core.Wire.Inversion.{bind_at, >>=-eq-ok, >>=_of_ok}
use stack_connect_core.Transport.{AppStoreClient, delete}
use stack_connect_core.Transport.Requests.{delete_at-Emits}
use stack_connect_core.Paging.{follow, extend}
use stack_connect_core.Paging.Walks.{Walk, follow-Walk, Walk-follow}
use stack_connect_core.Users.{
  Decoders, UserInfo, UserResource, UserInvitationResource, into_active_user_info,
  into_pending_user_info, active_url, pending_url, active_page, fetch_users, delete_user,
}

-- The two listings of the service.
abbrev users_listing : AppStoreClient → String
users_listing c =
    c.base_url
    <> "/v1/users?fields[users]=firstName,lastName,username,roles,allAppsVisible,provisioningAllowed&limit=200"

abbrev invitations_listing : AppStoreClient → String
invitations_listing c =
    c.base_url
    <> "/v1/userInvitations?fields[userInvitations]=firstName,lastName,email,roles,allAppsVisible,provisioningAllowed,expirationDate&limit=200"

-- Two lists are related one by one.
abbrev Each : {A B : Type 0} → (A → B → Type 0) → List A → List B → Type 0
Each R [] [] = Unit
Each R (x ∷ xs) (y ∷ ys) = R x y × Each R xs ys
Each R _ _ = ⊥

Each-map :
    {A B : Type 0} (R : A → B → Type 0) (f : A → B) (xs : List A)
    → ((x : A) → R x (f x))
    → Each R xs (map f xs)
Each-map R f [] h = tt
Each-map R f (x ∷ xs) h = (h x, Each-map R f xs h)

module _ (H : Host) (c : AppStoreClient) where
  -- Deleting the listed user sends nothing but a DELETE of that resource.
  abbrev Removes : String → UserInfo → Type 0
  Removes url u =
      Emits {H = H} (λ req. (token : String) × (req ≡ delete url token))
        (delete_user c u.id u.is_pending)

  -- An entry of the list for a user, and for an invitation.
  pub record IsUser (r : UserResource) (u : UserInfo) : Type 0 where
    pub id_is : u.id ≡ r.id
    pub joined : u.is_pending ≡ false
    pub email_is : u.email ≡ r.attributes.username
    pub roles_are : u.roles ≡ r.attributes.roles
    pub removes : Removes (c.base_url <> "/v1/users/" <> r.id) u

  pub record IsInvited (r : UserInvitationResource) (u : UserInfo) : Type 0 where
    pub id_is : u.id ≡ r.id
    pub invited : u.is_pending ≡ true
    pub email_is : u.email ≡ r.attributes.email
    pub roles_are : u.roles ≡ r.attributes.roles
    pub removes : Removes (c.base_url <> "/v1/userInvitations/" <> r.id) u

  IsUser-of_resource : (r : UserResource) → IsUser r (into_active_user_info r)
  unfolding into_active_user_info delete_user
  IsUser-of_resource r = record {
    id_is = refl;
    joined = refl;
    email_is = refl;
    roles_are = refl;
    removes = delete_at-Emits c _ (λ t. (t, refl));
  }

  IsInvited-of_resource : (r : UserInvitationResource) → IsInvited r (into_pending_user_info r)
  unfolding into_pending_user_info delete_user
  IsInvited-of_resource r = record {
    id_is = refl;
    invited = refl;
    email_is = refl;
    roles_are = refl;
    removes = delete_at-Emits c _ (λ t. (t, refl));
  }

  -- The list is these users and behind them these invitations.
  pub record IsListOf (rs : List UserResource) (is : List UserInvitationResource)
      (list : List UserInfo) : Type 0 where
    pub active : List UserInfo
    pub pending : List UserInfo
    pub parts : list ≡ active ++ pending
    pub users : Each IsUser rs active
    pub invitations : Each IsInvited is pending

  list_of :
      (rs : List UserResource) (is : List UserInvitationResource)
      → IsListOf rs is (map into_active_user_info rs ++ map into_pending_user_info is)
  list_of rs is = record {
    active = map into_active_user_info rs;
    pending = map into_pending_user_info is;
    parts = refl;
    users = Each-map IsUser into_active_user_info rs IsUser-of_resource;
    invitations = Each-map IsInvited into_pending_user_info is IsInvited-of_resource;
  }

module _ {H : Host} (D : Decoders) (c : AppStoreClient) where
  -- In this many pages, from one session to another, the service lists these users, and these
  -- invitations.
  abbrev pub ListsUsers : ℕ → List UserResource → Session H → Session H → Type 0
  ListsUsers n =
      Walk c D.users (λ page. page.resources) (λ page. page.links) n (some (users_listing c))

  abbrev pub ListsInvitations : ℕ → List UserInvitationResource → Session H → Session H → Type 0
  ListsInvitations n =
      Walk c D.invitations (λ page. page.resources) (λ page. page.links) n
        (some (invitations_listing c))

  -- Where the service lists these users and then these invitations, in whatever pages, and the fuel
  -- is enough for the pages of either, `fetch_users` returns a list of all of them: the users in the
  -- order of the pages, marked as active, and behind them the invitations, marked as pending.
  pub fetch_users-Serves :
      {n m : ℕ} {rs : List UserResource} {is : List UserInvitationResource} (fuel : ℕ)
      {s t u : Session H}
      → ListsUsers n rs s t
      → ListsInvitations m is t u
      → n ≤ fuel
      → m ≤ fuel
      → (list : List UserInfo) × (fetch_users D c fuel s ≡ (ok list, u)) × IsListOf H c rs is list
  unfolding fetch_users
  fetch_users-Serves {rs = rs} {is = is} fuel first second h k = (
    map into_active_user_info rs ++ map into_pending_user_info is,
    bind_at (follow (extend (active_page D c)) fuel [] (some (active_url c))) _ _ (
          follow-Walk c D.users (λ page. page.resources) (λ page. page.links) into_active_user_info
            "users response: " first fuel [] h)
        ∙ follow-Walk c D.invitations (λ page. page.resources) (λ page. page.links)
            into_pending_user_info "user invitations response: " second fuel
            (map into_active_user_info rs) k,
    list_of H c rs is,
  )

  -- What a returned list comes from.
  pub record IsEveryone (fuel : ℕ) (s u : Session H) (list : List UserInfo) : Type 0 where
    pub between : Session H
    pub rs : List UserResource
    pub is : List UserInvitationResource
    pub n : ℕ
    pub m : ℕ
    pub users : ListsUsers n rs s between
    pub invitations : ListsInvitations m is between u
    pub enough : (n ≤ fuel) × (m ≤ fuel)
    pub list_is : IsListOf H c rs is list

  -- A list that `fetch_users` returns is of the users that the service has listed under `/v1/users`
  -- and behind them of the invitations that it has listed under `/v1/userInvitations`, in their
  -- order and all of them, to the last page of either. `delete_user` with the id and the mark of a
  -- user of the list sends nothing but a DELETE of that user's resource, and of an invitation's with
  -- those of an invitation.
  pub fetch_users-IsEveryone :
      (fuel : ℕ) (s : Session H) (list : List UserInfo)
      → (fetch_users D c fuel s).0 ≡ ok list
      → IsEveryone fuel s (fetch_users D c fuel s).1 list
  unfolding fetch_users
  fetch_users-IsEveryone fuel s list h =
      let first = follow (extend (active_page {H = H} D c)) fuel [] (some (active_url c)) in
      let (active, got, h') = >>=-eq-ok first _ s h in
      let w =
        Walk-follow c D.users (λ page. page.resources) (λ page. page.links) into_active_user_info
          "users response: " fuel [] (some (active_url c)) s got in
      let v =
        Walk-follow c D.invitations (λ page. page.resources) (λ page. page.links)
          into_pending_user_info "user invitations response: " fuel active (some (pending_url c))
          (first s).1 h' in
      record {
        between = (first s).1;
        rs = w.rs;
        is = v.rs;
        n = w.count;
        m = v.count;
        users = w.walk;
        invitations =
            subst (ListsInvitations v.count v.rs (first s).1)
              (sym (ap (λ p. p.1) (>>=_of_ok first _ s got))) v.walk;
        enough = (w.within, v.within);
        list_is =
            subst (IsListOf H c w.rs v.rs)
              (sym (v.out_is ∙ ap (λ l. l ++ map into_pending_user_info v.rs) w.out_is))
              (list_of H c w.rs v.rs);
      }
