-- ===== src/Users/Listed.antt =====
-- What `fetch_users` lists (crates/stack_core/src/providers/appstore/client.rs).
use stack_connect_core.Prelude.{ℕ, ◌≡◌, some, List, [], ◌++◌}
use stack_connect_core.Wire.{Host, Session, M, pure, ◌>>=◌}
use stack_connect_core.Wire.Inversion.{bind_ext}
use stack_connect_core.Transport.{AppStoreClient}
use stack_connect_core.Paging.{follow, extend}
use stack_connect_core.Paging.Gathered.{follow-from}
use stack_connect_core.Users.{
  Decoders, UserInfo, active_url, pending_url, active_page, pending_page, fetch_users,
}

module _ {H : Host} (D : Decoders) (c : AppStoreClient) where
  abbrev pub list_active : ℕ → M H (List UserInfo)
  list_active fuel = follow (extend (active_page D c)) fuel [] (some (active_url c))

  abbrev pub list_pending : ℕ → M H (List UserInfo)
  list_pending fuel = follow (extend (pending_page D c)) fuel [] (some (pending_url c))

  -- Listing the users does what listing the active users by themselves and then the invitations by
  -- themselves does, from any session and also where it fails, and returns the one list in front of
  -- the other.
  pub fetch_users-append :
      (fuel : ℕ) (s : Session H)
      → fetch_users D c fuel s
        ≡ (list_active fuel >>= λ active. list_pending fuel >>= λ pending. pure (active ++ pending))
            s
  unfolding fetch_users
  fetch_users-append fuel s =
      bind_ext (list_active fuel) _ _ s
        (λ active t. follow-from (pending_page D c) fuel active (some (pending_url c)) t)
