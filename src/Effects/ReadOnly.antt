-- ===== src/Effects/ReadOnly.antt =====
-- The operations that read send nothing but GET requests
-- (crates/stack_core/src/providers/appstore/client.rs).
use stack_connect_core.Prelude.{ℕ, String, ◌≡◌, Option, none, some, List, [], ◌∷◌}
use stack_connect_core.Error.{Parsed}
use stack_connect_core.Wire.{Host, Request}
use stack_connect_core.Wire.Emits.{Emits, Emits-bind, Emits-pure, Emits-raise, emits_rules}
use stack_connect_core.Transport.{AppStoreClient}
use stack_connect_core.Transport.Requests.{request_rules}
use stack_connect_core.Paging.{Links, follow, extend, read_page, fetch_all}
use stack_connect_core.Paging.Loops.{follow-Emits}
use stack_connect_core.Listing
use stack_connect_core.Listing.{AppInfoResource}
use stack_connect_core.Listing.Info.{
  first_app_info, fetch_app_info, fetch_app_categories, review_detail_of, fetch_app_review_detail,
  fetch_icon_url,
}
use stack_connect_core.Users
use stack_connect_core.Users.{
  active_page, pending_page, fetch_users, fetch_team_members, fetch_user_visible_apps,
}
use stack_connect_core.Signing
use stack_connect_core.Signing.Devices.{
  fetch_devices, fetch_bundle_ids, fetch_bundle_id_capabilities,
}
use stack_connect_core.Signing.Profiles.{
  fetch_certificates, fetch_certificate_content, fetch_profiles, fetch_profile_content,
}

abbrev pub IsGet : Request → Type 0
IsGet req = req.method ≡ "GET"

module _ {H : Host} (c : AppStoreClient) where
  module _ {A P : Type 0} (what : String) (read : String → Parsed P) (items : P → List A)
      (links : P → Links) where
    read_page-IsGet : (url : String) → Emits {H = H} IsGet (read_page c what read items links url)
    unfolding read_page
    read_page-IsGet url = search request_rules

    extend_page-IsGet :
        (gathered : List A) (url : String)
        → Emits {H = H} IsGet (extend (read_page c what read items links) gathered url)
    extend_page-IsGet gathered url = search (emits_rules, read_page-IsGet)

    gather_pages-IsGet :
        (fuel : ℕ) (gathered : List A) (o : Option String)
        → Emits {H = H} IsGet (follow (extend (read_page c what read items links)) fuel gathered o)
    gather_pages-IsGet fuel gathered o = follow-Emits _ fuel gathered o extend_page-IsGet

    fetch_all-IsGet :
        (fuel : ℕ) (first : String)
        → Emits {H = H} IsGet (fetch_all c what read items links fuel first)
    unfolding fetch_all
    fetch_all-IsGet fuel first = gather_pages-IsGet fuel [] (some first)

  module _ (D : Users.Decoders) where
    fetch_users-IsGet : (fuel : ℕ) → Emits {H = H} IsGet (fetch_users D c fuel)
    unfolding fetch_users
    fetch_users-IsGet fuel =
        Emits-bind _ _ (gather_pages-IsGet _ D.users _ _ fuel [] _)
          (λ users. gather_pages-IsGet _ D.invitations _ _ fuel users _)

    users-ReadOnly :
        (fuel : ℕ) (id : String)
        → Emits {H = H} IsGet (fetch_users D c fuel)
          × Emits {H = H} IsGet (fetch_team_members D c fuel)
          × Emits {H = H} IsGet (fetch_user_visible_apps D c fuel id)
    unfolding fetch_team_members fetch_user_visible_apps
    users-ReadOnly fuel id = (
      fetch_users-IsGet fuel,
      fetch_all-IsGet _ D.users _ _ fuel _,
      fetch_all-IsGet _ D.visible_apps _ _ fuel _,
    )

  module _ (D : Signing.Decoders) where
    signing-ReadOnly :
        (fuel : ℕ) (id : String)
        → Emits {H = H} IsGet (fetch_devices D c fuel)
          × Emits {H = H} IsGet (fetch_bundle_ids D c fuel)
          × Emits {H = H} IsGet (fetch_bundle_id_capabilities D c fuel id)
          × Emits {H = H} IsGet (fetch_certificates D c fuel)
          × Emits {H = H} IsGet (fetch_certificate_content D c id)
          × Emits {H = H} IsGet (fetch_profiles D c fuel)
          × Emits {H = H} IsGet (fetch_profile_content D c id)
    unfolding fetch_devices fetch_bundle_ids fetch_bundle_id_capabilities fetch_certificates
        fetch_certificate_content fetch_profiles fetch_profile_content
    signing-ReadOnly fuel id = (
      fetch_all-IsGet _ D.devices _ _ fuel _,
      fetch_all-IsGet _ D.bundle_ids _ _ fuel _,
      fetch_all-IsGet _ D.capabilities _ _ fuel _,
      fetch_all-IsGet _ D.certificates _ _ fuel _,
      search request_rules,
      fetch_all-IsGet _ D.profiles _ _ fuel _,
      search request_rules,
    )

  module _ (D : Listing.Decoders) where
    first_app_info-IsGet :
        (id : String) (rs : List AppInfoResource) → Emits {H = H} IsGet (first_app_info D c id rs)
    first_app_info-IsGet id [] = Emits-raise _
    first_app_info-IsGet id (r ∷ rs) = Emits-pure r

    fetch_app_info-IsGet : (id : String) → Emits {H = H} IsGet (fetch_app_info D c id)
    unfolding fetch_app_info
    fetch_app_info-IsGet id = search (request_rules, first_app_info-IsGet) depth 10

    review_detail_of-IsGet : (o : Option String) → Emits {H = H} IsGet (review_detail_of D c o)
    review_detail_of-IsGet none = Emits-pure none
    review_detail_of-IsGet (some body) = search request_rules

    listing-ReadOnly :
        (fuel : ℕ) (id : String)
        → Emits {H = H} IsGet (fetch_app_info D c id)
          × Emits {H = H} IsGet (fetch_app_categories D c fuel)
          × Emits {H = H} IsGet (fetch_app_review_detail D c id)
          × Emits {H = H} IsGet (fetch_icon_url D c id)
    unfolding fetch_app_categories fetch_app_review_detail fetch_icon_url
    listing-ReadOnly fuel id = (
      fetch_app_info-IsGet id,
      fetch_all-IsGet _ D.categories _ _ fuel _,
      search (request_rules, review_detail_of-IsGet),
      search request_rules,
    )

-- Whatever the service answers, the operations that list users, devices, bundle ids, capabilities,
-- certificates, profiles and categories, and those that fetch an app's information, its review
-- contact, its icon and the content of a certificate or a profile, send no request but GETs, also
-- where they fail.
pub fetches-ReadOnly :
    {H : Host} (c : AppStoreClient) (U : Users.Decoders) (S : Signing.Decoders)
    (L : Listing.Decoders) (fuel : ℕ) (id : String)
    → (Emits {H = H} IsGet (fetch_users U c fuel)
        × Emits {H = H} IsGet (fetch_team_members U c fuel)
        × Emits {H = H} IsGet (fetch_user_visible_apps U c fuel id))
      × (Emits {H = H} IsGet (fetch_devices S c fuel)
          × Emits {H = H} IsGet (fetch_bundle_ids S c fuel)
          × Emits {H = H} IsGet (fetch_bundle_id_capabilities S c fuel id)
          × Emits {H = H} IsGet (fetch_certificates S c fuel)
          × Emits {H = H} IsGet (fetch_certificate_content S c id)
          × Emits {H = H} IsGet (fetch_profiles S c fuel)
          × Emits {H = H} IsGet (fetch_profile_content S c id))
      × (Emits {H = H} IsGet (fetch_app_info L c id)
          × Emits {H = H} IsGet (fetch_app_categories L c fuel)
          × Emits {H = H} IsGet (fetch_app_review_detail L c id)
          × Emits {H = H} IsGet (fetch_icon_url L c id))
fetches-ReadOnly c U S L fuel id =
    (users-ReadOnly c U fuel id, signing-ReadOnly c S fuel id, listing-ReadOnly c L fuel id)
