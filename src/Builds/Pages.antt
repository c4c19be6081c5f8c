-- ===== src/Builds/Pages.antt =====
-- Paging through the builds of an app (crates/stack_core/src/providers/appstore/client.rs).
use text.Mathlib.TextLemmas.{append-nil}
use stack_connect_core.Prelude.{ℕ, suc, String, ◌≡◌, ◌∙◌, ap, Option, none, some, List, []}
use stack_connect_core.Wire.{Host, Session, M, pure, ◌>>=◌}
use stack_connect_core.Wire.Inversion.{bind_assoc, bind_ext, pure-bind, bind-pure}
use stack_connect_core.Transport.{AppStoreClient}
use stack_connect_core.Paging.Tokens.{url_of, load_all, load_all-follow}
use stack_connect_core.Builds.{Decoders, BuildInfo, BuildsPage}
use stack_connect_core.Builds.Fetch.{
  builds_url, builds_page_url, fetch_builds_at, fetch_builds, fetch_builds_page,
}

first_url :
    (c : AppStoreClient) (app_id : String) (limit : ℕ)
    → builds_page_url c app_id none [] limit none ≡ builds_url c app_id limit
first_url c app_id limit = simp append-nil

abbrev pub view : BuildsPage → List BuildInfo × Option String
view p = (p.builds, p.next_token)

module _ {H : Host} (D : Decoders) (c : AppStoreClient) (app_id : String) (limit : ℕ) where
  abbrev pub page : Option String → M H BuildsPage
  page token = fetch_builds_page D c app_id none [] limit token

  read_at :
      (token : Option String) (s : Session H)
      → (page token >>= λ p. pure (view p)) s
        ≡ fetch_builds_at D c app_id (builds_page_url c app_id none [] limit token) s
  unfolding fetch_builds_page
  read_at token s =
      let F = fetch_builds_at {H = H} D c app_id (builds_page_url c app_id none [] limit token) in
      bind_assoc F _ _ s ∙ bind_ext F _ pure s (λ (items, next) t. pure-bind _ _ t) ∙ bind-pure F s

  reads :
      (token : Option String) (s : Session H)
      → (page token >>= λ p. pure (view p)) s
        ≡ fetch_builds_at D c app_id
            (url_of view page (fetch_builds_at D c app_id) (builds_url c app_id limit) token)
            s
  reads none s =
      read_at none s ∙ ap (λ u. fetch_builds_at D c app_id u s) (first_url c app_id limit)
  reads (some url) s = read_at (some url) s

  -- The pages of builds that a host loads one after another, each by the token of the page before,
  -- without a filter and with the page size of the full listing, make up the full listing: the same
  -- builds in the same order or the same error, by the same requests.
  pub load_builds-eq-fetch :
      (fuel : ℕ) (s : Session H)
      → load_all view page (fetch_builds_at D c app_id) (builds_url c app_id limit) fuel s
        ≡ fetch_builds D c (suc fuel) app_id limit s
  unfolding fetch_builds
  load_builds-eq-fetch fuel s =
      load_all-follow view page (fetch_builds_at D c app_id) (builds_url c app_id limit) reads fuel
        s
