-- ===== src/Reviews/Pages.antt =====
-- Paging through the customer reviews (crates/stack_core/src/providers/appstore/client.rs).
use text.Mathlib.TextLemmas.{append_assoc}
use stack_connect_core.Prelude.{
  ℕ, suc, String, ◌≡◌, ◌∙◌, ap, Option, none, some, List, [], to_string,
}
use stack_connect_core.Wire.{Host, Session, M, pure, ◌>>=◌}
use stack_connect_core.Wire.Inversion.{bind_assoc, bind_ext, pure-bind, bind-pure}
use stack_connect_core.Transport.{AppStoreClient}
use stack_connect_core.Paging.Tokens.{url_of, load_all, load_all-follow}
use stack_connect_core.Reviews.{
  Decoders, CustomerReview, CustomerReviewsPage, page_url, all_reviews_url, fetch_reviews_at,
  fetch_customer_reviews, fetch_customer_reviews_page,
}

first_url :
    (c : AppStoreClient) (app_id : String)
    → page_url c app_id "-createdDate" [] 50 none ≡ all_reviews_url c app_id
unfolding to_string
first_url c app_id = simp append_assoc

abbrev pub view : CustomerReviewsPage → List CustomerReview × Option String
view p = (p.reviews, p.next_token)

module _ {H : Host} (D : Decoders) (c : AppStoreClient) (app_id : String) where
  abbrev pub page : Option String → M H CustomerReviewsPage
  page token = fetch_customer_reviews_page D c app_id "-createdDate" [] 50 token

  read_at :
      (token : Option String) (s : Session H)
      → (page token >>= λ p. pure (view p)) s
        ≡ fetch_reviews_at D c (page_url c app_id "-createdDate" [] 50 token) s
  unfolding fetch_customer_reviews_page
  read_at token s =
      let F = fetch_reviews_at {H = H} D c (page_url c app_id "-createdDate" [] 50 token) in
      bind_assoc F _ _ s ∙ bind_ext F _ pure s (λ (items, next) t. pure-bind _ _ t) ∙ bind-pure F s

  reads :
      (token : Option String) (s : Session H)
      → (page token >>= λ p. pure (view p)) s
        ≡ fetch_reviews_at D c
            (url_of view page (fetch_reviews_at D c) (all_reviews_url c app_id) token)
            s
  reads none s = read_at none s ∙ ap (λ u. fetch_reviews_at D c u s) (first_url c app_id)
  reads (some url) s = read_at (some url) s

  -- The pages that a host loads one after another, each by the token of the page before, with the
  -- sort and the page size of the full listing and no filter, make up the full listing: the same
  -- reviews in the same order or the same error, by the same requests.
  pub load_reviews-eq-fetch :
      (fuel : ℕ) (s : Session H)
      → load_all view page (fetch_reviews_at D c) (all_reviews_url c app_id) fuel s
        ≡ fetch_customer_reviews D c (suc fuel) app_id s
  unfolding fetch_customer_reviews
  load_reviews-eq-fetch fuel s =
      load_all-follow view page (fetch_reviews_at D c) (all_reviews_url c app_id) reads fuel s
