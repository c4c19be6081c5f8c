-- ===== src/Reviews.antt =====
-- Customer reviews (crates/stack_core/src/providers/appstore/client.rs): the documents, their
-- mapping, the listing of all reviews and of a single page, the reply and its removal.
pub mod Pages
use stack_connect_core.Prelude.{
  ℕ, ℤ, String, ◌<>◌, Option, none, some, List, [], ◌∷◌, map, and_then, join, to_string,
}
use stack_connect_core.Prelude.Table.{Table, insert, lookup}
use stack_connect_core.Error.{Parsed}
use stack_connect_core.Json.{text, object, member, end, single, document, to_one}
use stack_connect_core.Wire.{Host, M, pure, decoded, ◌>>=◌, ◌>>◌}
use stack_connect_core.Transport.{AppStoreClient, get_page, post_json_2xx, delete_at}
use stack_connect_core.Paging.{Links, ToOneRelationship, next_page, follow, extend}

pub record CustomerReviewAttributes : Type 0 where
  pub rating : ℤ
  pub title : Option String
  pub body : Option String
  pub reviewer_nickname : Option String
  pub created_date : Option String
  pub territory : Option String

pub record CustomerReviewRelationships : Type 0 where
  pub response : ToOneRelationship

pub record CustomerReviewResource : Type 0 where
  pub id : String
  pub attributes : CustomerReviewAttributes
  pub relationships : CustomerReviewRelationships

pub record ReviewResponseAttributes : Type 0 where
  pub response_body : Option String
  pub state : Option String
  pub last_modified_date : Option String

pub record ReviewResponseResource : Type 0 where
  pub id : String
  pub attributes : ReviewResponseAttributes

pub record CustomerReviewsResponse : Type 0 where
  pub reviews : List CustomerReviewResource
  pub included : List ReviewResponseResource
  pub links : Links

pub record ReviewResponse : Type 0 where
  pub id : String
  pub body : Option String
  pub state : Option String
  pub last_modified_date : Option String

pub record CustomerReview : Type 0 where
  pub id : String
  pub rating : ℤ
  pub title : Option String
  pub body : Option String
  pub reviewer_nickname : Option String
  pub created_date : Option String
  pub territory : Option String
  pub response : Option ReviewResponse

pub record CustomerReviewsPage : Type 0 where
  pub reviews : List CustomerReview
  pub next_token : Option String

unfoldable pub into_review_response : ReviewResponseResource → ReviewResponse
into_review_response r = record {
  id = r.id;
  body = r.attributes.response_body;
  state = r.attributes.state;
  last_modified_date = r.attributes.last_modified_date;
}

unfoldable pub into_customer_review :
    CustomerReviewResource → Option ReviewResponse → CustomerReview
into_customer_review r response = record {
  id = r.id;
  rating = r.attributes.rating;
  title = r.attributes.title;
  body = r.attributes.body;
  reviewer_nickname = r.attributes.reviewer_nickname;
  created_date = r.attributes.created_date;
  territory = r.attributes.territory;
  response = response;
}

-- The responses of a page by id; a later one with the same id replaces an earlier one.
unfoldable pub index_responses :
    List ReviewResponseResource → Table ReviewResponse → Table ReviewResponse
index_responses [] table = table
index_responses (r ∷ rs) table = index_responses rs (insert r.id (into_review_response r) table)

unfoldable pub attach_response : Table ReviewResponse → CustomerReviewResource → CustomerReview
attach_response responses review =
    into_customer_review review
      (and_then review.relationships.response.resource (λ rel. lookup rel.id responses))

unfoldable pub reviews_of : CustomerReviewsResponse → List CustomerReview
unfolding attach_response
reviews_of page = map (attach_response (index_responses page.included [])) page.reviews

pub record Decoders : Type 0 where
  pub reviews : String → Parsed CustomerReviewsResponse
  pub response : String → Parsed ReviewResponseResource

abbrev pub rating_filter : List String → String
rating_filter [] = ""
rating_filter (r ∷ rs) = "&filter[rating]=" <> join "," (r ∷ rs)

abbrev pub page_url : AppStoreClient → String → String → List String → ℕ → Option String → String
page_url c app_id sort filter_rating limit (some token) = token
page_url c app_id sort filter_rating limit none =
    (((((((c.base_url <> "/v1/apps/") <> app_id) <> "/customerReviews?sort=") <> sort)
          <> "&include=response&limit=")
        <> to_string limit)
      <> rating_filter filter_rating)

abbrev pub all_reviews_url : AppStoreClient → String → String
all_reviews_url c app_id =
    ((c.base_url <> "/v1/apps/") <> app_id)
    <> "/customerReviews?sort=-createdDate&include=response&limit=50"

module _ {H : Host} (D : Decoders) (c : AppStoreClient) where
  -- One page: its reviews and the URL of the next page.
  unfoldable pub fetch_reviews_at : String → M H (List CustomerReview × Option String)
  fetch_reviews_at url = do
    body ← get_page c url
    page ← decoded "customer reviews response: " (D.reviews body)
    pure (reviews_of page, next_page page.links)

  unfoldable pub fetch_customer_reviews : ℕ → String → M H (List CustomerReview)
  fetch_customer_reviews fuel app_id =
      follow (extend fetch_reviews_at) fuel [] (some (all_reviews_url c app_id))

  unfoldable pub fetch_customer_reviews_page :
      String → String → List String → ℕ → Option String → M H CustomerReviewsPage
  fetch_customer_reviews_page app_id sort filter_rating limit page_token = do
    (reviews, next) ← fetch_reviews_at (page_url c app_id sort filter_rating limit page_token)
    pure (record { reviews = reviews; next_token = next })

  unfoldable pub reply_to_review : String → String → M H ReviewResponse
  reply_to_review review_id body = do
    answer ← post_json_2xx c (c.base_url <> "/v1/customerReviewResponses") (
        document (
          object (
            member "type" (text "customerReviewResponses") (
              member "attributes" (single "responseBody" (text body)) (
                member "relationships" (single "review" (to_one "customerReviews" review_id))
                  end)))))
    resource ← decoded "review response: " (D.response answer)
    pure (into_review_response resource)

  unfoldable pub delete_review_response : String → M H (Unit {0})
  delete_review_response response_id =
      delete_at c (c.base_url <> "/v1/customerReviewResponses/" <> response_id)
