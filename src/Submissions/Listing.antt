-- ===== src/Submissions/Listing.antt =====
-- Listing the review submissions of an app
-- (crates/stack_core/src/providers/appstore/client.rs): the version and the submitter of each are
-- resolved against the `included` section of the page.
use stack_connect_core.Prelude.{
  ℕ, String, ◌<>◌, ◌≡◌, refl, Option, none, some, List, [], map, and_then, ◌==◌, if◌then◌else◌,
}
use stack_connect_core.Prelude.Table.{
  Table, insert, lookup, add_each, replaced, last_from, add_each-last,
}
use stack_connect_core.Wire.{Host, M, pure, ◌>>=◌}
use stack_connect_core.Transport.{AppStoreClient}
use stack_connect_core.Paging.{next_page, follow, extend}
use stack_connect_core.Submissions.{
  Decoders, ReviewSubmissionResource, ReviewSubmissionsResponse, IncludedResource,
  app_store_versions, actors, other, ActorAttributes, fetch_submissions_page,
}

pub record ReviewSubmission : Type 0 where
  pub id : String
  pub app_id : String
  pub platform : Option String
  pub submitted_date : Option String
  pub state : Option String
  pub version_string : Option String
  pub version_id : Option String
  pub submitted_by_name : Option String
  pub submitted_by_email : Option String

abbrev api_key_name : Option String → Option String → Option String
api_key_name (some id) actor_type = some ("API Key (" <> id <> ")")
api_key_name none none = none
api_key_name none (some actor_type) = if actor_type == "APPLE" then some "Apple" else none

abbrev full_name : Option String → Option String → Option String → Option String
full_name (some first) (some last) otherwise = some (first <> " " <> last)
full_name _ _ otherwise = otherwise

unfoldable pub display_name : ActorAttributes → Option String
display_name a =
    full_name a.user_first_name a.user_last_name (api_key_name a.api_key_id a.actor_type)

-- The two maps that `fetch_review_submissions` fills for a page.
pub record SubmissionIndex : Type 0 where
  pub versions : Table (Option String)
  pub actors : Table ActorAttributes

abbrev no_entries : SubmissionIndex
no_entries = record { versions = []; actors = [] }

-- One round of the loop over `included`.
unfoldable pub add_resource : SubmissionIndex → IncludedResource → SubmissionIndex
add_resource x (app_store_versions id a) = record x {
  versions = insert id a.version_string x.versions;
}
add_resource x (actors id a) = record x { actors = insert id a x.actors }
add_resource x other = x

unfoldable pub index_submissions : List IncludedResource → SubmissionIndex
unfolding add_each add_resource
index_submissions included = add_each add_resource no_entries included

unfoldable pub into_review_submission :
    String → SubmissionIndex → ReviewSubmissionResource → ReviewSubmission
unfolding lookup display_name
into_review_submission app_id x r =
    let version_id =
      and_then r.relationships.app_store_version_for_review.resource (λ rel. some rel.id) in
    let actor =
      and_then r.relationships.submitted_by_actor.resource (λ rel. lookup rel.id x.actors) in
    record {
      id = r.id;
      app_id = app_id;
      platform = r.attributes.platform;
      submitted_date = r.attributes.submitted_date;
      state = r.attributes.state;
      version_string = and_then (and_then version_id (λ id. lookup id x.versions)) (λ v. v);
      version_id = version_id;
      submitted_by_name = and_then actor display_name;
      submitted_by_email = and_then actor (λ a. a.user_email);
    }

unfoldable pub submissions_of : String → ReviewSubmissionsResponse → List ReviewSubmission
unfolding into_review_submission index_submissions
submissions_of app_id page =
    map (into_review_submission app_id (index_submissions page.included)) page.submissions

abbrev all_submissions_url : AppStoreClient → String → String
all_submissions_url c app_id =
    c.base_url <> "/v1/reviewSubmissions?filter[app]=" <> app_id
    <> "&include=appStoreVersionForReview,submittedByActor&limit=50"

module _ {H : Host} (D : Decoders) (c : AppStoreClient) where
  unfoldable pub fetch_submissions_at :
      String → String → M H (List ReviewSubmission × Option String)
  unfolding submissions_of
  fetch_submissions_at app_id url = do
    page ← fetch_submissions_page D c url
    pure (submissions_of app_id page, next_page page.links)

  unfoldable pub fetch_review_submissions : ℕ → String → M H (List ReviewSubmission)
  fetch_review_submissions fuel app_id =
      follow (extend (fetch_submissions_at app_id)) fuel [] (some (all_submissions_url c app_id))

abbrev pub as_version : IncludedResource → Option (String × Option String)
as_version (app_store_versions id a) = some (id, a.version_string)
as_version _ = none

abbrev pub as_actor : IncludedResource → Option (String × ActorAttributes)
as_actor (actors id a) = some (id, a)
as_actor _ = none

version_step :
    (id : String) (x : SubmissionIndex) (r : IncludedResource)
    → lookup id (add_resource x r).versions ≡ replaced as_version id (lookup id x.versions) r
unfolding add_resource lookup
version_step id x (app_store_versions _ _) = refl
version_step id x (actors _ _) = refl
version_step id x other = refl

actor_step :
    (id : String) (x : SubmissionIndex) (r : IncludedResource)
    → lookup id (add_resource x r).actors ≡ replaced as_actor id (lookup id x.actors) r
unfolding add_resource lookup
actor_step id x (app_store_versions _ _) = refl
actor_step id x (actors _ _) = refl
actor_step id x other = refl

-- A listed submission that is related to a version and to an actor shows the version string of the
-- last version in the `included` section with the related id, and the name and the mail address of
-- the last actor there with the related id; each is absent where there is no such entry.
pub into_review_submission-last :
    (app_id : String) (included : List IncludedResource) (r : ReviewSubmissionResource)
    (version actor : String)
    → r.relationships.app_store_version_for_review.resource ≡ some (record { id = version })
    → r.relationships.submitted_by_actor.resource ≡ some (record { id = actor })
    → let listed = into_review_submission app_id (index_submissions included) r in
      let submitter = last_from as_actor actor none included in
      (listed.version_string ≡ and_then (last_from as_version version none included) (λ v. v))
      × (listed.submitted_by_name ≡ and_then submitter display_name)
      × (listed.submitted_by_email ≡ and_then submitter (λ a. a.user_email))
unfolding into_review_submission index_submissions lookup
into_review_submission-last app_id included r version actor hv ha =
    let v =
      add_each-last as_version add_resource (λ x. lookup version x.versions) version
        (version_step version) no_entries included in
    let a =
      add_each-last as_actor add_resource (λ x. lookup actor x.actors) actor (actor_step actor)
        no_entries included in
    (rw (hv, v) refl, rw (ha, a) refl, rw (ha, a) refl)
