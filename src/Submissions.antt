-- ===== src/Submissions.antt =====
-- Review submissions (crates/stack_core/src/providers/appstore/client.rs): submitting a version,
-- cancelling the active submissions of an app, discarding one submission, rejecting a version.
-- The decoders of `serde_json` are parameters. Loops over pages have fuel.
mod Documents
pub mod Submit
pub mod Withdraw
pub mod Listing
pub mod Discarding
pub mod Cancelling
pub mod Submitting
pub mod Submitted
pub mod Requests
pub use Documents.*
use stack_connect_core.Prelude.{
  ℕ, String, ◌<>◌, Bool, true, false, ◌||◌, Option, none, some, List, [], ◌∷◌, ◌==◌, is_empty,
  get_or_insert, if◌then◌else◌,
}
use stack_connect_core.Error.{
  StackError, invalid_credentials, auth, pending_agreements, http, decode, network, unsupported,
  submission_not_removable,
}
use stack_connect_core.Json.{
  Json, text, flag, object, member, member_if, end, single, document, to_one,
}
use stack_connect_core.Wire.{
  Host, M, Attempt, success, failure, pure, raise, decoded, ◌>>=◌, ◌>>◌, attempt,
}
use stack_connect_core.Auth.{bearer_token}
use stack_connect_core.Transport.{
  AppStoreClient, get_page, post_json_2xx, patch_no_content, delete_at, get_or_404, log_if_on,
}
use stack_connect_core.Paging.{follow}

abbrev pub empty_draft_not_removable_message : String
empty_draft_not_removable_message =
    "This review submission has no items and can't be removed through the App Store Connect API. Remove it from the App Store Connect website."

-- What may be done with a submission in a state: the arms of the two matches on `state`.
pub data Disposition : Type 0 where
  cancel discard skip : Disposition

unfoldable pub disposition : Option String → Disposition
disposition none = skip
disposition (some state) =
    if state == "WAITING_FOR_REVIEW" || state == "IN_REVIEW" || state == "UNRESOLVED_ISSUES"
    then cancel
    else if state == "READY_FOR_REVIEW"
    then discard
    else skip

-- `{ "data": { "type": "reviewSubmissions", "id": id, "attributes": { key: true } } }`
abbrev pub submission_update : String → String → Json
submission_update id key = document (
    object (
      member "type" (text "reviewSubmissions")
        (member "id" (text id) (member "attributes" (single key (flag true)) end))))

abbrev pub item_document : String → String → Json
item_document submission_id version_id = document (
    object (
      member "type" (text "reviewSubmissionItems") (
        member "relationships"
          (object (
            member "reviewSubmission" (to_one "reviewSubmissions" submission_id)
              (member "appStoreVersion" (to_one "appStoreVersions" version_id) end)))
          end)))

-- `platform` is a member only if it is given.
abbrev pub platform_attribute : Option String → Json → Json
platform_attribute none relationships =
    object (member "type" (text "reviewSubmissions") (member "relationships" relationships end))
platform_attribute (some platform) relationships = object (
    member "type" (text "reviewSubmissions") (
      member "attributes" (single "platform" (text platform))
        (member "relationships" relationships end)))

abbrev pub create_document : String → Option String → Json
create_document app_id platform =
    document (platform_attribute platform (single "app" (to_one "apps" app_id)))

abbrev pub platform_filter : Option String → String
platform_filter none = ""
platform_filter (some platform) = "&filter[platform]=" <> platform

abbrev pub submission_url : AppStoreClient → String → String
submission_url c id = c.base_url <> "/v1/reviewSubmissions/" <> id

abbrev pub active_submissions_url : AppStoreClient → String → String
active_submissions_url c app_id =
    c.base_url <> "/v1/reviewSubmissions?filter[app]=" <> app_id
    <> "&filter[state]=READY_FOR_REVIEW,WAITING_FOR_REVIEW,IN_REVIEW,UNRESOLVED_ISSUES"

module _ {H : Host} (c : AppStoreClient) where
  -- PATCH of one attribute of a submission to `true`, with a token of its own.
  unfoldable pub update_submission : String → String → M H (Unit {0})
  update_submission id key = do
    token ← bearer_token c.auth
    patch_no_content c (submission_url c id) token (submission_update id key)

  unfoldable pub delete_review_submission_item : String → M H (Unit {0})
  delete_review_submission_item item_id =
      delete_at c (c.base_url <> "/v1/reviewSubmissionItems/" <> item_id)

  unfoldable pub delete_items : List ReviewSubmissionItemResource → M H (Unit {0})
  delete_items [] = pure tt
  delete_items (item ∷ items) = do delete_review_submission_item item.id; delete_items items

module _ {H : Host} (D : Decoders) (c : AppStoreClient) where
  unfoldable pub fetch_submission_items_page : String → M H ReviewSubmissionItemsResponse
  fetch_submission_items_page url = do
    body ← get_page c url
    decoded "review submission items response: " (D.items body)

  unfoldable pub fetch_submissions_page : String → M H ReviewSubmissionsResponse
  fetch_submissions_page url = do
    body ← get_page c url
    decoded "review submissions response: " (D.submissions body)

  -- The loop body of `delete_submission_items`. An empty `links.next` is not filtered here.
  unfoldable pub delete_items_page : Unit {0} → String → M H (Unit {0} × Option String)
  delete_items_page _ url = do
    page ← fetch_submission_items_page url
    delete_items c page.items
    pure (tt, page.links.next)

  unfoldable pub delete_submission_items : ℕ → String → M H (Unit {0})
  delete_submission_items fuel id =
      follow delete_items_page fuel tt
        (some (submission_url c id <> "/items?include=appStoreVersion"))

  -- The state of a submission that may be gone.
  abbrev pub state_of : Option String → M H (Option (Option String))
  state_of none = pure none
  state_of (some body) = do
    document ← decoded "review submission response: " (D.submission body)
    pure (some document.attributes.state)

  unfoldable pub get_review_submission_state : String → M H (Option (Option String))
  get_review_submission_state id = do found ← get_or_404 c (submission_url c id); state_of found

  -- The verdict on a draft after its items have been removed.
  abbrev pub verify_gone : String → Option (Option String) → M H (Unit {0})
  verify_gone id none = pure tt
  verify_gone id (some none) = pure tt
  verify_gone id (some (some state)) =
      if state == "READY_FOR_REVIEW"
      then (do
        log_if_on c (
            "[RustCore] review submission " <> id
            <> " still READY_FOR_REVIEW after item removal (empty draft, not removable via the ASC API)")
        raise (submission_not_removable empty_draft_not_removable_message))
      else pure tt

  unfoldable pub discard_ready_for_review_submission : ℕ → String → M H (Unit {0})
  discard_ready_for_review_submission fuel id = do
    delete_submission_items fuel id
    state ← get_review_submission_state id
    verify_gone id state

  -- The result of a discard inside `cancel_submission`: the first draft that is not removable is
  -- remembered, any other error ends the loop.
  abbrev pub remember : Option StackError → Attempt (Unit {0}) → M H (Option StackError)
  remember kept (success _) = pure kept
  remember kept (failure (submission_not_removable m)) =
      pure (get_or_insert kept (submission_not_removable m))
  remember kept (failure e) = raise e

  abbrev pub dispose : ℕ → Option StackError → String → Disposition → M H (Option StackError)
  dispose fuel kept id cancel = do update_submission c id "canceled"; pure kept
  dispose fuel kept id discard = do
    result ← attempt (discard_ready_for_review_submission fuel id)
    remember kept result
  dispose fuel kept id skip = pure kept

  unfoldable pub cancel_each :
      ℕ → List ReviewSubmissionResource → Option StackError → M H (Option StackError)
  cancel_each fuel [] kept = pure kept
  cancel_each fuel (submission ∷ rest) kept = do
    kept' ← dispose fuel kept submission.id (disposition submission.attributes.state)
    cancel_each fuel rest kept'

  abbrev pub or_not_removable : Option StackError → M H (Unit {0})
  or_not_removable none = pure tt
  or_not_removable (some e) = raise e

  unfoldable pub cancel_submission : ℕ → String → M H (Unit {0})
  cancel_submission fuel app_id = do
    page ← fetch_submissions_page (active_submissions_url c app_id)
    kept ← cancel_each fuel page.submissions none
    or_not_removable kept
