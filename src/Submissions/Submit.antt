-- ===== src/Submissions/Submit.antt =====
-- Submitting a version for review (crates/stack_core/src/providers/appstore/client.rs): an empty
-- draft is reused if there is one, and a new submission is created otherwise.
use stack_connect_core.Prelude.{
  String, ◌<>◌, Bool, true, false, Option, none, some, List, [], ◌∷◌, is_empty,
}
use stack_connect_core.Error.{StackError, display}
use stack_connect_core.Wire.{
  Host, M, Attempt, success, failure, pure, decoded, ◌>>=◌, ◌>>◌, attempt,
}
use stack_connect_core.Transport.{AppStoreClient, post_json_2xx, log_if_on}
use stack_connect_core.Submissions.{
  Decoders, ReviewSubmissionResource, submission_url, item_document, create_document,
  platform_filter, update_submission, fetch_submission_items_page, fetch_submissions_page,
}

abbrev pub drafts_url : AppStoreClient → String → Option String → String
drafts_url c app_id platform =
    c.base_url
    <> "/v1/reviewSubmissions?filter[app]="
    <> app_id
    <> "&filter[state]=READY_FOR_REVIEW"
    <> platform_filter platform

abbrev pub create_url : AppStoreClient → String
create_url c = c.base_url <> "/v1/reviewSubmissions"

abbrev pub reusing_line : String → String → String
reusing_line app_id draft =
    "[RustCore] submit_for_review: reusing empty READY_FOR_REVIEW draft " <> draft <> " for app "
    <> app_id

abbrev pub failed_line : String → StackError → String
failed_line draft e =
    "[RustCore] submit_for_review: reuse of draft "
    <> draft
    <> " failed ("
    <> display e
    <> "); falling back to creating a new review submission"

module _ {H : Host} (D : Decoders) (c : AppStoreClient) where
  -- Only the first page of items is read.
  unfoldable pub submission_is_empty : String → M H Bool
  submission_is_empty id = do
    page ← fetch_submission_items_page D c (submission_url c id <> "/items")
    pure (is_empty page.items)

  -- The loop over the candidates.
  unfoldable pub first_empty : List ReviewSubmissionResource → M H (Option String)
  first_empty [] = pure none
  first_empty (submission ∷ rest) = do
    empty ← submission_is_empty submission.id
    elim empty [ true ↦ pure (some submission.id) | false ↦ first_empty rest ]

  unfoldable pub find_reusable_empty_draft : String → Option String → M H (Option String)
  find_reusable_empty_draft app_id platform = do
    page ← fetch_submissions_page D c (drafts_url c app_id platform)
    first_empty page.submissions

  unfoldable pub attach_and_submit : String → String → M H (Unit {0})
  attach_and_submit submission_id version_id = do
    post_json_2xx c (c.base_url <> "/v1/reviewSubmissionItems")
        (item_document submission_id version_id)
    update_submission c submission_id "submitted"

  -- The original flow: create a submission, attach the version, submit.
  unfoldable pub create_and_submit : String → String → Option String → M H (Unit {0})
  create_and_submit app_id version_id platform = do
    log_if_on c
        ("[RustCore] submit_for_review: creating a new review submission for app " <> app_id)
    body ← post_json_2xx c (create_url c) (create_document app_id platform)
    created ← decoded "review submission response: " (D.created body)
    attach_and_submit created.id version_id

  -- A reuse that failed is logged, and the original flow runs.
  abbrev pub or_create :
      String → String → Option String → String → Attempt (Unit {0}) → M H (Unit {0})
  or_create app_id version_id platform draft (success _) = pure tt
  or_create app_id version_id platform draft (failure e) = do
    log_if_on c (failed_line draft e)
    create_and_submit app_id version_id platform

  abbrev pub reuse_or_create : String → String → Option String → Option String → M H (Unit {0})
  reuse_or_create app_id version_id platform none = create_and_submit app_id version_id platform
  reuse_or_create app_id version_id platform (some draft) = do
    log_if_on c (reusing_line app_id draft)
    result ← attempt (attach_and_submit draft version_id)
    or_create app_id version_id platform draft result

  unfoldable pub submit_for_review : String → String → Option String → M H (Unit {0})
  submit_for_review app_id version_id platform = do
    draft ← find_reusable_empty_draft app_id platform
    reuse_or_create app_id version_id platform draft

  unfoldable pub submit_review_submission : String → M H (Unit {0})
  submit_review_submission submission_id = update_submission c submission_id "submitted"
