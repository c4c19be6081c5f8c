-- ===== src/Submissions/Withdraw.antt =====
-- The other ways out of review (crates/stack_core/src/providers/appstore/client.rs): cancelling the
-- first submission, discarding one submission, rejecting and releasing an approved version.
use stack_connect_core.Prelude.{ℕ, String, ◌<>◌, Option, none, some, List, [], ◌∷◌}
use stack_connect_core.Json.{text, object, member, end, single, document, to_one}
use stack_connect_core.Wire.{Host, M, pure, decoded, ◌>>=◌, ◌>>◌}
use stack_connect_core.Transport.{AppStoreClient, post_json_2xx, delete_at, get_or_404}
use stack_connect_core.Submissions.{
  Decoders, IdResource, ReviewSubmissionResource, Disposition, cancel, discard, skip, disposition,
  submission_url, update_submission, fetch_submissions_page, discard_ready_for_review_submission,
}

abbrev pub cancellable_url : AppStoreClient → String → String
cancellable_url c app_id =
    c.base_url <> "/v1/reviewSubmissions?filter[state]=WAITING_FOR_REVIEW,IN_REVIEW&filter[app]="
    <> app_id

module _ {H : Host} (D : Decoders) (c : AppStoreClient) where
  abbrev pub cancel_first : List ReviewSubmissionResource → M H (Unit {0})
  cancel_first [] = pure tt
  cancel_first (submission ∷ rest) = update_submission c submission.id "canceled"

  unfoldable pub cancel_first_submission : String → M H (Unit {0})
  cancel_first_submission get_url = do
    page ← fetch_submissions_page D c get_url
    cancel_first page.submissions

  unfoldable pub cancel_review : String → M H (Unit {0})
  cancel_review app_id = cancel_first_submission (cancellable_url c app_id)

  abbrev pub discard_by : ℕ → String → Disposition → M H (Unit {0})
  discard_by fuel id cancel = update_submission c id "canceled"
  discard_by fuel id discard = discard_ready_for_review_submission D c fuel id
  discard_by fuel id skip = pure tt

  abbrev pub discard_found : ℕ → String → Option String → M H (Unit {0})
  discard_found fuel id none = pure tt
  discard_found fuel id (some body) = do
    document ← decoded "review submission response: " (D.submission body)
    discard_by fuel id (disposition document.attributes.state)

  unfoldable pub discard_review_submission : ℕ → String → M H (Unit {0})
  discard_review_submission fuel id = do
    found ← get_or_404 c (submission_url c id)
    discard_found fuel id found

  abbrev pub reject_submission : Option IdResource → M H (Unit {0})
  reject_submission none = pure tt
  reject_submission (some submission) =
      delete_at c (c.base_url <> "/v1/appStoreVersionSubmissions/" <> submission.id)

  abbrev pub reject_found : Option String → M H (Unit {0})
  reject_found none = pure tt
  reject_found (some body) = do
    resource ← decoded "version submission response: " (D.version_submission body)
    reject_submission resource

  unfoldable pub reject_version : String → M H (Unit {0})
  reject_version version_id = do
    found ←
        get_or_404 c
          (c.base_url <> "/v1/appStoreVersions/" <> version_id <> "/appStoreVersionSubmission")
    reject_found found

  unfoldable pub release_version : String → M H (Unit {0})
  release_version version_id = do
    post_json_2xx c (c.base_url <> "/v1/appStoreVersionReleaseRequests") (
        document (
          object (
            member "type" (text "appStoreVersionReleaseRequests") (
              member "relationships"
                (single "appStoreVersion" (to_one "appStoreVersions" version_id)) end))))
    pure tt
