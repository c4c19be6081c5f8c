-- ===== src/Tests/SubmissionRuns.antt =====
-- Runs of the submission operations of crates/stack_core/src/providers/appstore/client.rs against a
-- scripted service.
use stack_connect_core.Prelude.{◌≡◌, ◌≢◌, refl, String, Option, none, some, List, [], ◌∷◌}
use stack_connect_core.Error.{submission_not_removable, ok, err}
use stack_connect_core.Wire.{
  Session, answer, ◌>>=◌, raise, unix_now, cached, exchange, decoded, pure, log_line, attempt,
}
use stack_connect_core.Wire.Emits.{Sends}
use stack_connect_core.Auth.{bearer_token, needs_refresh}
use stack_connect_core.Paging.{follow}
use stack_connect_core.Transport.{
  get_page, send_and_read, post_json_2xx, patch_no_content, delete_at, get_or_404, failure_error,
  pending_agreements_error,
}
use stack_connect_core.Submissions.{
  ReviewSubmissionResource, submission_url, fetch_submissions_page, fetch_submission_items_page,
  active_submissions_url, disposition, cancel_submission, cancel_each, update_submission,
  delete_items, delete_items_page, delete_submission_items, delete_review_submission_item,
  discard_ready_for_review_submission, get_review_submission_state,
}
use stack_connect_core.Submissions.Withdraw.{discard_review_submission}
use stack_connect_core.Submissions.Discarding.{discard_review_submission-Sends}
use stack_connect_core.Submissions.Submit.{
  find_reusable_empty_draft, first_empty, submission_is_empty, attach_and_submit, create_and_submit,
  submit_for_review,
}
use stack_connect_core.Submissions.Requests.{Withdraws, cancel_submission-Sends}
use stack_connect_core.Submissions.Cancelling.{with_first, discard_verified, cancel_each_kept}
use stack_connect_core.Submissions.Submitting.{Reuses, reusing, submit_by_reuse}
use stack_connect_core.Submissions.Submitted.{IsSubmitted, submit_for_review-IsSubmitted}
use stack_connect_core.Tests.Script.{
  scripted, sample_client as client, ready, in_state, listed, by_text,
}

-- One submission is in review, one is a draft with an item that stays a draft when it is removed.
abbrev withdrawing : Session scripted
withdrawing = ready (
    answer 200 "listed"
    ∷ answer 200 ""
    ∷ answer 200 "item"
    ∷ answer 204 ""
    ∷ answer 200 "READY_FOR_REVIEW"
    ∷ [])

abbrev active : String
active = active_submissions_url client "app"

listed_first :
    fetch_submissions_page by_text client active withdrawing
    ≡ (ok listed, (fetch_submissions_page by_text client active withdrawing).1)
unfolding fetch_submissions_page get_page send_and_read bearer_token exchange decoded cached
    unix_now needs_refresh ◌>>=◌ log_line pure
listed_first = refl

cancel_submission-Sends_example :
    Sends
      (Withdraws client listed.submissions)
      (fetch_submissions_page by_text client active withdrawing).1
      (cancel_submission by_text client 2 "app" withdrawing).1
cancel_submission-Sends_example =
    cancel_submission-Sends by_text client 2 "app" withdrawing
      (fetch_submissions_page by_text client active withdrawing).1 listed listed_first

-- The whole run: it ends with the draft that is not removable.
withdrawn :
    (cancel_submission by_text client 2 "app" withdrawing).0
    ≡ err (
        submission_not_removable
          "This review submission has no items and can't be removed through the App Store Connect API. Remove it from the App Store Connect website.")
unfolding fetch_submissions_page get_page send_and_read bearer_token exchange decoded cached
    unix_now needs_refresh ◌>>=◌ log_line pure cancel_submission cancel_each update_submission
    delete_items delete_items_page delete_submission_items delete_review_submission_item delete_at
    patch_no_content discard_ready_for_review_submission get_review_submission_state get_or_404
    follow attempt disposition raise fetch_submission_items_page
withdrawn = refl

-- A draft with an item, which is gone when the item is removed.
abbrev discarding : Session scripted
discarding = ready (answer 200 "item" ∷ answer 204 "" ∷ answer 404 "" ∷ [])

discarded : (discard_ready_for_review_submission by_text client 1 "d1" discarding).0 ≡ ok tt
unfolding fetch_submissions_page get_page send_and_read bearer_token exchange decoded cached
    unix_now needs_refresh ◌>>=◌ log_line pure delete_items delete_items_page
    delete_submission_items delete_review_submission_item delete_at
    discard_ready_for_review_submission get_review_submission_state get_or_404 follow
    fetch_submission_items_page
discarded = refl

discard_verified_example :
    let s' = (delete_submission_items by_text client 1 "d1" discarding).1 in
    (o : Option (Option String)) × ((get_review_submission_state by_text client "d1" s').0 ≡ ok o)
    × (o ≢ some (some "READY_FOR_REVIEW"))
discard_verified_example = discard_verified by_text client 1 "d1" discarding discarded

abbrev drafts : List ReviewSubmissionResource
drafts = in_state "d1" "READY_FOR_REVIEW" ∷ in_state "r1" "IN_REVIEW" ∷ []

cancel_each_kept_example :
    cancel_each by_text client 2 drafts (some (submission_not_removable "d0")) withdrawing
    ≡ with_first
        (submission_not_removable "d0")
        (cancel_each by_text client 2 drafts none withdrawing)
cancel_each_kept_example =
    cancel_each_kept by_text client 2 drafts (submission_not_removable "d0") withdrawing

abbrev reused : Session scripted
reused = ready (answer 200 "drafts" ∷ answer 200 "no item" ∷ answer 201 "" ∷ answer 200 "" ∷ [])

abbrev after_search : Session scripted → Session scripted
after_search s = (find_reusable_empty_draft by_text client "app" none s).1

draft_found :
    find_reusable_empty_draft by_text client "app" none reused
    ≡ (ok (some "d1"), after_search reused)
unfolding fetch_submissions_page get_page send_and_read bearer_token exchange decoded cached
    unix_now needs_refresh ◌>>=◌ log_line pure find_reusable_empty_draft first_empty
    submission_is_empty fetch_submission_items_page
draft_found = refl

draft_took :
    (attach_and_submit by_text client "d1" "v1"
      (reusing by_text client "app" "d1" (after_search reused))).0
    ≡ ok tt
unfolding fetch_submissions_page get_page send_and_read bearer_token exchange decoded cached
    unix_now needs_refresh ◌>>=◌ log_line pure find_reusable_empty_draft first_empty
    submission_is_empty fetch_submission_items_page attach_and_submit post_json_2xx
    update_submission patch_no_content
draft_took = refl

submit_by_reuse_example :
    ((submit_for_review by_text client "app" "v1" none reused).0 ≡ ok tt)
    × Sends
        (Reuses client "d1" "v1")
        (after_search reused)
        (submit_for_review by_text client "app" "v1" none reused).1
submit_by_reuse_example =
    submit_by_reuse by_text client "app" "v1" none "d1" reused (after_search reused) draft_found
      draft_took

-- The draft does not take the version, and a new submission does.
abbrev refused : Session scripted
refused = ready (
    answer 200 "drafts"
    ∷ answer 200 "no item"
    ∷ answer 409 "stale"
    ∷ answer 201 "new"
    ∷ answer 201 ""
    ∷ answer 200 ""
    ∷ [])

refused_submits : (submit_for_review by_text client "app" "v1" none refused).0 ≡ ok tt
unfolding fetch_submissions_page get_page send_and_read bearer_token exchange decoded cached
    unix_now needs_refresh ◌>>=◌ log_line pure find_reusable_empty_draft first_empty
    submission_is_empty fetch_submission_items_page attach_and_submit post_json_2xx failure_error
    pending_agreements_error raise submit_for_review create_and_submit update_submission
    patch_no_content attempt
refused_submits = refl

submit_for_review-IsSubmitted_example :
    IsSubmitted by_text client "app" none "v1" refused
      (submit_for_review by_text client "app" "v1" none refused).1
submit_for_review-IsSubmitted_example =
    submit_for_review-IsSubmitted by_text client "app" none "v1" refused refused_submits

abbrev in_review : Session scripted
in_review = ready (answer 200 "IN_REVIEW" ∷ answer 200 "" ∷ [])

abbrev after_read : Session scripted
after_read = (get_or_404 client (submission_url client "d1") in_review).1

submission_read :
    get_or_404 client (submission_url client "d1") in_review ≡ (ok (some "IN_REVIEW"), after_read)
unfolding get_or_404 send_and_read bearer_token exchange cached unix_now needs_refresh ◌>>=◌
    log_line pure
submission_read = refl

discard_review_submission-Sends_example :
    Sends
      (Withdraws client (in_state "d1" "IN_REVIEW" ∷ []))
      after_read
      (discard_review_submission by_text client 1 "d1" in_review).1
discard_review_submission-Sends_example =
    discard_review_submission-Sends by_text client 1 "d1" "IN_REVIEW" (in_state "d1" "IN_REVIEW")
      in_review after_read submission_read refl
