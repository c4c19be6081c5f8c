-- ===== src/Submissions/Requests.antt =====
-- Which requests the submission operations of the client may send
-- (crates/stack_core/src/providers/appstore/client.rs).
use mathlib.Core.List.{Memᴰ}
use stack_connect_core.Prelude.{
  ℕ, String, ◌<>◌, ◌≡◌, refl, sym, ap, Bool, true, false, ◌||◌, Option, none, some, List, [], ◌∷◌,
  ◌==◌, eq_iff, if◌then◌else◌,
}
use stack_connect_core.Error.{StackError, submission_not_removable, ok}
use stack_connect_core.Wire.{Host, Session, Request, Attempt, success, failure, ◌>>=◌, continue}
use stack_connect_core.Wire.Emits.{Emits, Emits-pure, Emits-raise, Emits-if, Emits-bind, Sends}
use stack_connect_core.Paging.Loops.{follow-Emits}
use stack_connect_core.Transport.{AppStoreClient, get, patch, delete}
use stack_connect_core.Transport.Requests.{request_rules, delete_at-Emits}
use stack_connect_core.Submissions.{
  Decoders, ReviewSubmissionResource, ReviewSubmissionItemResource, Disposition, cancel, discard,
  skip, disposition, submission_url, submission_update, update_submission,
  fetch_submission_items_page, delete_review_submission_item, delete_items, delete_items_page,
  delete_submission_items, state_of, get_review_submission_state, verify_gone,
  discard_ready_for_review_submission, remember, dispose, cancel_each, or_not_removable,
  cancel_submission, active_submissions_url, fetch_submissions_page, ReviewSubmissionsResponse,
}

-- The states in which a submission has been sent to review and may be cancelled.
pub data SentToReview : Option String → Type 0 where
  waiting : SentToReview (some "WAITING_FOR_REVIEW")
  in_review : SentToReview (some "IN_REVIEW")
  unresolved : SentToReview (some "UNRESOLVED_ISSUES")

sent_of :
    (a b c d : Bool) (state : String)
    → a ≡ (state == "WAITING_FOR_REVIEW")
    → b ≡ (state == "IN_REVIEW")
    → c ≡ (state == "UNRESOLVED_ISSUES")
    → (if a || b || c then cancel else if d then discard else skip) ≡ cancel
    → SentToReview (some state)
sent_of true b c d state ha hb hc h =
    rw ((eq_iff state "WAITING_FOR_REVIEW").0 (sym ha)) SentToReview.waiting
sent_of false true c d state ha hb hc h =
    rw ((eq_iff state "IN_REVIEW").0 (sym hb)) SentToReview.in_review
sent_of false false true d state ha hb hc h =
    rw ((eq_iff state "UNRESOLVED_ISSUES").0 (sym hc)) SentToReview.unresolved
sent_of false false false true state ha hb hc h = absurd (cc h)
sent_of false false false false state ha hb hc h = absurd (cc h)

pub cancelled_of : (o : Option String) → disposition o ≡ cancel → SentToReview o
unfolding disposition
cancelled_of none h = absurd (cc h)
cancelled_of (some state) h =
    sent_of (state == "WAITING_FOR_REVIEW") (state == "IN_REVIEW") (state == "UNRESOLVED_ISSUES")
      (state == "READY_FOR_REVIEW") state refl refl refl h

discarded_if :
    (a d : Bool) → (if a then cancel else if d then discard else skip) ≡ discard → d ≡ true
discarded_if true d h = absurd (cc h)
discarded_if false true h = refl
discarded_if false false h = absurd (cc h)

pub draft_of : (o : Option String) → disposition o ≡ discard → o ≡ some "READY_FOR_REVIEW"
unfolding disposition
draft_of none h = absurd (cc h)
draft_of (some state) h =
    ap some ((eq_iff state "READY_FOR_REVIEW").0 (discarded_if _ (state == "READY_FOR_REVIEW") h))

-- The requests by which a list of submissions may be withdrawn from review: reading, cancelling one
-- of them that was sent to review, and removing an item while one of them is a draft.
pub data Withdraws (c : AppStoreClient) (all : List ReviewSubmissionResource)
    : Request → Type 0 where
  reads : (url t : String) → Withdraws c all (get url t)
  cancels :
      (x : ReviewSubmissionResource) (t : String)
      → Memᴰ x all
      → SentToReview x.attributes.state
      → Withdraws c all (patch (submission_url c x.id) t (submission_update x.id "canceled"))
  removes :
      (x : ReviewSubmissionResource) (item t : String)
      → Memᴰ x all
      → x.attributes.state ≡ some "READY_FOR_REVIEW"
      → Withdraws c all (delete (c.base_url <> "/v1/reviewSubmissionItems/" <> item) t)

module _ {H : Host} {P : Request → Type 0} (D : Decoders) (c : AppStoreClient) where
  module _ (read : (url t : String) → P (get url t)) where
    fetch_items-Emits : (url : String) → Emits {H = H} P (fetch_submission_items_page D c url)
    unfolding fetch_submission_items_page
    fetch_items-Emits url = search (request_rules, read)

    state_of-Emits : (o : Option String) → Emits {H = H} P (state_of D c o)
    state_of-Emits none = Emits-pure none
    state_of-Emits (some body) = search request_rules

    get_state-Emits : (id : String) → Emits {H = H} P (get_review_submission_state D c id)
    unfolding get_review_submission_state
    get_state-Emits id = search (request_rules, read, state_of-Emits)

    verify_gone-Emits :
        (id : String) (o : Option (Option String)) → Emits {H = H} P (verify_gone D c id o)
    verify_gone-Emits id none = Emits-pure tt
    verify_gone-Emits id (some none) = Emits-pure tt
    verify_gone-Emits id (some (some state)) = search (request_rules, Emits-if)

    module _
        (remove : (item t : String)
          → P (delete (c.base_url <> "/v1/reviewSubmissionItems/" <> item) t)) where
      delete_items-Emits :
          (items : List ReviewSubmissionItemResource) → Emits {H = H} P (delete_items c items)
      unfolding delete_items delete_review_submission_item
      delete_items-Emits [] = Emits-pure tt
      delete_items-Emits (item ∷ items) =
          Emits-bind _ _ (delete_at-Emits c _ (remove item.id)) (λ _. delete_items-Emits items)

      delete_page-Emits :
          (u : Unit {0}) (url : String) → Emits {H = H} P (delete_items_page D c u url)
      unfolding delete_items_page
      delete_page-Emits u url = search (request_rules, fetch_items-Emits, delete_items-Emits)

      pub discard_draft-Emits :
          (fuel : ℕ) (id : String)
          → Emits {H = H} P (discard_ready_for_review_submission D c fuel id)
      unfolding discard_ready_for_review_submission delete_submission_items
      discard_draft-Emits fuel id =
          search
            (request_rules, get_state-Emits, verify_gone-Emits, follow-Emits, delete_page-Emits)

module _ {H : Host} (D : Decoders) (c : AppStoreClient) (all : List ReviewSubmissionResource) where
  remember-Emits :
      {P : Request → Type 0} (kept : Option StackError) (r : Attempt (Unit {0}))
      → Emits {H = H} P (remember D c kept r)
  remember-Emits kept (success _) = Emits-pure kept
  remember-Emits kept (failure (submission_not_removable m)) = Emits-pure _
  remember-Emits kept (failure e) = Emits-raise e

  dispose-Emits :
      (fuel : ℕ) (kept : Option StackError) (x : ReviewSubmissionResource) (d : Disposition)
      → Memᴰ x all
      → disposition x.attributes.state ≡ d
      → Emits {H = H} (Withdraws c all) (dispose D c fuel kept x.id d)
  unfolding update_submission
  dispose-Emits fuel kept x cancel m e =
      search (request_rules, Withdraws.cancels x _ m (cancelled_of x.attributes.state e))
  dispose-Emits fuel kept x discard m e = search (
    request_rules,
    remember-Emits,
    discard_draft-Emits {P = Withdraws c all} D c Withdraws.reads
        (λ item t. Withdraws.removes x item t m (draft_of x.attributes.state e)),
  )
  dispose-Emits fuel kept x skip m e = Emits-pure kept

  cancel_each-Emits :
      (fuel : ℕ) (xs : List ReviewSubmissionResource) (kept : Option StackError)
      → ((x : ReviewSubmissionResource) → Memᴰ x xs → Memᴰ x all)
      → Emits {H = H} (Withdraws c all) (cancel_each D c fuel xs kept)
  unfolding cancel_each
  cancel_each-Emits fuel [] kept sub = Emits-pure kept
  cancel_each-Emits fuel (x ∷ xs) kept sub =
      Emits-bind _ _
        (dispose-Emits fuel kept x (disposition x.attributes.state) (sub x (Memᴰ.head refl)) refl)
        (λ kept'. cancel_each-Emits fuel xs kept' (λ y m. sub y (Memᴰ.tail m)))

  or_not_removable-Emits :
      {P : Request → Type 0} (o : Option StackError) → Emits {H = H} P (or_not_removable D c o)
  or_not_removable-Emits none = Emits-pure tt
  or_not_removable-Emits (some e) = Emits-raise e

-- Once `cancel_submission` has its page of submissions it sends only reads, PATCHes of `canceled`
-- to submissions of the page whose state is one of the three that were sent to review, and DELETEs
-- of submission items, these only if the page has a READY_FOR_REVIEW draft. Nothing else goes out,
-- whatever the service answers and wherever the operation fails.
pub cancel_submission-Sends :
    {H : Host} (D : Decoders) (c : AppStoreClient) (fuel : ℕ) (app_id : String) (s s' : Session H)
    (page : ReviewSubmissionsResponse)
    → fetch_submissions_page D c (active_submissions_url c app_id) s ≡ (ok page, s')
    → Sends (Withdraws c page.submissions) s' (cancel_submission D c fuel app_id s).1
unfolding cancel_submission ◌>>=◌
cancel_submission-Sends D c fuel app_id s s' page e =
    rw (e, continue)
      ((Emits-bind (cancel_each D c fuel page.submissions none) (or_not_removable D c)
          (cancel_each-Emits D c page.submissions fuel page.submissions none (λ x m. m))
          (or_not_removable-Emits D c page.submissions)).at
        s')
