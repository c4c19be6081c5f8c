-- ===== src/Submissions/Submitting.antt =====
-- What submitting a version for review comes to
-- (crates/stack_core/src/providers/appstore/client.rs).
use stack_connect_core.Prelude.{String, ◌<>◌, ◌≡◌, refl, ◌∙◌, Option, some}
use stack_connect_core.Error.{ok}
use stack_connect_core.Wire.{Host, Session, Request, ◌>>=◌, attempt, pure}
use stack_connect_core.Wire.Inversion.{bind_at, attempt_of_ok}
use stack_connect_core.Wire.Emits.{Emits, Sends, Sends-trans}
use stack_connect_core.Transport.{AppStoreClient, post, patch, log_if_on}
use stack_connect_core.Transport.Once.{log_ok}
use stack_connect_core.Transport.Requests.{request_rules, log_if_on-Emits}
use stack_connect_core.Submissions.{
  Decoders, submission_url, submission_update, item_document, update_submission,
}
use stack_connect_core.Submissions.Submit.{
  find_reusable_empty_draft, attach_and_submit, or_create, submit_for_review, reusing_line,
}

-- The two requests that put a version into a draft and submit the draft.
pub data Reuses (c : AppStoreClient) (draft version_id : String) : Request → Type 0 where
  attaches :
      (t : String)
      → Reuses c draft version_id
          (post (c.base_url <> "/v1/reviewSubmissionItems") t (item_document draft version_id))
  submits :
      (t : String)
      → Reuses c draft version_id
          (patch (submission_url c draft) t (submission_update draft "submitted"))

module _ {H : Host} (D : Decoders) (c : AppStoreClient) where
  attach_and_submit-Emits :
      (draft version_id : String)
      → Emits {H = H} (Reuses c draft version_id) (attach_and_submit D c draft version_id)
  unfolding attach_and_submit update_submission
  attach_and_submit-Emits draft version_id = search (request_rules, Reuses.attaches, Reuses.submits)

  -- The session in which the attempt to reuse a draft begins: the reuse has been logged.
  abbrev pub reusing : String → String → Session H → Session H
  reusing app_id draft s = (log_if_on c (reusing_line app_id draft) s).1

  reusing_at :
      (app_id version_id : String) (platform : Option String) (draft : String) (s s' : Session H)
      → find_reusable_empty_draft D c app_id platform s ≡ (ok (some draft), s')
      → submit_for_review D c app_id version_id platform s
        ≡ (attempt (attach_and_submit D c draft version_id)
              >>= or_create D c app_id version_id platform draft)
            (reusing app_id draft s')
  unfolding submit_for_review
  reusing_at app_id version_id platform draft s s' found =
      bind_at _ _ s found ∙ bind_at _ _ s' (log_ok c (reusing_line app_id draft) s')

  -- Where an empty draft is found and takes the version, the submission succeeds, and after the
  -- search nothing is sent but the POST that attaches the version to that draft and the PATCH that
  -- submits it: no submission is created.
  pub submit_by_reuse :
      (app_id version_id : String) (platform : Option String) (draft : String) (s s' : Session H)
      → find_reusable_empty_draft D c app_id platform s ≡ (ok (some draft), s')
      → (attach_and_submit D c draft version_id (reusing app_id draft s')).0 ≡ ok tt
      → ((submit_for_review D c app_id version_id platform s).0 ≡ ok tt)
        × Sends
            (Reuses c draft version_id)
            s'
            (submit_for_review D c app_id version_id platform s).1
  unfolding pure
  submit_by_reuse app_id version_id platform draft s s' found took =
      let u = reusing app_id draft s' in
      let ends : submit_for_review D c app_id version_id platform s
          ≡ (ok tt, (attach_and_submit D c draft version_id u).1) =
        reusing_at app_id version_id platform draft s s' found
        ∙ bind_at _ _ u (attempt_of_ok (attach_and_submit D c draft version_id) u took) in
      rw ends (
        refl,
        Sends-trans ((log_if_on-Emits c (reusing_line app_id draft)).at s')
            ((attach_and_submit-Emits draft version_id).at u),
      )
