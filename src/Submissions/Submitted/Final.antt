-- ===== src/Submissions/Submitted/Final.antt =====
-- The last two requests of submitting a version
-- (crates/stack_core/src/providers/appstore/client.rs).
use mathlib.Core.List.{append_assoc}
use stack_connect_core.Prelude.{String, ◌<>◌, ◌≡◌, sym, ap, ◌∙◌, [], ◌∷◌, ◌++◌}
use stack_connect_core.Error.{ok}
use stack_connect_core.Wire.{Host, Session}
use stack_connect_core.Wire.Inversion.{>>=-eq-ok, >>=_of_ok}
use stack_connect_core.Transport.{AppStoreClient, post, patch, post_json_2xx}
use stack_connect_core.Transport.Once.{post_json_2xx_once, patch_no_content_once}
use stack_connect_core.Submissions.{Decoders, submission_update, item_document, update_submission}
use stack_connect_core.Submissions.Submit.{attach_and_submit}

module _ {H : Host} (D : Decoders) (c : AppStoreClient) (version_id : String) where
  -- From one session to the other two requests have gone out and been accepted: the POST that puts
  -- the version into the submission, and behind it the PATCH that submits that submission.
  pub record Submits (target : String) (s t : Session H) : Type 0 where
    pub between : Session H
    pub body : String
    pub attached :
        post_json_2xx c
          (c.base_url <> "/v1/reviewSubmissionItems")
          (item_document target version_id)
          s
        ≡ (ok body, between)
    pub submitted : update_submission c target "submitted" between ≡ (ok tt, t)
    pub t₁ : String
    pub t₂ : String
    pub grown :
        t.sent
        ≡ s.sent
          ++ (post (c.base_url <> "/v1/reviewSubmissionItems") t₁ (item_document target version_id)
              ∷ patch
                  (c.base_url <> "/v1/reviewSubmissions/" <> target)
                  t₂
                  (submission_update target "submitted")
              ∷ [])

  pub attach-Submits :
      (target : String) (s : Session H)
      → (attach_and_submit D c target version_id s).0 ≡ ok tt
      → Submits target s (attach_and_submit D c target version_id s).1
  unfolding attach_and_submit update_submission
  attach-Submits target s h =
      let first =
        post_json_2xx {H = H} c (c.base_url <> "/v1/reviewSubmissionItems")
          (item_document target version_id) in
      let (body, took, went) = >>=-eq-ok first _ s h in
      let u = (first s).1 in
      let (t₁, one) = post_json_2xx_once c _ _ s took in
      let (t₂, two) =
        patch_no_content_once c (c.base_url <> "/v1/reviewSubmissions/" <> target)
          (submission_update target "submitted") u went in
      let v = (update_submission {H = H} c target "submitted" u).1 in
      let ends : (attach_and_submit D c target version_id s).1 ≡ v =
        ap (λ p. p.1) (>>=_of_ok first _ s took) in
      let last =
        patch (c.base_url <> "/v1/reviewSubmissions/" <> target) t₂
          (submission_update target "submitted")
        ∷ [] in
      record {
        between = u;
        body = body;
        attached = ap (λ r. (r, u)) took;
        submitted = ap (λ r. (r, v)) went ∙ ap (λ x. (ok tt, x)) (sym ends);
        t₁ = t₁;
        t₂ = t₂;
        grown = ap (λ x. x.sent) ends ∙ two ∙ ap (λ l. l ++ last) one ∙ append_assoc s.sent _ last;
      }
