-- ===== src/Submissions/Submitted.antt =====
-- Which submission `submit_for_review` has submitted when it succeeds
-- (crates/stack_core/src/providers/appstore/client.rs).
pub mod Origin
pub mod Final
use mathlib.Core.Path.{subst}
use mathlib.Core.List.{Memᴰ, append_assoc}
use stack_connect_core.Prelude.{
  String, ◌<>◌, ◌≡◌, refl, sym, ap, ◌∙◌, Bool, true, false, Option, none, some, List, [], ◌∷◌, ◌++◌,
  is_empty,
}
use stack_connect_core.Error.{
  StackError, Outcome, ok, err, panicked, unfinished, Parsed, parsed, malformed,
}
use stack_connect_core.Wire.{
  Host, M, Session, Request, Attempt, success, failure, ◌>>=◌, attempt, pure, decoded, log_line,
  continue, caught,
}
use stack_connect_core.Wire.Inversion.{bind_at, >>=-eq-ok, >>=_of_ok}
use stack_connect_core.Transport.{AppStoreClient, post, patch, log_if_on, get_page, post_json_2xx}
use stack_connect_core.Transport.Once.{log_ok, post_json_2xx_once, patch_no_content_once}
use stack_connect_core.Submissions.{
  Decoders, IdResource, ReviewSubmissionsResponse, ReviewSubmissionItemsResponse,
  ReviewSubmissionResource, submission_update, item_document, create_document, platform_filter,
  update_submission, fetch_submission_items_page, fetch_submissions_page,
}
use stack_connect_core.Submissions.Submit.{
  submission_is_empty, first_empty, find_reusable_empty_draft, attach_and_submit, create_and_submit,
  or_create, reuse_or_create, submit_for_review, reusing_line, failed_line,
}
use stack_connect_core.Submissions.Submitted.Origin.{IsFor, created, found_of}
use stack_connect_core.Submissions.Submitted.Final.{Submits, attach-Submits}

module _ {H : Host} (D : Decoders) (c : AppStoreClient) (app_id : String)
    (platform : Option String) where
  -- The version is in a submission for the app, and that submission is submitted.
  pub record IsSubmitted (version_id : String) (s t : Session H) : Type 0 where
    pub target : String
    pub before : Session H
    pub origin : IsFor D c app_id platform s before target
    pub submits : Submits D c version_id target before t

  decoded_of :
      {P : Type 0} {B : Type 0} (what : String) (p : Parsed P) (k : P → M H B) (s : Session H)
      {b : B}
      → ((decoded what p >>= k) s).0 ≡ ok b
      → (page : P) × (p ≡ parsed page)
        × ((k page s).0 ≡ ok b)
        × ((decoded what p >>= k) s ≡ k page s)
  unfolding decoded ◌>>=◌
  decoded_of what (parsed page) k s h = (page, refl, h, refl)
  decoded_of what (malformed e) k s h = absurd (cc h)

  create-IsSubmitted :
      (version_id : String) (s₀ s : Session H)
      → (create_and_submit D c app_id version_id platform s).0 ≡ ok tt
      → IsSubmitted version_id s₀ (create_and_submit D c app_id version_id platform s).1
  unfolding create_and_submit
  create-IsSubmitted version_id s₀ s h =
      let line =
        "[RustCore] submit_for_review: creating a new review submission for app " <> app_id in
      let post =
        post_json_2xx {H = H} c (c.base_url <> "/v1/reviewSubmissions")
          (create_document app_id platform) in
      let u = (log_if_on c line s).1 in
      let logged = bind_at (log_if_on c line) _ s (log_ok c line s) in
      let (body, got, h₁) = >>=-eq-ok post _ u (sym (ap (λ p. p.0) logged) ∙ h) in
      let v = (post u).1 in
      let (x, meant, h₂, read) =
        decoded_of "review submission response: " (D.created body) _ v h₁ in
      let (t, grown) = post_json_2xx_once c _ _ u got in
      record {
        target = x.id;
        before = v;
        origin = created u t (ap (λ r. (r, v)) got) grown meant;
        submits =
            subst (Submits D c version_id x.id v)
              (sym (ap (λ p. p.1) (logged ∙ >>=_of_ok post _ u got ∙ read)))
              (attach-Submits D c version_id x.id v h₂);
      }

  won :
      (r : Outcome (Unit {0})) (t : Session H) {a : Unit {0}}
      → (caught r t).0 ≡ ok (success a)
      → (r ≡ ok tt) × ((caught r t).1 ≡ t)
  won (ok a) t h = (refl, refl)
  won (err e) t h = absurd (cc h)
  won panicked t h = absurd (cc h)
  won unfinished t h = absurd (cc h)

  attempted-IsSubmitted :
      (version_id draft : String) (s w : Session H) (a : Attempt (Unit {0}))
      → ((v : Session H) → IsFor D c app_id platform s v draft)
      → (attempt (attach_and_submit D c draft version_id) w).0 ≡ ok a
      → let t = (attempt (attach_and_submit D c draft version_id) w).1 in
        (or_create D c app_id version_id platform draft a t).0 ≡ ok tt
        → IsSubmitted version_id s (or_create D c app_id version_id platform draft a t).1
  unfolding attempt pure
  attempted-IsSubmitted version_id draft s w (success a) found got h =
      let (took, same) =
        won (attach_and_submit D c draft version_id w).0
          (attach_and_submit D c draft version_id w).1 got in
      record {
        target = draft;
        before = w;
        origin = found w;
        submits =
            subst (Submits D c version_id draft w) (sym same)
              (attach-Submits D c version_id draft w took);
      }
  attempted-IsSubmitted version_id draft s w (failure e) found got h =
      let t = (attempt (attach_and_submit D c draft version_id) w).1 in
      let line = failed_line draft e in
      let logged = bind_at (log_if_on c line) _ t (log_ok c line t) in
      subst (IsSubmitted version_id s) (sym (ap (λ p. p.1) logged))
        (create-IsSubmitted version_id s (log_if_on c line t).1 (sym (ap (λ p. p.0) logged) ∙ h))

  reuse_or_create-IsSubmitted :
      (version_id : String) (s u : Session H) (o : Option String)
      → ((draft : String) → o ≡ some draft → (v : Session H) → IsFor D c app_id platform s v draft)
      → (reuse_or_create D c app_id version_id platform o u).0 ≡ ok tt
      → IsSubmitted version_id s (reuse_or_create D c app_id version_id platform o u).1
  reuse_or_create-IsSubmitted version_id s u none found h = create-IsSubmitted version_id s u h
  reuse_or_create-IsSubmitted version_id s u (some draft) found h =
      let line = reusing_line app_id draft in
      let logged = bind_at (log_if_on c line) _ u (log_ok c line u) in
      let w = (log_if_on c line u).1 in
      let m = attempt (attach_and_submit {H = H} D c draft version_id) in
      let (a, got, h') = >>=-eq-ok m _ w (sym (ap (λ p. p.0) logged) ∙ h) in
      subst (IsSubmitted version_id s) (sym (ap (λ p. p.1) (logged ∙ >>=_of_ok m _ w got)))
        (attempted-IsSubmitted version_id draft s w a (found draft refl) got h')

  -- When `submit_for_review` succeeds, the version has been put into one submission and that
  -- submission has been submitted: the POST and the PATCH are the last two requests, in this order,
  -- for one submission, and the service has accepted both. The submission is either one of those
  -- that the service has listed when asked for the READY_FOR_REVIEW drafts of the app and the
  -- platform, with no item in the page of its items, or the one that the service has created for
  -- the app and the platform on the POST right in front, also after the reuse of a draft has failed.
  pub submit_for_review-IsSubmitted :
      (version_id : String) (s : Session H)
      → (submit_for_review D c app_id version_id platform s).0 ≡ ok tt
      → IsSubmitted version_id s (submit_for_review D c app_id version_id platform s).1
  unfolding submit_for_review
  submit_for_review-IsSubmitted version_id s h =
      let find = find_reusable_empty_draft {H = H} D c app_id platform in
      let (o, got, h') = >>=-eq-ok find _ s h in
      subst (IsSubmitted version_id s) (sym (ap (λ p. p.1) (>>=_of_ok find _ s got))) (
        reuse_or_create-IsSubmitted version_id s (find s).1 o
          (λ draft e v. found_of D c app_id platform s v (got ∙ ap ok e)) h')
