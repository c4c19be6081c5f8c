-- ===== src/Submissions/Cancelling.antt =====
-- What cancelling and discarding review submissions come to
-- (crates/stack_core/src/providers/appstore/client.rs).
use mathlib.Core.Option.{some-injective}
use stack_connect_core.Prelude.{
  ℕ, String, ◌≡◌, ◌≢◌, refl, ◌∙◌, sym, Option, none, some, List, [], ◌∷◌, eq_iff, arith,
}
use stack_connect_core.Error.{
  StackError, submission_not_removable, Outcome, ok, err, panicked, unfinished,
}
use stack_connect_core.Wire.{
  Host, Session, M, Attempt, success, failure, ◌>>=◌, continue, pure, attempt, log_line,
}
use stack_connect_core.Wire.Inversion.{>>=-eq-ok}
use stack_connect_core.Transport.{AppStoreClient}
use stack_connect_core.Submissions.{
  Decoders, ReviewSubmissionResource, Disposition, cancel, discard, skip, disposition,
  update_submission, delete_submission_items, get_review_submission_state, verify_gone,
  discard_ready_for_review_submission, remember, dispose, cancel_each,
}

module _ {H : Host} (D : Decoders) (c : AppStoreClient) where
  refuted :
      (id state : String) (s : Session H)
      → (verify_gone D c id (some (some state)) s).0 ≡ ok tt
      → state ≢ "READY_FOR_REVIEW"
  unfolding ◌>>=◌ log_line
  refuted id state s h e = ground (arith, (eq_iff state "READY_FOR_REVIEW").1 e)

  verified :
      (id : String) (o : Option (Option String)) (s : Session H)
      → (verify_gone D c id o s).0 ≡ ok tt
      → o ≢ some (some "READY_FOR_REVIEW")
  unfolding ◌>>=◌
  verified id none s h = λ e. cc
  verified id (some none) s h = λ e. cc
  verified id (some (some state)) s h =
      λ e. refuted id state s h (some-injective _ _ (some-injective _ _ e))

  -- A discard of a READY_FOR_REVIEW draft succeeds only where the read after the removal of its
  -- items has succeeded and shows the submission gone, or in another state.
  pub discard_verified :
      (fuel : ℕ) (id : String) (s : Session H)
      → (discard_ready_for_review_submission D c fuel id s).0 ≡ ok tt
      → let s' = (delete_submission_items D c fuel id s).1 in
        (o : Option (Option String)) × ((get_review_submission_state D c id s').0 ≡ ok o)
        × (o ≢ some (some "READY_FOR_REVIEW"))
  unfolding discard_ready_for_review_submission
  discard_verified fuel id s h =
      let (u, removed, h') = >>=-eq-ok _ _ s h in
      let (o, read, h'') = >>=-eq-ok _ _ _ h' in (o, read, verified id o _ h'')

-- The result of a run that began with `e` remembered, from that of one that began with nothing.
abbrev pub with_first :
    {H : Host}
    → StackError
    → Outcome (Option StackError) × Session H
    → Outcome (Option StackError) × Session H
with_first e (ok kept, t) = (ok (some e), t)
with_first e (err x, t) = (err x, t)
with_first e (panicked, t) = (panicked, t)
with_first e (unfinished, t) = (unfinished, t)

with_first-with_first :
    {H : Host} (e e' : StackError) (r : Outcome (Option StackError)) (t : Session H)
    → with_first e (with_first e' (r, t)) ≡ with_first e (r, t)
with_first-with_first e e' (ok kept) t = refl
with_first-with_first e e' (err x) t = refl
with_first-with_first e e' panicked t = refl
with_first-with_first e e' unfinished t = refl

module _ {H : Host} (D : Decoders) (c : AppStoreClient) where
  remember_kept :
      (e : StackError) (r : Attempt (Unit {0})) (s : Session H)
      → remember D c (some e) r s ≡ with_first e (remember D c none r s)
  unfolding ◌>>=◌
  remember_kept e (success u) s = refl
  remember_kept e (failure (submission_not_removable m)) s = refl
  remember_kept e (failure x) s = refl

  continue_kept :
      {A : Type 0} (e : StackError) (r : Outcome A) (f g : A → M H (Option StackError))
      (s : Session H)
      → ((a : A) (t : Session H) → f a t ≡ with_first e (g a t))
      → continue r f s ≡ with_first e (continue r g s)
  continue_kept e (ok a) f g s h = h a s
  continue_kept e (err x) f g s h = refl
  continue_kept e panicked f g s h = refl
  continue_kept e unfinished f g s h = refl

  bind_kept :
      {A : Type 0} (e : StackError) (m : M H A) (f g : A → M H (Option StackError)) (s : Session H)
      → ((a : A) (t : Session H) → f a t ≡ with_first e (g a t))
      → (m >>= f) s ≡ with_first e ((m >>= g) s)
  unfolding ◌>>=◌
  bind_kept e m f g s h = continue_kept e (m s).0 f g (m s).1 h

  dispose_kept :
      (fuel : ℕ) (e : StackError) (id : String) (d : Disposition) (s : Session H)
      → dispose D c fuel (some e) id d s ≡ with_first e (dispose D c fuel none id d s)
  unfolding ◌>>=◌
  dispose_kept fuel e id cancel s =
      bind_kept e (update_submission c id "canceled") (λ _. pure (some e)) (λ _. pure none) s
        (λ a t. refl)
  dispose_kept fuel e id discard s =
      bind_kept e (attempt (discard_ready_for_review_submission D c fuel id))
        (remember D c (some e)) (remember D c none) s (remember_kept e)
  dispose_kept fuel e id skip s = refl

  -- The step of the induction below: the rest of the list after a first submission.
  rest_kept :
      (e : StackError) (r : Outcome (Option StackError)) (t : Session H)
      (rest : Option StackError → M H (Option StackError))
      → ((x : StackError) (u : Session H) → rest (some x) u ≡ with_first x (rest none u))
      → continue (with_first e (r, t)).0 rest (with_first e (r, t)).1
        ≡ with_first e (continue r rest t)
  rest_kept e (ok none) t rest ih = ih e t
  rest_kept e (ok (some x)) t rest ih =
      rw (ih x t) (ih e t ∙ sym (with_first-with_first e x (rest none t).0 (rest none t).1))
  rest_kept e (err x) t rest ih = refl
  rest_kept e panicked t rest ih = refl
  rest_kept e unfinished t rest ih = refl

  -- A draft that turned out not to be removable changes nothing of what is done with the
  -- submissions after it: the run goes through the same session and ends the same way, except that
  -- a run that completes reports the first such draft.
  pub cancel_each_kept :
      (fuel : ℕ) (xs : List ReviewSubmissionResource) (e : StackError) (s : Session H)
      → cancel_each D c fuel xs (some e) s ≡ with_first e (cancel_each D c fuel xs none s)
  unfolding cancel_each ◌>>=◌
  cancel_each_kept fuel [] e s = refl
  cancel_each_kept fuel (x ∷ xs) e s =
      rw (dispose_kept fuel e x.id (disposition x.attributes.state) s, continue)
        (rest_kept e (dispose D c fuel none x.id (disposition x.attributes.state) s).0
          (dispose D c fuel none x.id (disposition x.attributes.state) s).1
          (cancel_each D c fuel xs) (cancel_each_kept fuel xs))
