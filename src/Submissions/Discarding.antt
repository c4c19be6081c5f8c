-- ===== src/Submissions/Discarding.antt =====
-- Which requests the discard of one review submission may send
-- (crates/stack_core/src/providers/appstore/client.rs).
use mathlib.Core.List.{Memᴰ}
use stack_connect_core.Prelude.{ℕ, String, ◌≡◌, refl, some, [], ◌∷◌}
use stack_connect_core.Error.{ok, parsed}
use stack_connect_core.Wire.{Host, Session, decoded, ◌>>=◌, continue}
use stack_connect_core.Wire.Emits.{Emits, Emits-pure, Sends}
use stack_connect_core.Transport.{AppStoreClient, get_or_404}
use stack_connect_core.Transport.Requests.{request_rules}
use stack_connect_core.Submissions.{
  Decoders, ReviewSubmissionResource, Disposition, cancel, discard, skip, disposition,
  submission_url, update_submission,
}
use stack_connect_core.Submissions.Withdraw.{discard_by, discard_review_submission}
use stack_connect_core.Submissions.Requests.{Withdraws, cancelled_of, draft_of, discard_draft-Emits}

module _ {H : Host} (D : Decoders) (c : AppStoreClient) where
  discard_by-Emits :
      (fuel : ℕ) (x : ReviewSubmissionResource) (d : Disposition)
      → disposition x.attributes.state ≡ d
      → Emits {H = H} (Withdraws c (x ∷ [])) (discard_by D c fuel x.id d)
  unfolding update_submission
  discard_by-Emits fuel x cancel e =
      search
        (request_rules, Withdraws.cancels x _ (Memᴰ.head refl) (cancelled_of x.attributes.state e))
  discard_by-Emits fuel x discard e =
      discard_draft-Emits {P = Withdraws c (x ∷ [])} D c Withdraws.reads
        (λ item t. Withdraws.removes x item t (Memᴰ.head refl) (draft_of x.attributes.state e)) fuel
        x.id
  discard_by-Emits fuel x skip e = Emits-pure tt

  -- Once the submission to discard has been read, its discard sends only reads, the PATCH of
  -- `canceled` to it if it was sent to review, and DELETEs of submission items if it is a
  -- READY_FOR_REVIEW draft. Where its state is any other, nothing but reads goes out.
  pub discard_review_submission-Sends :
      (fuel : ℕ) (id body : String) (found : ReviewSubmissionResource) (s s' : Session H)
      → get_or_404 c (submission_url c id) s ≡ (ok (some body), s')
      → D.submission body ≡ parsed found
      → Sends
          (Withdraws c (record found { id = id } ∷ []))
          s'
          (discard_review_submission D c fuel id s).1
  unfolding discard_review_submission decoded ◌>>=◌
  discard_review_submission-Sends fuel id body found s s' e d =
      rw (e, continue)
        (rw (d, continue)
          ((discard_by-Emits fuel (record found { id = id }) (disposition found.attributes.state)
              refl).at
            s'))
