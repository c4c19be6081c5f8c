-- ===== src/Submissions/Submitted/Origin.antt =====
-- Where the submission comes from that `submit_for_review` submits: an empty draft that the service
-- has listed, or a new one (crates/stack_core/src/providers/appstore/client.rs).
use mathlib.Core.Path.{subst}
use mathlib.Core.List.{Memᴰ}
use stack_connect_core.Prelude.{
  String, ◌<>◌, ◌≡◌, refl, Bool, true, false, Option, some, List, [], ◌∷◌, ◌++◌, is_empty,
}
use stack_connect_core.Error.{ok, Parsed, parsed, malformed}
use stack_connect_core.Wire.{Host, M, Session, ◌>>=◌, pure, decoded}
use stack_connect_core.Wire.Inversion.{>>=-eq-ok}
use stack_connect_core.Transport.{AppStoreClient, post, get_page, post_json_2xx}
use stack_connect_core.Submissions.{
  Decoders, IdResource, ReviewSubmissionsResponse, ReviewSubmissionItemsResponse,
  ReviewSubmissionResource, create_document, platform_filter, fetch_submission_items_page,
  fetch_submissions_page,
}
use stack_connect_core.Submissions.Submit.{
  submission_is_empty, first_empty, find_reusable_empty_draft,
}

-- A document that the service has answered to a reading, in some session.
abbrev Reads :
    {H : Host} {P : Type 0} → AppStoreClient → (String → Parsed P) → String → P → Session H → Type 0
Reads {H} c read url page s =
    (body : String) × ((get_page {H = H} c url s).0 ≡ ok body) × (read body ≡ parsed page)

none_left : {A : Type 0} (xs : List A) → is_empty xs ≡ true → xs ≡ []
none_left [] h = refl
none_left (x ∷ xs) h = absurd (cc h)

module _ (H : Host) (D : Decoders) (c : AppStoreClient) where
  -- A submission without items, as the service has listed them.
  abbrev IsEmpty : String → Type 0
  IsEmpty id =
      (items : ReviewSubmissionItemsResponse) × (u : Session H) × Reads {H = H} c D.items
        ((c.base_url <> "/v1/reviewSubmissions/" <> id) <> "/items") items u
      × (items.items ≡ [])

  abbrev Found : List ReviewSubmissionResource → String → Type 0
  Found xs draft = (x : ReviewSubmissionResource) × Memᴰ x xs × (x.id ≡ draft) × IsEmpty x.id

  further :
      (x : ReviewSubmissionResource) (xs : List ReviewSubmissionResource) (draft : String)
      → Found xs draft
      → Found (x ∷ xs) draft
  further x xs draft (y, m, e, k) = (y, Memᴰ.tail m, e, k)

module _ {H : Host} (D : Decoders) (c : AppStoreClient) (app_id : String)
    (platform : Option String) where
  -- How the submission came about that `s` asks for and `v` puts the version into: it is one of the
  -- drafts that the service has listed for the app and the platform, and the service has listed no
  -- item in it, or the service has created it on the POST that went out last.
  pub data IsFor (s v : Session H) : String → Type 0 where
    reused :
        {page : ReviewSubmissionsResponse} {items : ReviewSubmissionItemsResponse}
        {x : ReviewSubmissionResource} (u : Session H)
        → Reads c D.submissions
            (c.base_url
              <> "/v1/reviewSubmissions?filter[app]="
              <> app_id
              <> "&filter[state]=READY_FOR_REVIEW"
              <> platform_filter platform)
            page
            s
        → Memᴰ x page.submissions
        → Reads c D.items ((c.base_url <> "/v1/reviewSubmissions/" <> x.id) <> "/items") items u
        → items.items ≡ []
        → IsFor s v x.id
    created :
        {body : String} {x : IdResource} (u : Session H) (t : String)
        → post_json_2xx c
            (c.base_url <> "/v1/reviewSubmissions")
            (create_document app_id platform)
            u
          ≡ (ok body, v)
        → v.sent
          ≡ u.sent
            ++ (post (c.base_url <> "/v1/reviewSubmissions") t (create_document app_id platform)
                ∷ [])
        → D.created body ≡ parsed x
        → IsFor s v x.id

  same_of :
      {P : Type 0} (what : String) (p : Parsed P) (s : Session H) {page : P}
      → (decoded what p s).0 ≡ ok page
      → p ≡ parsed page
  unfolding decoded
  same_of what (parsed x) s h = cc h
  same_of what (malformed e) s h = absurd (cc h)

  read_of :
      {P : Type 0} (read : String → Parsed P) (what url : String) (s : Session H) {page : P}
      → ((get_page c url >>= λ body. decoded what (read body)) s).0 ≡ ok page
      → Reads c read url page s
  read_of read what url s h =
      let (body, got, h') = >>=-eq-ok (get_page c url) _ s h in
      (body, got, same_of what (read body) (get_page c url s).1 h')

  IsEmpty-of_page :
      (id : String) (s : Session H) → (submission_is_empty D c id s).0 ≡ ok true → IsEmpty H D c id
  unfolding submission_is_empty fetch_submission_items_page pure
  IsEmpty-of_page id s h =
      let url = (c.base_url <> "/v1/reviewSubmissions/" <> id) <> "/items" in
      let (items, got, h') = >>=-eq-ok (fetch_submission_items_page {H = H} D c url) _ s h in
      (items, s, read_of D.items _ url s got, none_left items.items (cc h'))

  first_of :
      (xs : List ReviewSubmissionResource) (draft : String) (s : Session H)
      → (first_empty D c xs s).0 ≡ ok (some draft)
      → Found H D c xs draft
  unfolding first_empty pure
  first_of [] draft s h = absurd (cc h)
  first_of (x ∷ xs) draft s h =
      let (empty, got, h') = >>=-eq-ok (submission_is_empty D c x.id) _ s h in
      on_empty (λ k. first_of xs draft (submission_is_empty D c x.id s).1 k) empty got h'
    where
      on_empty :
          ((first_empty D c xs (submission_is_empty D c x.id s).1).0 ≡ ok (some draft)
            → Found H D c xs draft)
          → (empty : Bool) → (submission_is_empty D c x.id s).0 ≡ ok empty
          → ((elim empty as (λ _. M H (Option String)) [
            | true ↦ pure (some x.id)
            | false ↦ first_empty D c xs
          ])
              (submission_is_empty D c x.id s).1).0
            ≡ ok (some draft)
          → Found H D c (x ∷ xs) draft
      on_empty rest true got h' = (x, Memᴰ.head refl, cc h', IsEmpty-of_page x.id s got)
      on_empty rest false got h' = further H D c x xs draft (rest h')

  pub found_of :
      (s v : Session H) {draft : String}
      → (find_reusable_empty_draft D c app_id platform s).0 ≡ ok (some draft)
      → IsFor s v draft
  unfolding find_reusable_empty_draft fetch_submissions_page
  found_of s v h =
      let url =
        c.base_url
        <> "/v1/reviewSubmissions?filter[app]="
        <> app_id
        <> "&filter[state]=READY_FOR_REVIEW"
        <> platform_filter platform in
      let (page, got, h') = >>=-eq-ok (fetch_submissions_page {H = H} D c url) _ s h in
      let (x, m, e, (items, u, read, no_item)) = first_of page.submissions _ _ h' in
      subst (IsFor s v) e (reused u (read_of D.submissions _ url s got) m read no_item)
