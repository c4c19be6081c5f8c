-- ===== src/Transport/Errors.antt =====
-- How the errors of `validate` differ from those of the other requests
-- (crates/stack_core/src/providers/appstore/client.rs).
use stack_connect_core.Prelude.{
  ℕ, String, ◌<>◌, ◌≡◌, ◌≢◌, refl, Option, arith, to_string, if◌then◌else◌,
}
use stack_connect_core.Error.{
  invalid_credentials, auth, pending_agreements, http, decode, network, unsupported,
  submission_not_removable, Outcome, ok, err, panicked, unfinished,
}
use stack_connect_core.Wire.{
  Host, Session, M, Request, pure, raise, exchange, log_line, ◌>>=◌, continue, unix_now, cached,
  store_token,
}
use stack_connect_core.Auth.{AppStoreAuthenticator, bearer_token, sign_team_token, reuse_or_mint}
use stack_connect_core.Transport.{
  AppStoreClient, get, get_page, validate, send_and_read, accept, is_success, failure_error,
  map_error_response, pending_agreements_error,
}

-- What `validate` makes of the outcome of the same GET elsewhere.
abbrev pub as_validation : Outcome String → Outcome (Unit {0})
as_validation (ok body) = ok tt
as_validation (err (http status body)) =
    err (auth ("validation failed (" <> to_string status <> "): " <> body))
as_validation (err e) = err e
as_validation panicked = panicked
as_validation unfinished = unfinished

abbrev IsOther : {A : Type 0} → Outcome A → Type 0
IsOther r = (status : ℕ) (body : String) → r ≢ err (http status body)

module _ {H : Host} where
  continue_validation :
      {A : Type 0} (r : Outcome A) (f : A → M H String) (g : A → M H (Unit {0})) (s : Session H)
      → IsOther r
      → ((a : A) (t : Session H) → g a t ≡ (as_validation (f a t).0, (f a t).1))
      → continue r g s ≡ (as_validation (continue r f s).0, (continue r f s).1)
  continue_validation (ok a) f g s other h = h a s
  continue_validation (err (http status body)) f g s other h = absurd (other status body refl)
  continue_validation (err (invalid_credentials m)) f g s other h = refl
  continue_validation (err (auth m)) f g s other h = refl
  continue_validation (err (pending_agreements m)) f g s other h = refl
  continue_validation (err (decode m)) f g s other h = refl
  continue_validation (err (network m)) f g s other h = refl
  continue_validation (err (unsupported m)) f g s other h = refl
  continue_validation (err (submission_not_removable m)) f g s other h = refl
  continue_validation panicked f g s other h = refl
  continue_validation unfinished f g s other h = refl

  bind_validation :
      {A : Type 0} (m : M H A) (f : A → M H String) (g : A → M H (Unit {0})) (s : Session H)
      → IsOther (m s).0
      → ((a : A) (t : Session H) → g a t ≡ (as_validation (f a t).0, (f a t).1))
      → (m >>= g) s ≡ (as_validation ((m >>= f) s).0, ((m >>= f) s).1)
  unfolding ◌>>=◌
  bind_validation m f g s other h = continue_validation (m s).0 f g (m s).1 other h

  reuse_or_mint-IsOther :
      (a : AppStoreAuthenticator) (n : ℕ) (o : Option String) (s : Session H)
      → IsOther (reuse_or_mint a n o s).0
  unfolding ◌>>=◌ sign_team_token store_token pure raise
  reuse_or_mint-IsOther a n o s status body h = ground arith

  bearer_token-IsOther : (a : AppStoreAuthenticator) (s : Session H) → IsOther (bearer_token a s).0
  unfolding bearer_token unix_now cached ◌>>=◌
  bearer_token-IsOther a s = reuse_or_mint-IsOther a _ _ _

  module _ (c : AppStoreClient) where
    send_and_read-IsOther : (req : Request) (s : Session H) → IsOther (send_and_read c req s).0
    unfolding send_and_read exchange log_line pure raise ◌>>=◌
    send_and_read-IsOther req s status body h = ground arith

    accepted_or_not :
        (status : ℕ) (body : String) (s : Session H)
        → (if is_success status then pure tt else raise (map_error_response status body)) s
          ≡ (as_validation (accept c (status, body) s).0, (accept c (status, body) s).1)
    unfolding pure raise failure_error map_error_response pending_agreements_error
    accepted_or_not status body s = ground arith

    -- `validate` sends the request that `get_page` sends for its URL, leaves the same session, and
    -- ends in the same way but for one case: a response that is no success and no report of pending
    -- agreements is an authentication error with the status and the body, not an HTTP error. In
    -- particular pending agreements are the same error in both.
    pub validate-eq-get_page :
        (s : Session H)
        → let page = get_page c (c.base_url <> "/v1/apps?limit=1") s in
          validate c s ≡ (as_validation page.0, page.1)
    unfolding validate get_page
    validate-eq-get_page s =
        bind_validation (bearer_token c.auth) _ _ s (bearer_token-IsOther c.auth s) (λ token t.
          bind_validation (send_and_read c (get (c.base_url <> "/v1/apps?limit=1") token)) _ _ t
            (send_and_read-IsOther (get (c.base_url <> "/v1/apps?limit=1") token) t)
            (λ (status, body) u. accepted_or_not status body u))
