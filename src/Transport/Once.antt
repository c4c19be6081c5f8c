-- ===== src/Transport/Once.antt =====
-- The methods of the client that send one request and no other
-- (crates/stack_core/src/providers/appstore/client.rs).
use stack_connect_core.Prelude.{
  ℕ, ◌≡◌, refl, ap, ◌∙◌, arith, String, Option, none, some, [], ◌∷◌, ◌++◌,
}
use stack_connect_core.Error.{ok}
use stack_connect_core.Json.{Json}
use stack_connect_core.Wire.{
  Host, M, Session, Request, BuiltRequest, pure, log_line, exchange, ◌>>=◌,
}
use stack_connect_core.Wire.Inversion.{>>=-eq-ok, >>=_of_ok, bind_at}
use stack_connect_core.Wire.Emits.{Emits, Emits-nothing, sent_in_front, emits_rules}
use stack_connect_core.Auth.{bearer_token}
use stack_connect_core.Transport.{
  AppStoreClient, log_if_on, log_curl, send_and_read, accept, post, patch, post_json_2xx,
  patch_no_content,
}
use stack_connect_core.Transport.Requests.{
  bearer_token-Emits, accept-Emits, log_if_on-Emits, log_curl-Emits,
}

module _ {H : Host} (c : AppStoreClient) where
  pub log_ok :
      (line : String) (s : Session H) → log_if_on c line s ≡ (ok tt, (log_if_on c line s).1)
  unfolding pure log_line
  log_ok line s = ground arith

  curl_ok : (o : Option BuiltRequest) (s : Session H) → log_curl c o s ≡ (ok tt, (log_curl c o s).1)
  unfolding pure
  curl_ok none s = refl
  curl_ok (some req) s = log_ok _ s

  exchange_sent : (req : Request) (s : Session H) → (exchange req s).1.sent ≡ s.sent ++ (req ∷ [])
  unfolding exchange
  exchange_sent req s = refl

  send_and_read_sent :
      (req : Request) (s : Session H) → (send_and_read c req s).1.sent ≡ s.sent ++ (req ∷ [])
  unfolding send_and_read
  send_and_read_sent req s =
      let u = (log_curl c (H.build req) s).1 in
      ap (λ p. p.1.sent) (bind_at (log_curl c (H.build req)) _ s (curl_ok (H.build req) s))
      ∙ sent_in_front (exchange req) _ u (λ r. search (emits_rules, log_if_on-Emits))
      ∙ exchange_sent req u
      ∙ ap (λ l. l ++ (req ∷ [])) (Emits-nothing (log_curl-Emits c (H.build req)) s)

  -- An action that asks for a token, sends the request that it makes of it, and looks at the answer.
  asks_once :
      {B : Type 0} (make : String → Request) (k : ℕ × String → M H B) (s : Session H) {b : B}
      → ((r : ℕ × String) → Emits (λ _. ⊥) (k r))
      → ((bearer_token c.auth >>= λ t. send_and_read c (make t) >>= k) s).0 ≡ ok b
      → (t : String) × (((bearer_token c.auth >>= λ t. send_and_read c (make t) >>= k) s).1.sent
          ≡ s.sent ++ (make t ∷ []))
  asks_once make k s silent h =
      let (t, got, _) = >>=-eq-ok (bearer_token c.auth) _ s h in
      let u = (bearer_token c.auth s).1 in
      (
        t,
        ap (λ p. p.1.sent) (>>=_of_ok (bearer_token c.auth) _ s got)
            ∙ sent_in_front (send_and_read c (make t)) k u silent
            ∙ send_and_read_sent (make t) u
            ∙ ap (λ l. l ++ (make t ∷ [])) (Emits-nothing (bearer_token-Emits c.auth) s),
      )

  pub post_json_2xx_once :
      (url : String) (body : Json) (s : Session H) {b : String}
      → (post_json_2xx c url body s).0 ≡ ok b
      → (t : String) × ((post_json_2xx c url body s).1.sent ≡ s.sent ++ (post url t body ∷ []))
  unfolding post_json_2xx
  post_json_2xx_once url body s h = asks_once (λ t. post url t body) (accept c) s (accept-Emits c) h

  pub patch_no_content_once :
      (url : String) (body : Json) (s : Session H)
      → ((bearer_token c.auth >>= λ t. patch_no_content c url t body) s).0 ≡ ok tt
      → (t : String) × (((bearer_token c.auth >>= λ t. patch_no_content c url t body) s).1.sent
          ≡ s.sent ++ (patch url t body ∷ []))
  unfolding patch_no_content
  patch_no_content_once url body s h =
      asks_once (λ t. patch url t body) _ s (λ r. search (emits_rules, accept-Emits)) h
