-- ===== src/Transport/Requests.antt =====
-- Which requests the shared methods of the client send
-- (crates/stack_core/src/providers/appstore/client.rs).
use stack_connect_core.Prelude.{ℕ, String, Option, none, some}
use stack_connect_core.Error.{Parsed, parsed, malformed}
use stack_connect_core.Json.{Json}
use stack_connect_core.Wire.{Host, Request, BuiltRequest, JwtHeader, TeamClaims}
use stack_connect_core.Wire.Emits.{
  Emits, Emits-pure, Emits-raise, Emits-log_line, Emits-if, emits_rules,
}
use stack_connect_core.Auth.{
  AppStoreAuthenticator, or_signing_error, encode_with, sign_team_token, reuse_or_mint,
  bearer_token,
}
use stack_connect_core.Auth.Pem.{normalize_p8_pem}
use stack_connect_core.Transport.{
  AppStoreClient, log_if_on, log_curl, send_and_read, accept, get, post, patch, delete, get_page,
  post_json_2xx, patch_no_content, delete_at, unless_404, get_or_404, patch_json_2xx, patch_unit,
  post_unit, delete_with, delete_json,
}

module _ {H : Host} {P : Request → Type 0} where
  or_signing_error-Emits : (p : Parsed String) → Emits {H = H} P (or_signing_error p)
  or_signing_error-Emits (parsed token) = Emits-pure token
  or_signing_error-Emits (malformed e) = Emits-raise _

  encode_with-Emits :
      (h : JwtHeader) (c : TeamClaims) (p : Parsed H.Key) → Emits {H = H} P (encode_with h c p)
  encode_with-Emits h c (malformed e) = Emits-raise _
  encode_with-Emits h c (parsed key) = or_signing_error-Emits (H.encode h c key)

  reuse_or_mint-Emits :
      (a : AppStoreAuthenticator) (n : ℕ) (o : Option String)
      → Emits {H = H} P (reuse_or_mint a n o)
  unfolding sign_team_token
  reuse_or_mint-Emits a n none =
      search
        (emits_rules, encode_with-Emits _ _ (H.from_ec_pem (normalize_p8_pem a.private_key_p8)))
  reuse_or_mint-Emits a n (some token) = Emits-pure token

  pub bearer_token-Emits : (a : AppStoreAuthenticator) → Emits {H = H} P (bearer_token a)
  unfolding bearer_token
  bearer_token-Emits a = search (emits_rules, reuse_or_mint-Emits)

  module _ (c : AppStoreClient) where
    pub log_if_on-Emits : (line : String) → Emits {H = H} P (log_if_on c line)
    log_if_on-Emits line = search (emits_rules, Emits-if)

    pub log_curl-Emits : (o : Option BuiltRequest) → Emits {H = H} P (log_curl c o)
    log_curl-Emits none = Emits-pure tt
    log_curl-Emits (some req) = log_if_on-Emits _

    pub send_and_read-Emits : (req : Request) → P req → Emits {H = H} P (send_and_read c req)
    unfolding send_and_read
    send_and_read-Emits req h = search (emits_rules, log_if_on-Emits, log_curl-Emits)

    pub accept-Emits : (r : ℕ × String) → Emits {H = H} P (accept c r)
    accept-Emits (status, body) = search (emits_rules, Emits-if)

    unless_404-Emits : (r : ℕ × String) → Emits {H = H} P (unless_404 c r)
    unless_404-Emits (status, body) = search (emits_rules, Emits-if)

    pub get_page-Emits :
        (url : String) → ((t : String) → P (get url t)) → Emits {H = H} P (get_page c url)
    unfolding get_page
    get_page-Emits url h =
        search (emits_rules, bearer_token-Emits, send_and_read-Emits, accept-Emits)

    pub post_json_2xx-Emits :
        (url : String) (body : Json)
        → ((t : String) → P (post url t body))
        → Emits {H = H} P (post_json_2xx c url body)
    unfolding post_json_2xx
    post_json_2xx-Emits url body h =
        search (emits_rules, bearer_token-Emits, send_and_read-Emits, accept-Emits)

    pub patch_no_content-Emits :
        (url token : String) (body : Json)
        → P (patch url token body)
        → Emits {H = H} P (patch_no_content c url token body)
    unfolding patch_no_content
    patch_no_content-Emits url token body h =
        search (emits_rules, send_and_read-Emits, accept-Emits)

    pub delete_at-Emits :
        (url : String) → ((t : String) → P (delete url t)) → Emits {H = H} P (delete_at c url)
    unfolding delete_at
    delete_at-Emits url h =
        search (emits_rules, bearer_token-Emits, send_and_read-Emits, accept-Emits)

    pub get_or_404-Emits :
        (url : String) → ((t : String) → P (get url t)) → Emits {H = H} P (get_or_404 c url)
    unfolding get_or_404
    get_or_404-Emits url h =
        search (emits_rules, bearer_token-Emits, send_and_read-Emits, unless_404-Emits)

    pub patch_json_2xx-Emits :
        (url : String) (body : Json)
        → ((t : String) → P (patch url t body))
        → Emits {H = H} P (patch_json_2xx c url body)
    unfolding patch_json_2xx
    patch_json_2xx-Emits url body h =
        search (emits_rules, bearer_token-Emits, send_and_read-Emits, accept-Emits)

    pub patch_unit-Emits :
        (url : String) (body : Json)
        → ((t : String) → P (patch url t body))
        → Emits {H = H} P (patch_unit c url body)
    unfolding patch_unit
    patch_unit-Emits url body h = search (emits_rules, bearer_token-Emits, patch_no_content-Emits)

    pub post_unit-Emits :
        (url : String) (body : Json)
        → ((t : String) → P (post url t body))
        → Emits {H = H} P (post_unit c url body)
    unfolding post_unit
    post_unit-Emits url body h = search (emits_rules, post_json_2xx-Emits)

    pub delete_with-Emits :
        (url : String) (body : Json)
        → ((t : String) → P (delete_json url t body))
        → Emits {H = H} P (delete_with c url body)
    unfolding delete_with
    delete_with-Emits url body h =
        search (emits_rules, bearer_token-Emits, send_and_read-Emits, accept-Emits)

pub ruleset request_rules = (
  emits_rules, bearer_token-Emits, get_page-Emits, post_json_2xx-Emits, patch_no_content-Emits,
  delete_at-Emits, get_or_404-Emits, log_if_on-Emits, patch_json_2xx-Emits, patch_unit-Emits,
  post_unit-Emits, delete_with-Emits,
)
