-- ===== src/Transport.antt =====
-- `AppStoreClient` and the requests that its methods share
-- (crates/stack_core/src/providers/appstore/client.rs): sending and logging, the map from a
-- response to an error, and the authenticated GET, POST, PATCH and DELETE.
pub mod Requests
pub mod Errors
pub mod Once
use Prim.Native.Char.{code}
use Prim.Native.String.{[], ◌∷◌}
use stack_connect_core.Prelude.{
  ℕ, String, ◌<>◌, Bool, true, false, ◌&&◌, ◌||◌, Option, none, some, List, map, leb, ltb, eqb,
  ◌==◌, codes, to_lower, to_string, contains, if◌then◌else◌,
}
use mathlib.Core.List
use stack_connect_core.Error.{StackError, auth, pending_agreements, http}
use stack_connect_core.Json.{Json}
use stack_connect_core.Wire.{
  Host, M, Request, BuiltRequest, Body, no_body, json, bytes, pure, raise, ◌>>=◌, ◌>>◌, log_line,
  exchange,
}
use stack_connect_core.Auth.{AppStoreAuthenticator, bearer_token}

-- `debug_logger` says whether the host has injected one.
pub record AppStoreClient : Type 0 where
  pub base_url : String
  pub auth : AppStoreAuthenticator
  pub debug_logger : Bool

abbrev default_base_url : String
default_base_url = "https://api.appstoreconnect.apple.com"

-- `base_url.trim_end_matches('/')`
unfoldable pub trim_slashes : String → String
trim_slashes [] = ""
trim_slashes (c ∷ s) =
    let rest = trim_slashes s in if eqb (code c) b'/' && rest == "" then "" else c ∷ rest

unfoldable pub with_base_url : AppStoreAuthenticator → String → AppStoreClient
unfolding trim_slashes
with_base_url a base_url = record {
  base_url = trim_slashes base_url;
  auth = a;
  debug_logger = false;
}

unfoldable pub new : AppStoreAuthenticator → AppStoreClient
unfolding with_base_url
new a = with_base_url a default_base_url

unfoldable pub with_debug_logger : AppStoreClient → Bool → AppStoreClient
with_debug_logger c logger = record c { debug_logger = logger }

-- `StatusCode::is_success`
abbrev pub is_success : ℕ → Bool
is_success status = leb 200 status && ltb status 300

abbrev pub agreements_message : String
agreements_message =
    "App Store Connect has pending agreements; accept them in the developer portal before connecting"

-- Whether the body mentions an agreement. `to_lowercase` acts here on ASCII letters: no other
-- character has a lower case that is a part of either word.
unfoldable pub mentions_agreement : String → Bool
unfolding to_lower contains
mentions_agreement body =
    let lowered = map to_lower (codes body) in
    contains (codes "agreement") lowered || contains (codes "pending") lowered

unfoldable pub pending_agreements_error : ℕ → String → Option StackError
pending_agreements_error status body =
    if eqb status 403
    then (if mentions_agreement body then some (pending_agreements agreements_message) else none)
    else none

-- The error of a response that is no success.
abbrev or_http : Option StackError → ℕ → String → StackError
or_http (some e) status body = e
or_http none status body = http status body

unfoldable pub failure_error : ℕ → String → StackError
unfolding pending_agreements_error
failure_error status body = or_http (pending_agreements_error status body) status body

abbrev or_auth : Option StackError → StackError → StackError
or_auth (some e) other = e
or_auth none other = other

unfoldable pub map_error_response : ℕ → String → StackError
unfolding pending_agreements_error to_string
map_error_response status body =
    or_auth (pending_agreements_error status body)
      (auth ("validation failed (" <> to_string status <> "): " <> body))

module _ (H : Host) where
  abbrev header_value : Option String → String
  header_value none = "<non-utf8>"
  header_value (some v) = v

  abbrev or_lossy : Option String → List ℕ → String
  or_lossy none raw = H.utf8_lossy raw
  or_lossy (some printed) raw = printed

  unfoldable pub pretty_json : List ℕ → String
  pretty_json raw = or_lossy (H.pretty raw) raw

  unfoldable pub render_headers : List (String × Option String) → String
  render_headers List.[] = ""
  render_headers (List.◌∷◌ (name, value) rest) =
      " \\\n  -H '" <> name <> ": " <> header_value value <> "'" <> render_headers rest

  abbrev render_body : Option (List ℕ) → String
  render_body none = ""
  render_body (some List.[]) = ""
  render_body (some (List.◌∷◌ b bs)) = " \\\n  -d '" <> pretty_json (List.◌∷◌ b bs) <> "'"

  unfoldable pub render_curl : BuiltRequest → String
  unfolding render_headers
  render_curl req =
      "[RustCore] → request\n→ curl -X "
      <> req.method
      <> " '"
      <> req.url
      <> "'"
      <> render_headers req.headers
      <> render_body req.body

  unfoldable pub render_response : ℕ → String → String
  render_response status body =
      "[RustCore] ← " <> H.status_text status <> "\n" <> pretty_json (H.utf8 body)

abbrev pub get : String → String → Request
get url token = record {
  method = "GET";
  url = url;
  bearer = some token;
  headers = List.[];
  body = no_body;
}

abbrev pub delete : String → String → Request
delete url token = record {
  method = "DELETE";
  url = url;
  bearer = some token;
  headers = List.[];
  body = no_body;
}

abbrev pub post : String → String → Json → Request
post url token body = record {
  method = "POST";
  url = url;
  bearer = some token;
  headers = List.[];
  body = json body;
}

abbrev pub patch : String → String → Json → Request
patch url token body = record {
  method = "PATCH";
  url = url;
  bearer = some token;
  headers = List.[];
  body = json body;
}

-- A `DELETE` with a body, which names the members to take out of a relationship.
abbrev pub delete_json : String → String → Json → Request
delete_json url token body = record {
  method = "DELETE";
  url = url;
  bearer = some token;
  headers = List.[];
  body = json body;
}

module _ {H : Host} (c : AppStoreClient) where
  abbrev pub log_if_on : String → M H (Unit {0})
  log_if_on line = if c.debug_logger then log_line line else pure tt

  abbrev log_curl : Option BuiltRequest → M H (Unit {0})
  log_curl none = pure tt
  log_curl (some req) = log_if_on (render_curl H req)

  unfoldable pub send_and_read : Request → M H (ℕ × String)
  send_and_read req = do
    log_curl (H.build req)
    (status, body) ← exchange req
    log_if_on (render_response H status body)
    pure (status, body)

  -- The body of a success, or the error of any other response.
  abbrev pub accept : ℕ × String → M H String
  accept (status, body) = if is_success status then pure body else raise (failure_error status body)

  unfoldable pub get_page : String → M H String
  get_page url = do
    token ← bearer_token c.auth
    response ← send_and_read (get url token)
    accept response

  unfoldable pub post_json_2xx : String → Json → M H String
  post_json_2xx url body = do
    token ← bearer_token c.auth
    response ← send_and_read (post url token body)
    accept response

  unfoldable pub patch_no_content : String → String → Json → M H (Unit {0})
  patch_no_content url token body = do
    response ← send_and_read (patch url token body)
    accept response
    pure tt

  -- The bodies of the methods that send one request and look at the answer's status alone, and of
  -- those that read the document that a PATCH answers.
  unfoldable pub patch_json_2xx : String → Json → M H String
  patch_json_2xx url body = do
    token ← bearer_token c.auth
    response ← send_and_read (patch url token body)
    accept response

  unfoldable pub patch_unit : String → Json → M H (Unit {0})
  patch_unit url body = do token ← bearer_token c.auth; patch_no_content url token body

  unfoldable pub post_unit : String → Json → M H (Unit {0})
  post_unit url body = do post_json_2xx url body; pure tt

  unfoldable pub delete_with : String → Json → M H (Unit {0})
  delete_with url body = do
    token ← bearer_token c.auth
    response ← send_and_read (delete_json url token body)
    accept response
    pure tt

  -- The body of `delete_version`, `delete_review_response`, `delete_review_submission_item` and
  -- the like.
  unfoldable pub delete_at : String → M H (Unit {0})
  delete_at url = do
    token ← bearer_token c.auth
    response ← send_and_read (delete url token)
    accept response
    pure tt

  -- A GET whose `404` means that the resource is absent.
  abbrev pub unless_404 : ℕ × String → M H (Option String)
  unless_404 (status, body) =
      if eqb status 404
      then pure none
      else if is_success status
      then pure (some body)
      else raise (failure_error status body)

  unfoldable pub get_or_404 : String → M H (Option String)
  get_or_404 url = do
    token ← bearer_token c.auth
    response ← send_and_read (get url token)
    unless_404 response

  -- `validate` of the client
  unfoldable pub validate : M H (Unit {0})
  validate = do
    token ← bearer_token c.auth
    (status, body) ← send_and_read (get (c.base_url <> "/v1/apps?limit=1") token)
    if is_success status then pure tt else raise (map_error_response status body)
