-- ===== src/Screenshots.antt =====
-- The upload of a screenshot (crates/stack_core/src/providers/appstore/client.rs): reserve, upload
-- every chunk to its pre-signed URL, commit. A `usize` has 64 bits, and the addition of two `i64`
-- wraps around, as in a release build.
mod Documents
pub mod Chunks
pub mod Sets
pub use Documents.*
use stack_connect_core.Prelude.{
  ℕ, ◌+◌, ◌-◌, ◌/◌, ◌%◌, ◌^◌, suc, zero, ℤ, pos, negsuc, String, ◌<>◌, ◌&&◌, Option, none, some,
  true, List, [], ◌∷◌, length, take, drop, leb, and_then, replace, to_string, if◌then◌else◌,
}
use stack_connect_core.Error.{network, http, Parsed, parsed, malformed}
use stack_connect_core.Json.{
  Json, text, number, flag, object, member, end, document, to_one, single,
}
use stack_connect_core.Wire.{
  Host, M, Request, bytes, pure, raise, panic, decoded, ◌>>=◌, ◌>>◌, exchange,
}
use stack_connect_core.Auth.{bearer_token}
use stack_connect_core.Transport.{
  AppStoreClient, post_json_2xx, delete_at, send_and_read, accept, patch, log_if_on, is_success,
  render_response,
}

-- `i64 as usize`
unfoldable pub as_usize : ℤ → ℕ
as_usize (pos n) = n % 2 ^ 64
as_usize (negsuc n) = (2 ^ 64 - suc n) % 2 ^ 64

unfoldable pub start_of : UploadOperation → ℕ
unfolding as_usize
start_of op = as_usize op.offset

-- `(op.offset + op.length) as usize`
unfoldable pub end_of : UploadOperation → ℕ
unfolding as_usize
end_of op = (as_usize op.offset + as_usize op.length) % 2 ^ 64

abbrev nth_digit : ℕ → List String → String
nth_digit n [] = ""
nth_digit zero (d ∷ ds) = d
nth_digit (suc n) (d ∷ ds) = nth_digit n ds

abbrev hex_digit : ℕ → String
hex_digit n = nth_digit n (
    "0" ∷ "1" ∷ "2" ∷ "3" ∷ "4" ∷ "5" ∷ "6" ∷ "7" ∷ "8" ∷ "9" ∷ "a" ∷ "b" ∷ "c" ∷ "d" ∷ "e" ∷ "f"
    ∷ [])

-- Each byte of a digest with `{:02x}`.
unfoldable pub hex : List ℕ → String
hex [] = ""
hex (b ∷ digest) = hex_digit (b / 16) <> hex_digit (b % 16) <> hex digest

unfoldable pub int_to_string : ℤ → String
unfolding to_string
int_to_string (pos n) = to_string n
int_to_string (negsuc n) = "-" <> to_string (suc n)

abbrev or_512 : Option ℤ → ℤ
or_512 none = pos 512
or_512 (some n) = n

unfoldable pub to_image_url : ImageAsset → Option String
unfolding replace int_to_string
to_image_url a = and_then a.template_url λ template. some (
    replace "{f}" "png" (
      replace "{h}" (int_to_string (or_512 a.height))
        (replace "{w}" (int_to_string (or_512 a.width)) template)))

unfoldable pub to_screenshot_info : AppScreenshotResource → ScreenshotInfo
to_screenshot_info r = record {
  id = r.id;
  image_url = and_then r.attributes.image_asset to_image_url;
  file_name = r.attributes.file_name;
  file_size = r.attributes.file_size;
  width = and_then r.attributes.image_asset (λ a. a.width);
  height = and_then r.attributes.image_asset (λ a. a.height);
}

abbrev pub upload_request : UploadOperation → String → List ℕ → Request
upload_request op method chunk = record {
  method = method;
  url = op.url;
  bearer = none;
  headers = op.request_headers;
  body = bytes chunk;
}

abbrev pub upload_line : String → String → ℕ → String
upload_line method url n =
    "[RustCore] → upload " <> method <> " " <> url <> " [" <> to_string n <> " bytes]"

abbrev reserve_document : String → String → ℕ → Json
reserve_document set_id file_name size = document (
    object (
      member "type" (text "appScreenshots") (
        member "attributes"
          (object (member "fileName" (text file_name) (member "fileSize" (number size) end)))
          (member "relationships" (single "appScreenshotSet" (to_one "appScreenshotSets" set_id))
            end))))

abbrev commit_document : String → String → Json
commit_document id checksum = document (
    object (
      member "type" (text "appScreenshots") (
        member "id" (text id) (
          member "attributes"
            (object
              (member "uploaded" (flag true) (member "sourceFileChecksum" (text checksum) end)))
            end))))

module _ {H : Host} (D : Decoders) (c : AppStoreClient) where
  abbrev pub or_invalid_method : Parsed String → M H String
  or_invalid_method (parsed method) = pure method
  or_invalid_method (malformed e) = raise (network ("invalid upload method: " <> e))

  -- Here a 403 is an HTTP error like any other.
  abbrev pub accept_upload : ℕ → String → M H (Unit {0})
  accept_upload status body = if is_success status then pure tt else raise (http status body)

  abbrev pub perform_upload : UploadOperation → List ℕ → String → M H (Unit {0})
  perform_upload op chunk method = do
    log_if_on c (upload_line method op.url (length chunk))
    (status, body) ← exchange (upload_request op method chunk)
    log_if_on c (render_response H status "")
    accept_upload status body

  unfoldable pub send_upload : UploadOperation → List ℕ → M H (Unit {0})
  send_upload op chunk = do
    method ← or_invalid_method (D.method op.method)
    perform_upload op chunk method

  -- `&data[start..end]`
  abbrev pub chunk_of : List ℕ → ℕ → ℕ → M H (List ℕ)
  chunk_of image from to =
      if leb from to && leb to (length image)
      then pure (take (to - from) (drop from image))
      else panic

  unfoldable pub upload_each : List UploadOperation → List ℕ → M H (Unit {0})
  unfolding start_of end_of
  upload_each [] image = pure tt
  upload_each (op ∷ ops) image = do
    chunk ← chunk_of image (start_of op) (end_of op)
    send_upload op chunk
    upload_each ops image

  unfoldable pub upload_screenshot : String → String → List ℕ → M H ScreenshotInfo
  upload_screenshot set_id file_name image = do
    body ←
        post_json_2xx c (c.base_url <> "/v1/appScreenshots")
          (reserve_document set_id file_name (length image))
    reservation ← decoded "app screenshot reserve response: " (D.reservation body)
    upload_each reservation.upload_operations image
    token ← bearer_token c.auth
    response ← send_and_read c (
        patch (c.base_url <> "/v1/appScreenshots/" <> reservation.id) token
          (commit_document reservation.id (hex (D.md5 image))))
    answer ← accept c response
    resource ← decoded "app screenshot commit response: " (D.screenshot answer)
    pure (to_screenshot_info resource)

  unfoldable pub delete_screenshot : String → M H (Unit {0})
  delete_screenshot id = delete_at c (c.base_url <> "/v1/appScreenshots/" <> id)
