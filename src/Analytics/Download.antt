-- ===== src/Analytics/Download.antt =====
-- `download_analytics_segment` (crates/stack_core/src/providers/appstore/client.rs): a GET of a
-- pre-signed URL whose body is read in chunks, up to a number of bytes. The service decides how many
-- chunks there are, so the loop has fuel, one unit for a read.
pub mod Capped
pub mod Unsigned
pub mod Ending
pub mod Refused
use stack_connect_core.Prelude.{
  ℕ, zero, suc, ◌+◌, String, ◌<>◌, Bool, Option, none, some, List, [], ◌++◌, length, ltb, to_string,
  if◌then◌else◌,
}
use stack_connect_core.Error.{
  StackError, network, unsupported, Outcome, ok, err, Parsed, parsed, malformed,
}
use stack_connect_core.Wire.{
  Host, Session, M, Request, no_body, pure, raise, out_of_fuel, decoded, ◌>>=◌, ◌>>◌,
}
use stack_connect_core.Transport.{
  AppStoreClient, log_if_on, render_response, is_success, failure_error,
}
use stack_connect_core.Analytics.Tsv.{AnalyticsReportData, parse_analytics_tsv}

-- A response whose body has not been read, and the decompression of `flate2`: `text` is
-- `Response::text`, `chunk` is `Response::chunk`, and `gunzip` is `GzDecoder` with
-- `read_to_string`.
pub record Streams (H : Host) : Type 1 where
  pub Response : Type 0
  pub begin : Request → H.World → Parsed Response × H.World
  pub status : Response → ℕ
  pub content_length : Response → Option ℕ
  pub text : Response → H.World → Parsed String × H.World
  pub chunk : Response → H.World → Parsed (Option (List ℕ)) × H.World
  pub gunzip : List ℕ → Parsed String

abbrev pub or_network {ℓ} : {A : Type ℓ} → Parsed A → Outcome A
or_network (parsed a) = ok a
or_network (malformed e) = err (network e)

abbrev pub too_large : StackError
too_large = unsupported "analytics segment exceeds max_bytes; download via URL directly"

-- No `bearer_auth`: the URL is signed.
abbrev pub unsigned_get : String → Request
unsigned_get url = record { method = "GET"; url = url; bearer = none; headers = []; body = no_body }

abbrev pub download_line : String → ℕ → String
download_line url max_bytes =
    "[RustCore] → download " <> url <> " [max " <> to_string max_bytes <> " bytes]"

module _ {H : Host} (X : Streams H) where
  unfoldable pub send_streamed : Request → M H X.Response
  send_streamed req s =
      let (r, w) = X.begin req s.world in
      (or_network r, record s { world = w; sent = s.sent ++ List.◌∷◌ req [] })

  unfoldable pub read_text : X.Response → M H String
  read_text response s =
      let (r, w) = X.text response s.world in (or_network r, record s { world = w })

  unfoldable pub read_chunk : X.Response → M H (Option (List ℕ))
  read_chunk response s =
      let (r, w) = X.chunk response s.world in (or_network r, record s { world = w })

  -- The body of the loop; `more` is its next round.
  abbrev pub take_chunk : ℕ → List ℕ → Option (List ℕ) → (List ℕ → M H (List ℕ)) → M H (List ℕ)
  take_chunk max_bytes compressed none more = pure compressed
  take_chunk max_bytes compressed (some bytes) more =
      if ltb max_bytes (length compressed + length bytes)
      then raise too_large
      else more (compressed ++ bytes)

  -- The loop `while let Some(chunk) = response.chunk()`. A length is far below 2^64, so that the sum
  -- of two as `u64` does not wrap.
  unfoldable pub read_chunks : ℕ → ℕ → X.Response → List ℕ → M H (List ℕ)
  read_chunks zero max_bytes response compressed = out_of_fuel
  read_chunks (suc fuel) max_bytes response compressed = do
    next ← read_chunk response
    take_chunk max_bytes compressed next (read_chunks fuel max_bytes response)

  abbrev pub refuse_above : ℕ → Option ℕ → M H (Unit {0})
  refuse_above max_bytes none = pure tt
  refuse_above max_bytes (some len) = if ltb max_bytes len then raise too_large else pure tt

  unfoldable pub fail_with_body : X.Response → M H AnalyticsReportData
  fail_with_body response = do
    body ← read_text response
    raise (failure_error (X.status response) body)

  unfoldable pub read_segment : ℕ → ℕ → X.Response → M H AnalyticsReportData
  unfolding parse_analytics_tsv
  read_segment fuel max_bytes response = do
    compressed ← read_chunks fuel max_bytes response []
    text ← decoded "analytics segment gunzip: " (X.gunzip compressed)
    pure (parse_analytics_tsv text)

  abbrev pub read_or_fail : ℕ → ℕ → X.Response → M H AnalyticsReportData
  read_or_fail fuel max_bytes response =
      if is_success (X.status response)
      then read_segment fuel max_bytes response
      else fail_with_body response

  unfoldable pub download_analytics_segment :
      AppStoreClient → ℕ → String → ℕ → M H AnalyticsReportData
  download_analytics_segment c fuel url max_bytes = do
    log_if_on c (download_line url max_bytes)
    response ← send_streamed (unsigned_get url)
    log_if_on c (render_response H (X.status response) "")
    refuse_above max_bytes (X.content_length response)
    read_or_fail fuel max_bytes response
