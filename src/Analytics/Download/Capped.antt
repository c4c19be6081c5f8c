-- ===== src/Analytics/Download/Capped.antt =====
-- What a download returns
-- (`download_analytics_segment`, crates/stack_core/src/providers/appstore/client.rs).
use stack_connect_core.Prelude.{
  ℕ, zero, suc, ◌+◌, ◌≤◌, ◌≡◌, refl, String, inl, inr, Option, none, some, List, [], ◌++◌, length,
  length-append, ltb, ltb→le, Bool-cases, arith,
}
use stack_connect_core.Error.{Parsed, parsed, malformed}
use stack_connect_core.Wire.{Host, M, out_of_fuel, decoded}
use stack_connect_core.Wire.Outcomes.{
  Returns, Returns-pure, Returns-raise, Returns-any, Returns-bind, Returns-if,
}
use stack_connect_core.Transport.{AppStoreClient}
use stack_connect_core.Analytics.Tsv.{AnalyticsReportData, parse_analytics_tsv}
use stack_connect_core.Analytics.Download.{
  Streams, too_large, read_text, read_chunk, read_chunks, take_chunk, fail_with_body, read_segment,
  download_analytics_segment,
}

module _ {H : Host} (X : Streams H) where
  take_chunk-Returns :
      (max_bytes : ℕ) (compressed : List ℕ) (next : Option (List ℕ)) (more : List ℕ → M H (List ℕ))
      → length compressed ≤ max_bytes
      → ((bytes : List ℕ)
          → length bytes ≤ max_bytes
          → Returns (λ b. length b ≤ max_bytes) (more bytes))
      → Returns (λ b. length b ≤ max_bytes) (take_chunk X max_bytes compressed next more)
  take_chunk-Returns max_bytes compressed none more h k = Returns-pure compressed h
  take_chunk-Returns max_bytes compressed (some bytes) more h k =
      elim (Bool-cases (ltb max_bytes (length compressed + length bytes))) [
        | inl e ↦ rw e (Returns-raise too_large)
        | inr e ↦
            rw e (k (compressed ++ bytes) (rw (length-append compressed bytes) (ltb→le _ _ e)))
      ]

  read_chunks-Returns :
      (fuel max_bytes : ℕ) (response : X.Response) (compressed : List ℕ)
      → length compressed ≤ max_bytes
      → Returns (λ b. length b ≤ max_bytes) (read_chunks X fuel max_bytes response compressed)
  unfolding read_chunks out_of_fuel
  read_chunks-Returns zero max_bytes response compressed h = record { at = λ s. tt }
  read_chunks-Returns (suc fuel) max_bytes response compressed h =
      Returns-bind _ _ (Returns-any (read_chunk X response)) (λ next _.
        take_chunk-Returns max_bytes compressed next _ h
          (read_chunks-Returns fuel max_bytes response))

  -- The table was parsed from a text that at most `max_bytes` bytes hold.
  pub record FromSegment (max_bytes : ℕ) (table : AnalyticsReportData) : Type 0 where
    pub compressed : List ℕ
    pub text : String
    pub capped : length compressed ≤ max_bytes
    pub inflated : X.gunzip compressed ≡ parsed text
    pub read : table ≡ parse_analytics_tsv text

  decoded-Returns :
      (what : String) (p : Parsed String)
      → Returns {H = H} (λ text. p ≡ parsed text) (decoded what p)
  unfolding decoded
  decoded-Returns what (parsed text) = record { at = λ s. refl }
  decoded-Returns what (malformed e) = record { at = λ s. tt }

  read_segment-Returns :
      (fuel max_bytes : ℕ) (response : X.Response)
      → Returns (FromSegment max_bytes) (read_segment X fuel max_bytes response)
  unfolding read_segment
  read_segment-Returns fuel max_bytes response =
      Returns-bind _ _ (read_chunks-Returns fuel max_bytes response [] (omega arith))
        (λ compressed h. Returns-bind _ _ (decoded-Returns _ (X.gunzip compressed)) (λ text e.
          Returns-pure _ (record {
            compressed = compressed;
            text = text;
            capped = h;
            inflated = e;
            read = refl;
          })))

  fail_with_body-Returns :
      (response : X.Response) {R : AnalyticsReportData → Type 0}
      → Returns R (fail_with_body X response)
  unfolding fail_with_body
  fail_with_body-Returns response =
      Returns-bind _ _ (Returns-any (read_text X response)) (λ _ _. Returns-raise _)

  -- What a download returns is the table of a text that `gunzip` has made of at most `max_bytes`
  -- bytes, however large the body is and whatever `Content-Length` the service declares.
  pub download-FromSegment :
      (c : AppStoreClient) (fuel : ℕ) (url : String) (max_bytes : ℕ)
      → Returns (FromSegment max_bytes) (download_analytics_segment X c fuel url max_bytes)
  unfolding download_analytics_segment
  download-FromSegment c fuel url max_bytes = Returns-bind _ _ (Returns-any _) (λ _ _.
      Returns-bind _ _ (Returns-any _) (λ response _. Returns-bind _ _ (Returns-any _) (λ _ _.
        Returns-bind _ _ (Returns-any _) (λ _ _.
          Returns-if _ _ _ (read_segment-Returns fuel max_bytes response)
            (fail_with_body-Returns response)))))
