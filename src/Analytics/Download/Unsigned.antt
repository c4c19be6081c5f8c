-- ===== src/Analytics/Download/Unsigned.antt =====
-- Which request a download sends
-- (`download_analytics_segment`, crates/stack_core/src/providers/appstore/client.rs).
use stack_connect_core.Prelude.{
  ℕ, zero, suc, ◌≡◌, refl, String, ap, ◌∙◌, arith, ◌++◌, Option, none, some, List, [], ◌∷◌,
}
use stack_connect_core.Wire.{Host, Session, M, Request, no_body, pure, log_line}
use stack_connect_core.Wire.Inversion.{bind_at}
use stack_connect_core.Wire.Emits.{Emits, emits_rules, Emits-if, Sends-nothing, sent_in_front}
use stack_connect_core.Transport.{AppStoreClient, log_if_on}
use stack_connect_core.Transport.Once.{log_ok}
use stack_connect_core.Transport.Requests.{log_if_on-Emits}
use stack_connect_core.Analytics.Download.{
  Streams, unsigned_get, send_streamed, read_text, read_chunk, read_chunks, take_chunk,
  refuse_above, read_or_fail, fail_with_body, read_segment, download_analytics_segment,
  download_line,
}

module _ {H : Host} (X : Streams H) where
  module _ (P : Request → Type 0) where
    read_text-Emits : (response : X.Response) → Emits P (read_text X response)
    unfolding read_text
    read_text-Emits response = record { at = λ s. Sends-nothing refl }

    read_chunk-Emits : (response : X.Response) → Emits P (read_chunk X response)
    unfolding read_chunk
    read_chunk-Emits response = record { at = λ s. Sends-nothing refl }

    refuse_above-Emits : (max_bytes : ℕ) (o : Option ℕ) → Emits P (refuse_above X max_bytes o)
    refuse_above-Emits max_bytes none = search emits_rules
    refuse_above-Emits max_bytes (some len) = search (emits_rules, Emits-if)

    take_chunk-Emits :
        (max_bytes : ℕ) (compressed : List ℕ) (next : Option (List ℕ))
        (more : List ℕ → M H (List ℕ))
        → ((bytes : List ℕ) → Emits P (more bytes))
        → Emits P (take_chunk X max_bytes compressed next more)
    take_chunk-Emits max_bytes compressed none more k = search emits_rules
    take_chunk-Emits max_bytes compressed (some bytes) more k = search (emits_rules, Emits-if)

    read_chunks-Emits :
        (fuel max_bytes : ℕ) (response : X.Response) (compressed : List ℕ)
        → Emits P (read_chunks X fuel max_bytes response compressed)
    unfolding read_chunks
    read_chunks-Emits zero max_bytes response compressed = search emits_rules
    read_chunks-Emits (suc fuel) max_bytes response compressed =
        search (emits_rules, read_chunk-Emits, take_chunk-Emits, read_chunks-Emits fuel)

    read_or_fail-Emits :
        (fuel max_bytes : ℕ) (response : X.Response)
        → Emits P (read_or_fail X fuel max_bytes response)
    unfolding read_segment fail_with_body
    read_or_fail-Emits fuel max_bytes response =
        search (emits_rules, Emits-if, read_text-Emits, read_chunks-Emits)

  log_sent :
      (c : AppStoreClient) (line : String) (s : Session H) → (log_if_on c line s).1.sent ≡ s.sent
  unfolding pure log_line
  log_sent c line s = ground arith

  -- A download sends one request, a GET of the given URL without a bearer token, and no other,
  -- whatever comes back and also where it fails.
  pub download_sent :
      (c : AppStoreClient) (fuel : ℕ) (url : String) (max_bytes : ℕ) (s : Session H)
      → (download_analytics_segment X c fuel url max_bytes s).1.sent
        ≡ s.sent
          ++ (record { method = "GET"; url = url; bearer = none; headers = []; body = no_body }
              ∷ [])
  unfolding download_analytics_segment send_streamed
  download_sent c fuel url max_bytes s =
      let line = download_line url max_bytes in
      ap (λ p. p.1.sent) (bind_at (log_if_on c line) _ s (log_ok c line s))
      ∙ sent_in_front (send_streamed X (unsigned_get url)) _ (log_if_on c line s).1 (λ response.
        search (emits_rules, log_if_on-Emits, refuse_above-Emits, read_or_fail-Emits) depth 8)
      ∙ ap (λ l. l ++ (unsigned_get url ∷ [])) (log_sent c line s)
