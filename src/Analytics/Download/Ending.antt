-- ===== src/Analytics/Download/Ending.antt =====
-- That a download ends, if the service sends no empty chunk
-- (`download_analytics_segment`, crates/stack_core/src/providers/appstore/client.rs).
use stack_connect_core.Prelude.{
  ℕ, zero, suc, ◌+◌, ◌≤◌, ◌<◌, ◌≡◌, refl, String, inl, inr, Option, none, some, List, [], ◌++◌,
  length, length-append, ltb, ltb→le, Bool-cases, arith,
}
use stack_connect_core.Error.{Parsed, parsed, malformed}
use stack_connect_core.Wire.{Host, Session, M, Request}
use stack_connect_core.Wire.Outcomes.{
  OkHas, IsFinished, Finishes, finishes_rules, Finishes-bind_where, Finishes-if,
}
use stack_connect_core.Transport.{AppStoreClient, is_success}
use stack_connect_core.Analytics.Download.{
  Streams, or_network, send_streamed, read_text, read_chunk, read_chunks, take_chunk, refuse_above,
  read_or_fail, fail_with_body, read_segment, download_analytics_segment,
}

module _ {H : Host} (X : Streams H) where
  -- Every chunk that the service sends holds a byte.
  pub record NoEmptyChunk : Type 0 where
    pub holds :
        (response : X.Response) (s : Session H)
        → OkHas
            (λ next. (bytes : List ℕ) → next ≡ some bytes → 1 ≤ length bytes)
            (read_chunk X response s).0

  finished : {A : Type 0} (p : Parsed A) → IsFinished (or_network p)
  finished (parsed a) = tt
  finished (malformed e) = tt

  send_streamed-Finishes : (req : Request) → Finishes (send_streamed X req)
  unfolding send_streamed
  send_streamed-Finishes req = record { at = λ s. finished (X.begin req s.world).0 }

  read_text-Finishes : (response : X.Response) → Finishes (read_text X response)
  unfolding read_text
  read_text-Finishes response = record { at = λ s. finished (X.text response s.world).0 }

  read_chunk-Finishes : (response : X.Response) → Finishes (read_chunk X response)
  unfolding read_chunk
  read_chunk-Finishes response = record { at = λ s. finished (X.chunk response s.world).0 }

  refuse_above-Finishes : (max_bytes : ℕ) (o : Option ℕ) → Finishes (refuse_above X max_bytes o)
  refuse_above-Finishes max_bytes none = search finishes_rules
  refuse_above-Finishes max_bytes (some len) = search finishes_rules

  module _ (progress : NoEmptyChunk) where
    take_chunk-Finishes :
        (max_bytes : ℕ) (compressed : List ℕ) (next : Option (List ℕ))
        (more : List ℕ → M H (List ℕ))
        → ((bytes : List ℕ) → next ≡ some bytes → 1 ≤ length bytes)
        → ((bytes : List ℕ)
            → length compressed < length bytes
            → length bytes ≤ max_bytes
            → Finishes (more bytes))
        → Finishes (take_chunk X max_bytes compressed next more)
    take_chunk-Finishes max_bytes compressed none more h k = search finishes_rules
    take_chunk-Finishes max_bytes compressed (some bytes) more h k =
        elim (Bool-cases (ltb max_bytes (length compressed + length bytes))) [
          | inl e ↦ rw e (search finishes_rules)
          | inr e ↦ rw e (
              k (compressed ++ bytes)
                (rw (length-append compressed bytes) (let p = h bytes refl in omega arith))
                (rw (length-append compressed bytes) (ltb→le _ _ e)))
        ]

    read_chunks-Finishes :
        (fuel max_bytes : ℕ) (response : X.Response) (compressed : List ℕ)
        → length compressed ≤ max_bytes
        → max_bytes < length compressed + fuel
        → Finishes (read_chunks X fuel max_bytes response compressed)
    unfolding read_chunks
    read_chunks-Finishes zero max_bytes response compressed h k = absurd (omega arith)
    read_chunks-Finishes (suc fuel) max_bytes response compressed h k =
        Finishes-bind_where _ _ (read_chunk-Finishes response)
          (record { at = progress.holds response })
          (λ next p. take_chunk-Finishes max_bytes compressed next _ p (λ bytes grown fits.
            read_chunks-Finishes fuel max_bytes response bytes fits (omega arith)))

    read_whole-Finishes :
        (max_bytes : ℕ) (response : X.Response)
        → Finishes (read_chunks X (suc max_bytes) max_bytes response [])
    read_whole-Finishes max_bytes response =
        read_chunks-Finishes (suc max_bytes) max_bytes response [] (omega arith) (omega arith)

    read_segment-Finishes :
        (max_bytes : ℕ) (response : X.Response)
        → Finishes (read_segment X (suc max_bytes) max_bytes response)
    unfolding read_segment
    read_segment-Finishes max_bytes response = search (finishes_rules, read_whole-Finishes)

    fail_with_body-Finishes : (response : X.Response) → Finishes (fail_with_body X response)
    unfolding fail_with_body
    fail_with_body-Finishes response = search (finishes_rules, read_text-Finishes)

    read_or_fail-Finishes :
        (max_bytes : ℕ) (response : X.Response)
        → Finishes (read_or_fail X (suc max_bytes) max_bytes response)
    read_or_fail-Finishes max_bytes response =
        Finishes-if (is_success (X.status response)) _ _ (read_segment-Finishes max_bytes response)
          (fail_with_body-Finishes response)

    -- Where the service sends no empty chunk, a download ends after at most `max_bytes + 1` reads,
    -- also where the body never ends.
    pub download-Finishes :
        (c : AppStoreClient) (url : String) (max_bytes : ℕ)
        → Finishes (download_analytics_segment X c (suc max_bytes) url max_bytes)
    unfolding download_analytics_segment
    download-Finishes c url max_bytes =
        search
          (finishes_rules, send_streamed-Finishes, refuse_above-Finishes, read_or_fail-Finishes)
          depth 8
