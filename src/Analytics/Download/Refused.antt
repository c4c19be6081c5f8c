-- ===== src/Analytics/Download/Refused.antt =====
-- A download whose declared size is over the cap
-- (`download_analytics_segment`, crates/stack_core/src/providers/appstore/client.rs).
use stack_connect_core.Prelude.{ℕ, ◌<◌, ◌≡◌, refl, String, inl, inr, some, Bool-cases, lt→ltb}
use stack_connect_core.Error.{err, parsed}
use stack_connect_core.Wire.{Host, Session, log_line, pure, raise, ◌>>=◌}
use stack_connect_core.Transport.{AppStoreClient}
use stack_connect_core.Analytics.Download.{
  Streams, too_large, unsigned_get, send_streamed, download_analytics_segment,
}

module _ {H : Host} (X : Streams H) where
  -- Where the service declares a size over the cap, whatever its status, the download is refused
  -- as unsupported, and the network is left as sending the request has left it: no byte of the
  -- body is read.
  pub download_refused :
      (c : AppStoreClient) (fuel : ℕ) (url : String) (max_bytes len : ℕ) (s : Session H)
      (r : X.Response) (w : H.World)
      → X.begin (unsigned_get url) s.world ≡ (parsed r, w)
      → X.content_length r ≡ some len
      → max_bytes < len
      → let d = download_analytics_segment X c fuel url max_bytes s in
        (d.0 ≡ err too_large) × (d.1.world ≡ w)
  unfolding download_analytics_segment send_streamed log_line pure raise ◌>>=◌
  download_refused c fuel url max_bytes len s r w e k h = elim (Bool-cases c.debug_logger) [
    | inl b ↦ (rw (b, e, k, lt→ltb max_bytes len h) refl, rw (b, e, k, lt→ltb max_bytes len h) refl)
    | inr b ↦ (rw (b, e, k, lt→ltb max_bytes len h) refl, rw (b, e, k, lt→ltb max_bytes len h) refl)
  ]
