-- ===== src/Screenshots/Chunks.antt =====
-- What the chunks of an upload come to
-- (crates/stack_core/src/providers/appstore/client.rs).
use mathlib.Core.List.{append_assoc, append-nil}
use stack_connect_core.Prelude.{
  ℕ, zero, suc, ◌+◌, ◌-◌, ◌%◌, ◌^◌, ◌≤◌, ◌<◌, ◌≡◌, ◌≢◌, refl, ◌∙◌, sym, ap, pos, String, none, List,
  [], ◌∷◌, ◌++◌, length, take, drop, All, arith,
}
use stack_connect_core.Error.{Outcome, ok, err, panicked, unfinished, Parsed, parsed, malformed}
use stack_connect_core.Wire.{
  Host, Session, M, Request, Body, no_body, json, bytes, pure, raise, exchange, log_line, ◌>>=◌,
  continue,
}
use stack_connect_core.Wire.Inversion.{>>=-eq-ok, >>=_of_ok, bind_at}
use stack_connect_core.Transport.{AppStoreClient}
use stack_connect_core.Screenshots.{
  Decoders, UploadOperation, as_usize, start_of, end_of, upload_request, or_invalid_method,
  perform_upload, send_upload, chunk_of, upload_each,
}

-- The bytes that a list of requests carries, one request after another.
abbrev pub bytes_of : Body → List ℕ
bytes_of no_body = []
bytes_of (json _) = []
bytes_of (bytes b) = b

abbrev pub payload : List Request → List ℕ
payload [] = []
payload (r ∷ rs) = bytes_of r.body ++ payload rs

-- The operations cover the range from `start` to `stop`, one after another and without a gap.
abbrev pub Tiles : ℕ → List UploadOperation → ℕ → Type 0
Tiles start [] stop = start ≡ stop
Tiles start (op ∷ ops) stop =
    (n : ℕ) × (op.offset ≡ pos start) × (op.length ≡ pos n) × Tiles (start + n) ops stop

-- An operation asks for bytes that the data has: `n` of them from `start` on.
abbrev pub IsWithin : List ℕ → UploadOperation → Type 0
IsWithin image op =
    (start n : ℕ) × (op.offset ≡ pos start) × (op.length ≡ pos n) × (start + n ≤ length image)

take-drop : (image : List ℕ) (n : ℕ) → take n image ++ drop n image ≡ image
take-drop image zero = refl
take-drop [] (suc n) = refl
take-drop (x ∷ image) (suc n) = ap (λ l. x ∷ l) (take-drop image n)

drop-drop : (image : List ℕ) (i n k : ℕ) → k ≡ i + n → drop k image ≡ drop n (drop i image)
drop-drop image zero n k e = ap (λ m. drop m image) (omega arith)
drop-drop [] (suc i) zero zero e = refl
drop-drop [] (suc i) (suc n) zero e = refl
drop-drop [] (suc i) zero (suc k) e = refl
drop-drop [] (suc i) (suc n) (suc k) e = refl
drop-drop (x ∷ image) (suc i) n zero e = absurd (omega arith)
drop-drop (x ∷ image) (suc i) n (suc k) e = drop-drop image i n k (omega arith)

-- A chunk and what follows it.
next_chunk : (image : List ℕ) (i n : ℕ) → take n (drop i image) ++ drop (i + n) image ≡ drop i image
next_chunk image i n =
    ap (λ l. take n (drop i image) ++ l) (drop-drop image i n (i + n) refl)
    ∙ take-drop (drop i image) n

drop-length : (image : List ℕ) → drop (length image) image ≡ []
drop-length [] = refl
drop-length (x ∷ image) = drop-length image

Tiles-le : (start : ℕ) (ops : List UploadOperation) (stop : ℕ) → Tiles start ops stop → start ≤ stop
Tiles-le start [] stop h = omega arith
Tiles-le start (op ∷ ops) stop (n, _, _, rest) = omega (arith, Tiles-le (start + n) ops stop rest)

below : (n : ℕ) → n < 2 ^ 64 → n % 2 ^ 64 ≡ n
below n h = omega arith

range_at :
    (op : UploadOperation) (start n : ℕ)
    → op.offset ≡ pos start
    → op.length ≡ pos n
    → start + n < 2 ^ 64
    → (start_of op ≡ start) × (end_of op ≡ start + n)
unfolding start_of end_of as_usize
range_at op start n ho hl h = (
  rw ho (below start (omega arith)),
  rw (ho, hl, below start (omega arith), below n (omega arith)) (below (start + n) h),
)

cut_at_range :
    (image : List ℕ) (a b start n : ℕ)
    → a ≡ start
    → b ≡ start + n
    → take (b - a) (drop a image) ≡ take n (drop start image)
cut_at_range image a b start n ha hb = let width : b - a ≡ n = omega arith in rw (width, ha)

-- Between the two sessions requests without a token have carried the image from `from` on.
pub record Uploaded {H : Host} (image : List ℕ) (from : ℕ) (s t : Session H) : Type 0 where
  pub new : List Request
  pub grown : t.sent ≡ s.sent ++ new
  pub anonymous : All (λ (r : Request). r.bearer ≡ none) new
  pub whole : payload new ≡ drop from image

module _ {H : Host} (D : Decoders) (c : AppStoreClient) where
  sent_one :
      (op : UploadOperation) (chunk : List ℕ) (method : String) (s : Session H)
      → (perform_upload D c op chunk method s).0 ≡ ok tt
      → (perform_upload D c op chunk method s).1.sent
        ≡ s.sent ++ (upload_request op method chunk ∷ [])
  unfolding ◌>>=◌ exchange log_line pure raise
  sent_one op chunk method s h = ground arith

  not_panicked :
      (op : UploadOperation) (chunk : List ℕ) (method : String) (s : Session H)
      → (perform_upload D c op chunk method s).0 ≢ panicked
  unfolding ◌>>=◌ exchange log_line pure raise
  not_panicked op chunk method s h = ground arith

  sent_by :
      (op : UploadOperation) (chunk : List ℕ) (p : Parsed String) (s : Session H)
      → ((or_invalid_method D c p >>= perform_upload D c op chunk) s).0 ≡ ok tt
      → (method : String) × (((or_invalid_method D c p >>= perform_upload D c op chunk) s).1.sent
          ≡ s.sent ++ (upload_request op method chunk ∷ []))
  unfolding pure raise ◌>>=◌
  sent_by op chunk (parsed method) s h = (method, sent_one op chunk method s h)
  sent_by op chunk (malformed e) s h = absurd (cc h)

  send_upload_sent :
      (op : UploadOperation) (chunk : List ℕ) (s : Session H)
      → (send_upload D c op chunk s).0 ≡ ok tt
      → (method : String) × ((send_upload D c op chunk s).1.sent
          ≡ s.sent ++ (upload_request op method chunk ∷ []))
  unfolding send_upload
  send_upload_sent op chunk s h = sent_by op chunk (D.method op.method) s h

  -- A chunk in range is cut out, and the session stays as it is.
  chunk_ok :
      (image : List ℕ) (from to : ℕ) (s : Session H)
      → from ≤ to
      → to ≤ length image
      → chunk_of D c image from to s ≡ (ok (take (to - from) (drop from image)), s)
  unfolding pure
  chunk_ok image from to s h k = ground arith

  upload_each_from :
      (image : List ℕ) (ops : List UploadOperation) (start : ℕ) (s : Session H)
      → length image < 2 ^ 64
      → Tiles start ops (length image)
      → (upload_each D c ops image s).0 ≡ ok tt
      → Uploaded image start s (upload_each D c ops image s).1
  unfolding upload_each pure
  upload_each_from image [] start s hl tiles h = record {
    new = [];
    grown = rw append-nil;
    anonymous = tt;
    whole = sym (ap (λ n. drop n image) tiles ∙ drop-length image);
  }
  upload_each_from image (op ∷ ops) start s hl (n, ho, hn, rest) h =
      let fits : start + n ≤ length image = Tiles-le (start + n) ops (length image) rest in
      let (hs, he) = range_at op start n ho hn (omega arith) in
      let chunk = take (end_of op - start_of op) (drop (start_of op) image) in
      let cut : chunk ≡ take n (drop start image) = cut_at_range image _ _ start n hs he in
      let u = (send_upload D c op chunk s).1 in
      let begins : upload_each D c (op ∷ ops) image s
          ≡ (send_upload D c op chunk >>= λ _. upload_each D c ops image) s =
        bind_at _ _ s (chunk_ok image (start_of op) (end_of op) s (omega arith) (omega arith)) in
      let (_, went, h') =
        >>=-eq-ok (send_upload D c op chunk) _ s (ap (λ p. p.0) (sym begins) ∙ h) in
      let ends : upload_each D c (op ∷ ops) image s ≡ upload_each D c ops image u =
        begins ∙ >>=_of_ok (send_upload D c op chunk) _ s went in
      let (method, grown) = send_upload_sent op chunk s went in
      let ih = upload_each_from image ops (start + n) u hl rest h' in
      record {
        new = upload_request op method chunk ∷ ih.new;
        grown =
            ap (λ p. p.1.sent) ends
            ∙ ih.grown
            ∙ ap (λ l. l ++ ih.new) grown
            ∙ append_assoc s.sent (upload_request op method chunk ∷ []) ih.new;
        anonymous = (refl, ih.anonymous);
        whole =
            ap (λ l. l ++ payload ih.new) cut
            ∙ ap (λ l. take n (drop start image) ++ l) ih.whole
            ∙ next_chunk image start n;
      }

  -- Where the upload operations cover the image one after another and the upload of the chunks
  -- succeeds, the requests sent carry, one after another, exactly the bytes of the image, and none
  -- of them carries a bearer token. The image has fewer than 2^64 bytes.
  pub upload_each-Uploaded :
      (image : List ℕ) (ops : List UploadOperation) (s : Session H)
      → length image < 2 ^ 64
      → Tiles 0 ops (length image)
      → (upload_each D c ops image s).0 ≡ ok tt
      → Uploaded image 0 s (upload_each D c ops image s).1
  upload_each-Uploaded image ops s hl tiles h = upload_each_from image ops 0 s hl tiles h

  safe_after :
      {A B : Type 0} (r : Outcome A) (f : A → M H B) (s : Session H)
      → r ≢ panicked
      → ((a : A) → (f a s).0 ≢ panicked)
      → (continue r f s).0 ≢ panicked
  safe_after (ok a) f s hr hf = hf a
  safe_after (err e) f s hr hf = λ h. cc h
  safe_after panicked f s hr hf = absurd (hr refl)
  safe_after unfinished f s hr hf = λ h. cc h

  send_by-Safe :
      (op : UploadOperation) (chunk : List ℕ) (p : Parsed String) (s : Session H)
      → ((or_invalid_method D c p >>= perform_upload D c op chunk) s).0 ≢ panicked
  unfolding pure raise ◌>>=◌
  send_by-Safe op chunk (parsed method) s h = not_panicked op chunk method s h
  send_by-Safe op chunk (malformed e) s h = cc h

  -- Where every upload operation asks for bytes that the image has, in whatever order and also where
  -- they overlap, the upload of the chunks does not panic, whatever the service answers. The image
  -- has fewer than 2^64 bytes.
  pub upload_each-Safe :
      (image : List ℕ) (ops : List UploadOperation) (s : Session H)
      → length image < 2 ^ 64
      → All (IsWithin image) ops
      → (upload_each D c ops image s).0 ≢ panicked
  unfolding upload_each pure ◌>>=◌ send_upload
  upload_each-Safe image [] s hl h = λ e. cc e
  upload_each-Safe image (op ∷ ops) s hl ((start, n, ho, hn, fits), h) =
      let (hs, he) = range_at op start n ho hn (omega arith) in
      rw (chunk_ok image (start_of op) (end_of op) s (omega arith) (omega arith), continue)
        (safe_after
          (send_upload D c op (take (end_of op - start_of op) (drop (start_of op) image)) s).0 _ _
          (send_by-Safe op _ (D.method op.method) s) (λ u. upload_each-Safe image ops _ hl h))
