-- ===== src/Export/RoundTrip.antt =====
-- `decrypt` on what `encrypt` makes (crates/stack_core/src/crypto.rs).
use mathlib.Core.List.{append-nil, append_assoc}
use stack_connect_core.Prelude.{
  ℕ, ◌+◌, ◌-◌, ◌≤◌, ◌≡◌, refl, ◌∙◌, sym, true, some, List, [], ◌∷◌, ◌++◌, length, length-append,
  take, drop, take-append, drop-append, arith, le→ltb,
}
use stack_connect_core.Error.{parsed}
use stack_connect_core.Auth.Pem.{is_utf8}
use stack_connect_core.Export.{
  done, Primitives, ScexportPayload, slice, index, validate, read_iterations, key_for, read_payload,
  read_body, read_versioned, decrypt, encrypt, ◌>>=◌, or_auth_failure, or_invalid_json, magic,
  salt_len, nonce_len, tag_len, to_be_bytes, pbkdf2_iterations, derive_key_pbkdf2,
}

cut_at :
    (pre mid post : List ℕ) → take (length mid) (drop (length pre) (pre ++ (mid ++ post))) ≡ mid
cut_at pre mid post = rw (drop-append pre (mid ++ post)) (take-append mid post)

slice_at :
    (pre mid post bytes : List ℕ) (n m : ℕ)
    → bytes ≡ pre ++ (mid ++ post)
    → length pre ≡ n
    → n + length mid ≡ m
    → slice n m bytes ≡ done mid
unfolding slice
slice_at pre mid post bytes n m e hn hm =
    let width : m - n ≡ length mid = omega arith in
    let long : length (pre ++ (mid ++ post)) ≡ n + (length mid + length post) =
      length-append pre (mid ++ post) ∙ omega (arith, length-append mid post) in
    let cut : take (m - n) (drop n bytes) ≡ mid = rw (e, width, ← hn) (cut_at pre mid post) in
    let fits : m ≤ length bytes = rw e (omega arith) in ground (arith, cut)

module _ (L : Primitives) where
  -- `read_body` behind a header `pre`: it gets the three parts as they were put together.
  read_body_at :
      (version iterations n : ℕ) (pre salt nonce sealed password : List ℕ)
      → length pre ≡ n
      → length salt ≡ salt_len
      → length nonce ≡ nonce_len
      → tag_len ≤ length sealed
      → read_body L version iterations n (pre ++ (salt ++ (nonce ++ sealed))) password ≡ (do
        key ← key_for L version iterations password salt
        plaintext ← or_auth_failure L (L.aes_open key nonce sealed)
        read_payload L plaintext)
  unfolding read_body
  read_body_at version iterations n pre salt nonce sealed password hp hs hn ht =
      let bytes = pre ++ (salt ++ (nonce ++ sealed)) in
      let long : length bytes ≡ n + (salt_len + (nonce_len + length sealed)) =
        length-append pre (salt ++ (nonce ++ sealed))
        ∙ omega (arith, length-append salt (nonce ++ sealed), length-append nonce sealed) in
      rw (le→ltb (length bytes) (n + salt_len + nonce_len + tag_len) (omega arith)) (
        rw (slice_at pre salt (nonce ++ sealed) bytes n (n + salt_len) refl hp (omega arith)) (
          rw
            (slice_at (pre ++ salt) nonce sealed bytes (n + salt_len) (n + salt_len + nonce_len)
              (sym (append_assoc pre salt (nonce ++ sealed))) (length-append pre salt ∙ omega arith)
              (omega arith))
            (rw (
              slice_at ((pre ++ salt) ++ nonce) sealed [] bytes (n + salt_len + nonce_len)
                (length bytes) (simp (append-nil, append_assoc))
                (length-append (pre ++ salt) nonce ∙ omega (arith, length-append pre salt))
                (omega arith)))))

  -- The nine bytes in front of the salt in a file of version 3.
  abbrev header : List ℕ
  header = magic ++ (3 ∷ to_be_bytes pbkdf2_iterations)

  -- A file of version 3 with the current iteration count is read as its parts.
  decrypt_at :
      (salt nonce sealed password : List ℕ)
      → length salt ≡ salt_len
      → length nonce ≡ nonce_len
      → tag_len ≤ length sealed
      → decrypt L (header ++ (salt ++ (nonce ++ sealed))) password ≡ (do
        plaintext ←
            or_auth_failure L
              (L.aes_open (derive_key_pbkdf2 L password salt pbkdf2_iterations) nonce sealed)
        read_payload L plaintext)
  unfolding decrypt index read_iterations read_versioned key_for
  decrypt_at salt nonce sealed password hs hn ht =
      let bytes = header ++ (salt ++ (nonce ++ sealed)) in
      let long : 9 ≤ length bytes = omega arith in
      rw (le→ltb (length bytes) 5 (omega arith)) (
        rw
          (slice_at [] magic (3 ∷ (to_be_bytes pbkdf2_iterations ++ (salt ++ (nonce ++ sealed))))
            bytes 0 4 refl refl refl)
          (rw (le→ltb (length bytes) 9 long)
            (read_body_at 3 pbkdf2_iterations 9 header salt nonce sealed password refl hs hn ht)))

-- What the format relies on: AES-GCM opens what it sealed under the same key and nonce, with a tag
-- behind the ciphertext; `serde_json` writes UTF-8 that reads back as the payload.
pub record IsLawful (L : Primitives) : Type 0 where
  pub open_seal :
      (key nonce msg ct : List ℕ)
      → L.aes_seal key nonce msg ≡ parsed ct
      → L.aes_open key nonce ct ≡ some msg
  pub seal_length :
      (key nonce msg ct : List ℕ)
      → L.aes_seal key nonce msg ≡ parsed ct
      → length ct ≡ length msg + tag_len
  pub json_utf8 : (p : ScexportPayload) (j : List ℕ) → L.to_json p ≡ parsed j → is_utf8 j ≡ true
  pub json_back :
      (p : ScexportPayload) (j : List ℕ) → L.to_json p ≡ parsed j → L.from_json j ≡ parsed p

module _ (L : Primitives) (lawful : IsLawful L) (p : ScexportPayload)
    (password salt nonce : List ℕ) where
  read_back :
      (j : List ℕ) → L.to_json p ≡ parsed j → validate p ≡ done tt → read_payload L j ≡ done p
  unfolding read_payload
  read_back j e v = rw (lawful.json_utf8 p j e, lawful.json_back p j e, or_invalid_json) (rw v)

  abbrev key : List ℕ
  key = derive_key_pbkdf2 L password salt pbkdf2_iterations

  -- Where the payload is complete and the libraries serialize and seal it, `encrypt` returns a file
  -- that `decrypt` reads back, under the same password, as the payload. The salt and the nonce are
  -- any bytes of their lengths.
  pub decrypt-encrypt :
      (json sealed : List ℕ)
      → length salt ≡ salt_len
      → length nonce ≡ nonce_len
      → validate p ≡ done tt
      → L.to_json p ≡ parsed json
      → L.aes_seal key nonce json ≡ parsed sealed
      → (out : List ℕ) × (encrypt L p password salt nonce ≡ done out)
        × (decrypt L out password ≡ done p)
  unfolding encrypt
  decrypt-encrypt json sealed hs hn ev ej es = (
    header L ++ (salt ++ (nonce ++ sealed)),
    rw (ev, ej, es),
    decrypt_at L salt nonce sealed password hs hn
          (rw (lawful.seal_length key nonce json sealed es) (omega arith))
        ∙ rw (lawful.open_seal key nonce json sealed es, or_auth_failure) (read_back json ej ev),
  )
