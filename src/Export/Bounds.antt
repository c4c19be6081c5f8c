-- ===== src/Export/Bounds.antt =====
-- The slices and indices of `decrypt` (crates/stack_core/src/crypto.rs).
use stack_connect_core.Prelude.{
  ℕ, zero, suc, ◌+◌, ◌≤◌, ◌<◌, ◌≡◌, ◌≢◌, refl, Bool, true, false, Option, none, some, List, [], ◌∷◌,
  length, arith, ltb, ltb→le, eqb, if◌then◌else◌,
}
use stack_connect_core.Error.{Parsed, parsed, malformed}
use stack_connect_core.Auth.Pem.{is_utf8}
use stack_connect_core.Export.{
  Export, done, refused, crashed, Primitives, ScexportPayload, slice, index, validate,
  read_iterations, key_for, read_payload, read_body, read_versioned, decrypt, ◌>>=◌,
  or_auth_failure, or_invalid_json, same, magic, salt_len, nonce_len, tag_len,
}

abbrev Safe : {A : Type 0} → Export A → Type 0
Safe e = e ≢ crashed

-- A chain is safe if its parts are.
Safe-bind :
    {A B : Type 0} (m : Export A) (f : A → Export B)
    → Safe m
    → ((a : A) → m ≡ done a → Safe (f a))
    → Safe (m >>= f)
Safe-bind (done a) f hm hf = hf a refl
Safe-bind (refused e) f hm hf = λ e. cc
Safe-bind crashed f hm hf = absurd (hm refl)

slice-Safe :
    (from to : ℕ) (bytes : List ℕ) → from ≤ to → to ≤ length bytes → Safe (slice from to bytes)
unfolding slice
slice-Safe from to bytes h k = ground arith

index-Safe : (i : ℕ) (bytes : List ℕ) → i < length bytes → Safe (index i bytes)
unfolding index
index-Safe i [] h = absurd (omega arith)
index-Safe zero (b ∷ bytes) h = λ e. cc
index-Safe (suc i) (b ∷ bytes) h = index-Safe i bytes (omega arith)

validate-Safe : (p : ScexportPayload) → Safe (validate p)
unfolding validate
validate-Safe p = ground arith

Safe-if :
    {A : Type 0} (b : Bool) (m n : Export A)
    → (b ≡ true → Safe m)
    → (b ≡ false → Safe n)
    → Safe (if b then m else n)
Safe-if true m n hm hn = hm refl
Safe-if false m n hm hn = hn refl

read_iterations-Safe : (version : ℕ) (bytes : List ℕ) → Safe (read_iterations version bytes)
unfolding read_iterations
read_iterations-Safe version bytes =
    Safe-if (eqb version 3) _ _
      (λ _.
        Safe-if (ltb (length bytes) 9) _ _ (λ _ e. cc)
          (λ long. Safe-bind (index 5 bytes) _ (index-Safe 5 bytes (ground arith)) (λ a _.
            Safe-bind (index 6 bytes) _ (index-Safe 6 bytes (ground arith)) (λ b _.
              Safe-bind (index 7 bytes) _ (index-Safe 7 bytes (ground arith)) (λ c _.
                Safe-bind (index 8 bytes) _ (index-Safe 8 bytes (ground arith)) (λ d _ e. cc))))))
      (λ _ e. cc)

module _ (L : Primitives) where
  key_for-Safe :
      (version iterations : ℕ) (password salt : List ℕ)
      → Safe (key_for L version iterations password salt)
  unfolding key_for
  key_for-Safe version iterations password salt = ground arith

  or_json-Safe : (p : Parsed ScexportPayload) → Safe (or_invalid_json L p)
  or_json-Safe (parsed p) = λ e. cc
  or_json-Safe (malformed m) = λ e. cc

  or_auth-Safe : (o : Option (List ℕ)) → Safe (or_auth_failure L o)
  or_auth-Safe none = λ e. cc
  or_auth-Safe (some m) = λ e. cc

  read_payload-Safe : (plaintext : List ℕ) → Safe (read_payload L plaintext)
  unfolding read_payload
  read_payload-Safe plaintext =
      Safe-if (is_utf8 plaintext) _ _
        (λ _.
          Safe-bind (or_invalid_json L (L.from_json plaintext)) _
            (or_json-Safe (L.from_json plaintext))
            (λ p _. Safe-bind (validate p) _ (validate-Safe p) (λ u _ e. cc)))
        (λ _ e. cc)

  -- The part of `read_body` that works on the slices.
  opened :
      (version iterations : ℕ) (password salt nonce sealed : List ℕ)
      → Safe (do
        key ← key_for L version iterations password salt
        plaintext ← or_auth_failure L (L.aes_open key nonce sealed)
        read_payload L plaintext)
  opened version iterations password salt nonce sealed =
      Safe-bind (key_for L version iterations password salt) _
        (key_for-Safe version iterations password salt)
        (λ key _.
          Safe-bind (or_auth_failure L (L.aes_open key nonce sealed)) _
            (or_auth-Safe (L.aes_open key nonce sealed))
            (λ plaintext _. read_payload-Safe plaintext))

  read_body-Safe :
      (version iterations offset : ℕ) (bytes password : List ℕ)
      → Safe (read_body L version iterations offset bytes password)
  unfolding read_body
  read_body-Safe version iterations offset bytes password =
      Safe-if (ltb (length bytes) (offset + salt_len + nonce_len + tag_len)) _ _ (λ _ e. cc)
        (λ long.
          let enough : offset + salt_len + nonce_len + tag_len ≤ length bytes =
            ltb→le (length bytes) (offset + salt_len + nonce_len + tag_len) long in
          Safe-bind (slice offset (offset + salt_len) bytes) _
            (slice-Safe offset _ bytes (omega arith) (omega arith))
            (λ salt _.
              Safe-bind (slice (offset + salt_len) (offset + salt_len + nonce_len) bytes) _
                (slice-Safe _ _ bytes (omega arith) (omega arith))
                (λ nonce _.
                  Safe-bind (slice (offset + salt_len + nonce_len) (length bytes) bytes) _
                    (slice-Safe _ _ bytes (omega arith) (omega arith))
                    (λ sealed _. opened version iterations password salt nonce sealed))))

  read_versioned-Safe :
      (bytes password : List ℕ) → 5 ≤ length bytes → Safe (read_versioned L bytes password)
  unfolding read_versioned
  read_versioned-Safe bytes password h =
      Safe-bind (index 4 bytes) _ (index-Safe 4 bytes (omega arith)) (λ version _.
        Safe-bind (read_iterations version bytes) _ (read_iterations-Safe version bytes)
          (λ (iterations, offset) _. read_body-Safe version iterations offset bytes password))

  -- Whatever the bytes and the password, `decrypt` ends with a payload or an error: no slice and no
  -- index is out of range.
  pub decrypt-Safe : (bytes password : List ℕ) → decrypt L bytes password ≢ crashed
  unfolding decrypt
  decrypt-Safe bytes password =
      Safe-if (ltb (length bytes) 5) _ _ (λ _ e. cc)
        (λ long.
          Safe-bind (slice 0 4 bytes) _ (slice-Safe 0 4 bytes (omega arith) (ground arith))
            (λ start _.
              Safe-if (same start magic) _ _
                (λ _. read_versioned-Safe bytes password (ltb→le (length bytes) 5 long))
                (λ _ e. cc)))
