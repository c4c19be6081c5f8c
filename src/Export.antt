-- ===== src/Export.antt =====
-- The `.scexport` account export (crates/stack_core/src/crypto.rs): its header, the choice of the
-- key derivation by version, and the validation of the payload. Bytes are numbers; a slice or an
-- index out of range is a crash. The ciphers, `serde_json` and the random bytes are parameters.
pub mod Bounds
pub mod RoundTrip
use stack_connect_core.Prelude.{
  ℕ, zero, suc, ◌+◌, ◌-◌, ◌*◌, ◌/◌, ◌%◌, ◌^◌, String, ◌<>◌, Bool, true, false, ◌&&◌, Option, none,
  some, List, [], ◌∷◌, ◌++◌, length, take, drop, is_empty, ltb, leb, eqb, ◌==◌, codes,
  if◌then◌else◌,
}
use stack_connect_core.Error.{Parsed, parsed, malformed}
use stack_connect_core.Auth.Pem.{is_utf8}

abbrev pub app_salt : List ℕ
app_salt =
    0x4A ∷ 0xC7 ∷ 0x1E ∷ 0x93 ∷ 0xD2 ∷ 0x58 ∷ 0xBF ∷ 0x06 ∷ 0x7D ∷ 0xA4 ∷ 0x3B ∷ 0xE1 ∷ 0x90 ∷ 0xF5
    ∷ 0x2C ∷ 0x68 ∷ 0x15 ∷ 0x87 ∷ 0xDA ∷ 0x4F ∷ 0xC3 ∷ 0x72 ∷ 0xAE ∷ 0x09 ∷ 0x5B ∷ 0xE6 ∷ 0x31
    ∷ 0x8C ∷ 0xF0 ∷ 0x64 ∷ 0xA9 ∷ 0x2D ∷ []

abbrev pub magic : List ℕ
magic = codes "SCEX"

abbrev pub pbkdf2_iterations : ℕ
pbkdf2_iterations = 600000

abbrev pub salt_len : ℕ
salt_len = 16

abbrev pub nonce_len : ℕ
nonce_len = 12

abbrev pub tag_len : ℕ
tag_len = 16

pub data CryptoError : Type 0 where
  invalid_format : String → CryptoError
  unsupported_version : ℕ → CryptoError
  decrypt_auth_failure : CryptoError
  invalid_json : String → CryptoError
  missing_field : String → CryptoError

-- A result, an error, or a panic.
pub data Export (A : Type 0) : Type 0 where
  done : A → Export A
  refused : CryptoError → Export A
  crashed : Export A

infixl 10 ◌>>=◌
abbrev pub ◌>>=◌ : {A B : Type 0} → Export A → (A → Export B) → Export B
done a >>= f = f a
refused e >>= f = refused e
crashed >>= f = crashed

-- A map of the payload is the list of its entries, in the order in which they are written.
pub record ScexportPayload : Type 0 where
  pub id : Option String
  pub name : String
  pub provider_type : String
  pub created_at : Option String
  pub role : Option String
  pub expiration_date : Option String
  pub rules : Option (List (String × List String))
  pub apps_bundles : Option (List String)
  pub credentials : List (String × String)

-- The libraries that the format rests on: key derivation, AES-256-GCM (key, nonce, message), and
-- JSON, as UTF-8 bytes. `utf8_error` is the text of an `Utf8Error`.
pub record Primitives : Type 0 where
  pub sha256 : List ℕ → List ℕ
  pub hkdf_sha256 : List ℕ → List ℕ → List ℕ → List ℕ
  pub pbkdf2_hmac_sha256 : List ℕ → List ℕ → ℕ → List ℕ
  pub aes_seal : List ℕ → List ℕ → List ℕ → Parsed (List ℕ)
  pub aes_open : List ℕ → List ℕ → List ℕ → Option (List ℕ)
  pub to_json : ScexportPayload → Parsed (List ℕ)
  pub from_json : List ℕ → Parsed ScexportPayload
  pub utf8_error : List ℕ → String

-- `&bytes[from..to]`
unfoldable pub slice : ℕ → ℕ → List ℕ → Export (List ℕ)
slice from to bytes =
    if leb from to && leb to (length bytes)
    then done (take (to - from) (drop from bytes))
    else crashed

-- `bytes[i]`
unfoldable pub index : ℕ → List ℕ → Export ℕ
index i [] = crashed
index zero (b ∷ bytes) = done b
index (suc i) (b ∷ bytes) = index i bytes

abbrev pub same : List ℕ → List ℕ → Bool
same [] [] = true
same (a ∷ as') (b ∷ bs) = eqb a b && same as' bs
same _ _ = false

abbrev pub from_be_bytes : ℕ → ℕ → ℕ → ℕ → ℕ
from_be_bytes a b c d = a * 2 ^ 24 + b * 2 ^ 16 + c * 2 ^ 8 + d

abbrev pub to_be_bytes : ℕ → List ℕ
to_be_bytes n = (n / 2 ^ 24 % 256) ∷ (n / 2 ^ 16 % 256) ∷ (n / 2 ^ 8 % 256) ∷ (n % 256) ∷ []

unfoldable pub validate : ScexportPayload → Export (Unit {0})
validate p =
    if p.name == ""
    then refused (missing_field "name")
    else if p.provider_type == ""
    then refused (missing_field "providerType")
    else if is_empty p.credentials
    then refused (missing_field "credentials")
    else done tt

-- The iteration count and the offset behind it: from the header in version 3, implied otherwise.
unfoldable pub read_iterations : ℕ → List ℕ → Export (ℕ × ℕ)
unfolding index
read_iterations version bytes =
    if eqb version 3
    then (if ltb (length bytes) 9
        then refused (invalid_format "truncated v3 iterations field")
        else do
          a ← index 5 bytes
          b ← index 6 bytes
          c ← index 7 bytes
          d ← index 8 bytes
          done (from_be_bytes a b c d, 9))
    else done (pbkdf2_iterations, 5)

module _ (L : Primitives) where
  unfoldable pub derive_key_pbkdf2 : List ℕ → List ℕ → ℕ → List ℕ
  derive_key_pbkdf2 password random_salt iterations =
      L.pbkdf2_hmac_sha256 password (app_salt ++ random_salt) iterations

  unfoldable pub derive_key_v1 : List ℕ → List ℕ → List ℕ
  derive_key_v1 password random_salt =
      L.hkdf_sha256 random_salt (L.sha256 (app_salt ++ password)) (codes "StackConnect.Export.v1")

  unfoldable pub key_for : ℕ → ℕ → List ℕ → List ℕ → Export (List ℕ)
  unfolding derive_key_v1 derive_key_pbkdf2
  key_for version iterations password salt =
      if eqb version 1
      then done (derive_key_v1 password salt)
      else if eqb version 2
      then done (derive_key_pbkdf2 password salt pbkdf2_iterations)
      else if eqb version 3
      then done (derive_key_pbkdf2 password salt iterations)
      else refused (unsupported_version version)

  abbrev pub or_auth_failure : Option (List ℕ) → Export (List ℕ)
  or_auth_failure none = refused decrypt_auth_failure
  or_auth_failure (some plaintext) = done plaintext

  abbrev pub or_invalid_json : Parsed ScexportPayload → Export ScexportPayload
  or_invalid_json (parsed p) = done p
  or_invalid_json (malformed e) = refused (invalid_json e)

  -- The last part of `decrypt`: from the decrypted bytes to the payload.
  unfoldable pub read_payload : List ℕ → Export ScexportPayload
  read_payload plaintext =
      if is_utf8 plaintext
      then (do
        payload ← or_invalid_json (L.from_json plaintext)
        _ ← validate payload
        done payload)
      else refused (invalid_json ("not valid UTF-8: " <> L.utf8_error plaintext))

  -- The part of `decrypt` behind the header.
  unfoldable pub read_body : ℕ → ℕ → ℕ → List ℕ → List ℕ → Export ScexportPayload
  unfolding slice key_for read_payload
  read_body version iterations offset bytes password =
      if ltb (length bytes) (offset + salt_len + nonce_len + tag_len)
      then refused (invalid_format "truncated salt/nonce/ciphertext")
      else do
        salt ← slice offset (offset + salt_len) bytes
        nonce ← slice (offset + salt_len) (offset + salt_len + nonce_len) bytes
        ciphertext_and_tag ← slice (offset + salt_len + nonce_len) (length bytes) bytes
        key ← key_for version iterations password salt
        plaintext ← or_auth_failure (L.aes_open key nonce ciphertext_and_tag)
        read_payload plaintext

  -- The part of `decrypt` behind the magic.
  unfoldable pub read_versioned : List ℕ → List ℕ → Export ScexportPayload
  unfolding index read_iterations read_body
  read_versioned bytes password = do
    version ← index 4 bytes
    (iterations, offset) ← read_iterations version bytes
    read_body version iterations offset bytes password

  abbrev pub check_magic : List ℕ → List ℕ → List ℕ → Export ScexportPayload
  check_magic start bytes password =
      if same start magic
      then read_versioned bytes password
      else refused (invalid_format "missing SCEX magic")

  unfoldable pub decrypt : List ℕ → List ℕ → Export ScexportPayload
  unfolding slice read_versioned
  decrypt bytes password =
      if ltb (length bytes) 5
      then refused (invalid_format "buffer shorter than header")
      else do start ← slice 0 4 bytes; check_magic start bytes password

  abbrev pub or_json_error : String → Parsed (List ℕ) → Export (List ℕ)
  or_json_error what (parsed bytes) = done bytes
  or_json_error what (malformed e) = refused (invalid_json (what <> e))

  -- `salt` and `nonce` are what `OsRng` gives.
  unfoldable pub encrypt : ScexportPayload → List ℕ → List ℕ → List ℕ → Export (List ℕ)
  encrypt payload password salt nonce = do
    _ ← validate payload
    json ← or_json_error "" (L.to_json payload)
    ciphertext_and_tag ←
        or_json_error "encryption failed: "
          (L.aes_seal (derive_key_pbkdf2 password salt pbkdf2_iterations) nonce json)
    done (magic ++ (3 ∷ (to_be_bytes pbkdf2_iterations ++ (salt ++ (nonce ++ ciphertext_and_tag)))))
