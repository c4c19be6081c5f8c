-- ===== src/Facade/Scexport.antt =====
-- The export of an account as the Dart host sees it (crates/stack_core/src/frb_api.rs): the names of
-- an Apple account's secrets in a file and in the schema, and the errors of the format.
pub mod Renamed
use stack_connect_core.Prelude.{
  ℕ, ◌/◌, ◌%◌, String, ◌<>◌, Bool, Option, none, some, List, [], ◌∷◌, ltb, eqb, ◌==◌, to_string,
  if◌then◌else◌,
}
use stack_connect_core.Prelude.Table.{Table, add_each}
use stack_connect_core.Error.{StackError, auth, decode, Outcome, ok, err, panicked}
use stack_connect_core.Connect.{key_issuer_id, key_key_id, key_private_key_p8}
use stack_connect_core.Export.{
  CryptoError, invalid_format, unsupported_version, decrypt_auth_failure, invalid_json,
  missing_field, Export, done, refused, crashed, Primitives, ScexportPayload, encrypt, decrypt,
}
use stack_connect_core.Facade.Clock.{now_iso8601}

pub record AccountExport : Type 0 where
  pub name : String
  pub provider_type : String
  pub apps_bundles : Option (List String)
  pub credentials : Table String

abbrev pub provider_apple : String
provider_apple = "apple"

abbrev pub ios_key_issuer_id : String
ios_key_issuer_id = "issuerID"

abbrev pub ios_key_private_key_id : String
ios_key_private_key_id = "privateKeyID"

abbrev pub ios_key_private_key : String
ios_key_private_key = "privateKey"

-- `HashMap::insert` into a map that is walked later on: the entry of the key is replaced.
unfoldable pub without : String → Table String → Table String
without k [] = []
without k ((j, v) ∷ m) = let rest = without k m in if k == j then rest else (j, v) ∷ rest

unfoldable pub store : String → String → Table String → Table String
unfolding without
store k v m = (k, v) ∷ without k m

-- The first entry of the mapping whose `from` is the key, or the key itself.
unfoldable pub renamed : List (String × String) → String → String
renamed [] key = key
renamed ((from, to) ∷ mapping) key = if from == key then to else renamed mapping key

unfoldable pub insert_renamed :
    List (String × String) → Table String → String × String → Table String
unfolding renamed store
insert_renamed mapping out (key, value) = store (renamed mapping key) value out

unfoldable pub remap : List (String × String) → Table String → Table String
unfolding add_each insert_renamed
remap mapping source = add_each (insert_renamed mapping) [] source

abbrev pub ios_names : List (String × String)
ios_names =
    (ios_key_issuer_id, key_issuer_id)
    ∷ (ios_key_private_key_id, key_key_id)
    ∷ (ios_key_private_key, key_private_key_p8)
    ∷ []

abbrev pub schema_names : List (String × String)
schema_names =
    (key_issuer_id, ios_key_issuer_id)
    ∷ (key_key_id, ios_key_private_key_id)
    ∷ (key_private_key_p8, ios_key_private_key)
    ∷ []

unfoldable pub remap_ios_to_schema : Table String → Table String
unfolding remap
remap_ios_to_schema ios = remap ios_names ios

unfoldable pub remap_schema_to_ios : Table String → Table String
unfolding remap
remap_schema_to_ios schema = remap schema_names schema

abbrev hex_digit : ℕ → String
hex_digit n =
    if ltb n 10
    then to_string n
    else if eqb n 10
    then "a"
    else if eqb n 11
    then "b"
    else if eqb n 12
    then "c"
    else if eqb n 13
    then "d"
    else if eqb n 14
    then "e"
    else "f"

-- The `Display` of the error that `thiserror` derives; the version is a byte.
unfoldable pub crypto_display : CryptoError → String
unfolding to_string
crypto_display (invalid_format what) = "invalid .scexport file format: " <> what
crypto_display (unsupported_version v) =
    "unsupported .scexport version: 0x" <> hex_digit (v / 16) <> hex_digit (v % 16)
crypto_display decrypt_auth_failure = "decryption failed: invalid password or corrupted file"
crypto_display (invalid_json what) = "invalid export JSON: " <> what
crypto_display (missing_field what) = "missing required field: " <> what

unfoldable pub map_crypto_error : CryptoError → StackError
unfolding crypto_display
map_crypto_error decrypt_auth_failure = auth (crypto_display decrypt_auth_failure)
map_crypto_error (invalid_format what) = decode (crypto_display (invalid_format what))
map_crypto_error (unsupported_version v) = decode (crypto_display (unsupported_version v))
map_crypto_error (invalid_json what) = decode (crypto_display (invalid_json what))
map_crypto_error (missing_field what) = decode (crypto_display (missing_field what))

-- `.map_err(map_crypto_error)?` and what follows it
unfoldable pub or_crypto_error : {A B : Type 0} → (A → B) → Export A → Outcome B
unfolding map_crypto_error
or_crypto_error f (done a) = ok (f a)
or_crypto_error f (refused e) = err (map_crypto_error e)
or_crypto_error f crashed = panicked

unfoldable pub imported : ScexportPayload → AccountExport
unfolding remap_ios_to_schema
imported payload = record {
  name = payload.name;
  provider_type = payload.provider_type;
  apps_bundles = payload.apps_bundles;
  credentials =
      if payload.provider_type == provider_apple
      then remap_ios_to_schema payload.credentials
      else payload.credentials;
}

-- `id` is the new UUID, `secs` the time in seconds.
unfoldable pub exported : String → ℕ → AccountExport → ScexportPayload
unfolding remap_schema_to_ios now_iso8601
exported id secs account = record {
  id = some id;
  name = account.name;
  provider_type = account.provider_type;
  created_at = some (now_iso8601 secs);
  role = none;
  expiration_date = none;
  rules = none;
  apps_bundles = account.apps_bundles;
  credentials =
      if account.provider_type == provider_apple
      then remap_schema_to_ios account.credentials
      else account.credentials;
}

module _ (L : Primitives) where
  unfoldable pub decrypt_scexport : List ℕ → List ℕ → Outcome AccountExport
  unfolding decrypt or_crypto_error imported
  decrypt_scexport bytes password = or_crypto_error imported (decrypt L bytes password)

  -- `salt` and `nonce` are what `OsRng` gives.
  unfoldable pub encrypt_scexport :
      String → ℕ → AccountExport → List ℕ → List ℕ → List ℕ → Outcome (List ℕ)
  unfolding encrypt or_crypto_error exported
  encrypt_scexport id secs account password salt nonce =
      or_crypto_error (λ bytes. bytes) (encrypt L (exported id secs account) password salt nonce)
