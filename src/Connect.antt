-- ===== src/Connect.antt =====
-- Connecting an account: the services and their credential forms
-- (crates/stack_core/src/service/kind.rs, crates/stack_core/src/service/registry.rs,
-- crates/stack_core/src/providers/appstore/mod.rs) and the provider built from the secrets that
-- the host's credential store holds (crates/stack_core/src/providers/appstore/provider.rs).
pub mod Missing
use mathlib.Core.List.{flat_map}
use stack_connect_core.Prelude.{
  ℕ, String, ◌<>◌, Bool, true, false, Option, none, some, List, [], ◌∷◌, codes,
}
use stack_connect_core.Error.{
  StackError, invalid_credentials, Outcome, ok, err, panicked, unfinished,
}
use stack_connect_core.Auth.Pem.{encode_utf8}
use stack_connect_core.Transport.{AppStoreClient, new, with_debug_logger}

pub data ServiceKind : Type 0 where
  app_store_connect : ServiceKind

pub record CredentialField : Type 0 where
  pub key : String
  pub label : String
  pub secret : Bool
  pub multiline : Bool

abbrev pub key_issuer_id : String
key_issuer_id = "issuerId"

abbrev pub key_key_id : String
key_key_id = "keyId"

abbrev pub key_private_key_p8 : String
key_private_key_p8 = "privateKeyP8"

abbrev field : String → String → Bool → Bool → CredentialField
field key label secret multiline = record {
  key = key;
  label = label;
  secret = secret;
  multiline = multiline;
}

unfoldable pub available_services : List ServiceKind
available_services = app_store_connect ∷ []

unfoldable pub credential_schema : ServiceKind → List CredentialField
credential_schema app_store_connect =
    field key_issuer_id "Issuer ID" true false
    ∷ field key_key_id "Key ID" true false
    ∷ field key_private_key_p8 "Private Key (.p8)" true true
    ∷ []

-- `String::into_bytes`
unfoldable pub into_bytes : String → List ℕ
unfolding encode_utf8
into_bytes s = flat_map encode_utf8 (codes s)

-- The provider is its client.
unfoldable pub provider : String → String → List ℕ → Bool → AppStoreClient
unfolding new with_debug_logger
provider issuer_id key_id private_key_p8 logger =
    with_debug_logger
      (new (record { issuer_id = issuer_id; key_id = key_id; private_key_p8 = private_key_p8 }))
      logger

-- The secrets of the host's store: of an account, under a key.
module _ (secret : String → String → Option String) where
  abbrev pub or_missing : String → Option String → Outcome String
  or_missing key none = err (invalid_credentials ("missing credential: " <> key))
  or_missing key (some value) = ok value

  unfoldable pub require : String → String → Outcome String
  require account_id key = or_missing key (secret account_id key)

  -- `?`
  abbrev pub then_with : {A B : Type 0} → Outcome A → (A → Outcome B) → Outcome B
  then_with (ok a) f = f a
  then_with (err e) f = err e
  then_with panicked f = panicked
  then_with unfinished f = unfinished

  unfoldable pub build : ServiceKind → String → Bool → Outcome AppStoreClient
  unfolding require into_bytes provider
  build app_store_connect account_id logger =
      then_with (require account_id key_issuer_id) λ issuer_id.
        then_with (require account_id key_key_id) λ key_id.
          then_with (require account_id key_private_key_p8)
            λ private_key_p8. ok (provider issuer_id key_id (into_bytes private_key_p8) logger)
