-- ===== src/Connect/Missing.antt =====
-- Which error a connection without all its secrets ends with
-- (crates/stack_core/src/service/registry.rs).
use stack_connect_core.Prelude.{
  String, ◌<>◌, ◌≡◌, refl, Bool, Option, none, some, List, [], ◌∷◌, map,
}
use stack_connect_core.Error.{invalid_credentials, Outcome, ok, err}
use stack_connect_core.Transport.{AppStoreClient}
use stack_connect_core.Connect.{
  ServiceKind, app_store_connect, CredentialField, credential_schema, key_issuer_id, key_key_id,
  key_private_key_p8, or_missing, require, then_with, build, provider, into_bytes,
}

-- The first of the keys under which there is no secret.
abbrev pub first_missing : (String → Option String) → List String → Option String
first_missing found [] = none
first_missing found (key ∷ keys) = elim (found key) [
  | none ↦ some key
  | some _ ↦ first_missing found keys
]

module _ (secret : String → String → Option String) where
  -- The connection, on the three secrets that were found.
  abbrev connected : Bool → Option String → Option String → Option String → Outcome AppStoreClient
  connected logger i k p = then_with secret (or_missing secret key_issuer_id i) λ issuer_id.
      then_with secret (or_missing secret key_key_id k) λ key_id.
        then_with secret (or_missing secret key_private_key_p8 p)
          λ private_key_p8. ok (provider issuer_id key_id (into_bytes private_key_p8) logger)

  abbrev absent : Option String → Option String → Option String → Option String
  absent i k p = elim i [
    | none ↦ some key_issuer_id
    | some _ ↦ elim k [
      | none ↦ some key_key_id
      | some _ ↦ elim p [ none ↦ some key_private_key_p8 | some _ ↦ none ]
    ]
  ]

  connected_or_absent :
      (logger : Bool) (i k p : Option String)
      → ((key : String)
          → absent i k p ≡ some key
          → connected logger i k p ≡ err (invalid_credentials ("missing credential: " <> key)))
        × (absent i k p ≡ none → (client : AppStoreClient) × (connected logger i k p ≡ ok client))
  connected_or_absent logger none k p = (λ key e. cc e, λ e. absurd (cc e))
  connected_or_absent logger (some i) none p = (λ key e. cc e, λ e. absurd (cc e))
  connected_or_absent logger (some i) (some k) none = (λ key e. cc e, λ e. absurd (cc e))
  connected_or_absent logger (some i) (some k) (some p) = (λ key e. absurd (cc e), λ e. (_, refl))

  -- Connecting a service reads the secrets in the order of its credential form: it fails with the
  -- first key of the form that has no secret, and it succeeds where none is missing.
  pub build-first_missing :
      (kind : ServiceKind) (account_id : String) (logger : Bool)
      → let missing =
          first_missing
            (secret account_id)
            (map (λ (f : CredentialField). f.key) (credential_schema kind)) in
        ((key : String)
          → missing ≡ some key
          → build secret kind account_id logger
            ≡ err (invalid_credentials ("missing credential: " <> key)))
        × (missing ≡ none
            → (client : AppStoreClient) × (build secret kind account_id logger ≡ ok client))
  unfolding build require credential_schema
  build-first_missing app_store_connect account_id logger =
      connected_or_absent logger (secret account_id key_issuer_id) (secret account_id key_key_id)
        (secret account_id key_private_key_p8)
