-- ===== src/Auth.antt =====
-- The App Store Connect team token: signing and caching
-- (crates/stack_core/src/auth/es256.rs). Times are seconds since the Unix epoch; `i64` is read as
-- a number, since a `u64` of seconds and the twenty minutes added to it stay far below 2^63.
pub mod Pem
pub mod Validity
pub mod Genuine
use stack_connect_core.Prelude.{
  ℕ, ◌+◌, String, ◌<>◌, Bool, Option, none, some, List, leb, if◌then◌else◌,
}
use stack_connect_core.Error.{auth, Parsed, parsed, malformed}
use stack_connect_core.Wire.{
  Host, M, CachedToken, JwtHeader, TeamClaims, pure, raise, ◌>>=◌, ◌>>◌, cached, store_token,
  unix_now,
}
use Pem.{normalize_p8_pem}

abbrev pub audience : String
audience = "appstoreconnect-v1"

abbrev pub ttl_secs : ℕ
ttl_secs = 1200

abbrev pub refresh_margin : ℕ
refresh_margin = 60

-- The immutable fields of `AppStoreAuthenticator`. Its cache is a field of the session.
pub record AppStoreAuthenticator : Type 0 where
  pub issuer_id : String
  pub key_id : String
  pub private_key_p8 : List ℕ

unfoldable pub needs_refresh : ℕ → ℕ → Bool
needs_refresh expires_at now = leb expires_at (now + refresh_margin)

-- The cached token, if it need not be refreshed.
abbrev pub fresh_enough : Option CachedToken → ℕ → Option String
fresh_enough none now = none
fresh_enough (some c) now = if needs_refresh c.expires_at now then none else some c.token

module _ {H : Host} where
  abbrev pub or_signing_error : Parsed String → M H String
  or_signing_error (parsed token) = pure token
  or_signing_error (malformed e) = raise (auth ("JWT signing failed: " <> e))

  -- The rest of `sign_team_token`, with the parsed key.
  abbrev pub encode_with : JwtHeader → TeamClaims → Parsed H.Key → M H String
  encode_with header claims (malformed e) = raise (auth ("invalid .p8 private key: " <> e))
  encode_with header claims (parsed key) = or_signing_error (H.encode header claims key)

  unfoldable pub sign_team_token : String → String → List ℕ → ℕ → M H String
  unfolding normalize_p8_pem
  sign_team_token issuer_id key_id private_key_p8 now =
      let claims : TeamClaims = record {
        iss = issuer_id;
        iat = now;
        exp = now + ttl_secs;
        aud = audience;
      } in
      let header : JwtHeader = record { alg = "ES256"; typ = some "JWT"; kid = some key_id } in
      encode_with header claims (H.from_ec_pem (normalize_p8_pem private_key_p8))

  abbrev pub mint : AppStoreAuthenticator → ℕ → M H String
  mint a now = do
    token ← sign_team_token a.issuer_id a.key_id a.private_key_p8 now
    store_token (record { token = token; expires_at = now + ttl_secs })
    pure token

  abbrev pub reuse_or_mint : AppStoreAuthenticator → ℕ → Option String → M H String
  reuse_or_mint a now (some token) = pure token
  reuse_or_mint a now none = mint a now

  -- One call after another: the clock is read before the mutex of the cache is taken.
  unfoldable pub bearer_token : AppStoreAuthenticator → M H String
  bearer_token a = do now ← unix_now; cache ← cached; reuse_or_mint a now (fresh_enough cache now)
