-- ===== src/Auth/Genuine.antt =====
-- What the tokens of `bearer_token` say about themselves (crates/stack_core/src/auth/es256.rs).
use stack_connect_core.Prelude.{
  Bool, true, false, ℕ, ◌+◌, ◌<◌, ◌≡◌, refl, String, Option, none, some, arith, if◌then◌else◌,
}
use stack_connect_core.Error.{Parsed, parsed, malformed}
use stack_connect_core.Wire.{
  Host, Session, CachedToken, JwtHeader, TeamClaims, M, ◌>>=◌, pure, raise, cached, store_token,
  unix_now,
}
use stack_connect_core.Wire.Outcomes.{OkHas}
use stack_connect_core.Auth.{
  AppStoreAuthenticator, needs_refresh, sign_team_token, encode_with, or_signing_error,
  fresh_enough, reuse_or_mint, bearer_token, ttl_secs,
}
use stack_connect_core.Auth.Pem.{normalize_p8_pem}
use stack_connect_core.Auth.Validity.{now}

module _ (H : Host) (a : AppStoreAuthenticator) where
  -- The token is one that the account's key has signed, for the account's issuer and for App Store
  -- Connect, with a life of twenty minutes that ends at `exp`.
  pub record IsSigned (token : String) (exp : ℕ) : Type 0 where
    pub key : H.Key
    pub claims : TeamClaims
    pub key_of : H.from_ec_pem (normalize_p8_pem a.private_key_p8) ≡ parsed key
    pub token_of :
        H.encode (record { alg = "ES256"; typ = some "JWT"; kid = some a.key_id }) claims key
        ≡ parsed token
    pub issuer : claims.iss ≡ a.issuer_id
    pub audience : claims.aud ≡ "appstoreconnect-v1"
    pub ends : claims.exp ≡ exp
    pub life : claims.exp ≡ claims.iat + 1200

  -- What is cached is such a token, with the time at which it expires.
  abbrev pub IsGenuine : Option CachedToken → Type 0
  IsGenuine none = Unit
  IsGenuine (some c) = IsSigned c.token c.expires_at

  -- Such a token with more than a minute to live at the time `n`.
  abbrev pub IsLasting : ℕ → String → Type 0
  IsLasting n token = (exp : ℕ) × IsSigned token exp × (n + 60 < exp)

  abbrev Keeps : ℕ → M H String → Session H → Type 0
  Keeps n m s = IsGenuine (m s).1.cache × OkHas (IsLasting n) (m s).0

  -- The parts of a minting: the claims, the header, and what is done with the token.
  abbrev claims_at : ℕ → TeamClaims
  claims_at n = record {
    iss = a.issuer_id;
    iat = n;
    exp = n + ttl_secs;
    aud = "appstoreconnect-v1";
  }

  abbrev es256 : JwtHeader
  es256 = record { alg = "ES256"; typ = some "JWT"; kid = some a.key_id }

  abbrev storing : ℕ → String → M H String
  storing n token =
      store_token (record { token = token; expires_at = n + ttl_secs }) >>= λ _. pure token

  encoded-Keeps :
      (n : ℕ) (s : Session H) (key : H.Key) (q : Parsed String)
      → H.from_ec_pem (normalize_p8_pem a.private_key_p8) ≡ parsed key
      → H.encode es256 (claims_at n) key ≡ q
      → IsGenuine s.cache
      → Keeps n (or_signing_error q >>= storing n) s
  unfolding ◌>>=◌ store_token pure raise
  encoded-Keeps n s key (malformed m) e f h = (h, tt)
  encoded-Keeps n s key (parsed token) e f h =
      let signed : IsSigned token (n + 1200) = record {
        key = key;
        claims = claims_at n;
        key_of = e;
        token_of = f;
        issuer = refl;
        audience = refl;
        ends = refl;
        life = refl;
      } in
      (signed, (n + 1200, signed, omega arith))

  keyed-Keeps :
      (n : ℕ) (s : Session H) (p : Parsed H.Key)
      → H.from_ec_pem (normalize_p8_pem a.private_key_p8) ≡ p
      → IsGenuine s.cache
      → Keeps n (encode_with es256 (claims_at n) p >>= storing n) s
  unfolding ◌>>=◌ raise
  keyed-Keeps n s (malformed m) e h = (h, tt)
  keyed-Keeps n s (parsed key) e h =
      encoded-Keeps n s key (H.encode es256 (claims_at n) key) e refl h

  refreshed-Keeps :
      (n : ℕ) (s : Session H) (c : CachedToken) (stale : Bool)
      → s.cache ≡ some c
      → needs_refresh c.expires_at n ≡ stale
      → IsSigned c.token c.expires_at
      → Keeps n (reuse_or_mint a n (if stale then none else some c.token)) s
  unfolding sign_team_token pure needs_refresh
  refreshed-Keeps n s c true e f h = keyed-Keeps n s _ refl (rw e h)
  refreshed-Keeps n s c false e f h = (rw e h, (c.expires_at, h, ground arith))

  reuse_or_mint-Keeps :
      (n : ℕ) (s : Session H) (o : Option CachedToken)
      → s.cache ≡ o
      → IsGenuine o
      → Keeps n (reuse_or_mint a n (fresh_enough o n)) s
  unfolding sign_team_token
  reuse_or_mint-Keeps n s none e h = keyed-Keeps n s _ refl (rw e tt)
  reuse_or_mint-Keeps n s (some c) e h = refreshed-Keeps n s c _ e refl h

  -- If the cached token, where there is one, is signed by the account's key and cached with the time
  -- at which it itself says it expires, then so it is after a call, also after a failed one. A token
  -- that the call returns is such a token too: its own claims name the account's issuer, a life of
  -- twenty minutes, and an end more than 60 s behind the time at which it was asked for.
  pub bearer_token-IsGenuine :
      (s : Session H)
      → IsGenuine s.cache
      → IsGenuine (bearer_token a s).1.cache × OkHas (IsLasting (now s)) (bearer_token a s).0
  unfolding bearer_token unix_now cached ◌>>=◌
  bearer_token-IsGenuine s h =
      reuse_or_mint-Keeps (now s) (record s { world = (H.clock s.world).1 }) s.cache refl h
