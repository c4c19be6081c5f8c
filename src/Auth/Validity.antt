-- ===== src/Auth/Validity.antt =====
-- The cached token of `bearer_token` (crates/stack_core/src/auth/es256.rs).
use stack_connect_core.Prelude.{ℕ, ◌+◌, ◌<◌, ◌≤◌, ◌≡◌, refl, String, Option, none, some, arith}
use stack_connect_core.Error.{StackError, ok, err}
use stack_connect_core.Wire.{
  Host, Session, CachedToken, ◌>>=◌, cached, store_token, unix_now, seconds,
}
use stack_connect_core.Auth.{
  AppStoreAuthenticator, needs_refresh, sign_team_token, fresh_enough, mint, reuse_or_mint,
  bearer_token, refresh_margin,
}

-- The time that the next reading of the clock gives.
abbrev pub now : {H : Host} → Session H → ℕ
now {H} s = seconds (H.clock s.world).0

-- The cache of a session holds `token`, good for more than the refresh margin after `time`.
pub record Holds {H : Host} (t : Session H) (token : String) (time : ℕ) : Type 0 where
  pub entry : CachedToken
  pub held : t.cache ≡ some entry
  pub same : entry.token ≡ token
  pub fresh : time + refresh_margin < entry.expires_at

module _ {H : Host} (a : AppStoreAuthenticator) where
  mint_failed :
      (n : ℕ) (s : Session H) {e : StackError}
      → (mint a n s).0 ≡ err e
      → (mint a n s).1.cache ≡ s.cache
  unfolding ◌>>=◌ sign_team_token store_token
  mint_failed n s h = ground arith

  reuse_or_mint_failed :
      (f : Option String) (n : ℕ) (s : Session H) {e : StackError}
      → (reuse_or_mint a n f s).0 ≡ err e
      → (reuse_or_mint a n f s).1.cache ≡ s.cache
  unfolding ◌>>=◌
  reuse_or_mint_failed none n s h = mint_failed n s h
  reuse_or_mint_failed (some t) n s h = refl

  -- While the cached token has more than the margin to live it is returned, and of the session
  -- only the clock moves: nothing is signed, sent, logged or stored.
  pub bearer_token_reused :
      (s : Session H) (token : String) (time : ℕ)
      → Holds s token time
      → now s ≤ time
      → bearer_token a s ≡ (ok token, record s { world = (H.clock s.world).1 })
  unfolding bearer_token unix_now cached needs_refresh ◌>>=◌
  bearer_token_reused s token time held le = ground arith

  -- A failed call leaves the cache as it was.
  pub bearer_token_failed :
      (s : Session H) (e : StackError)
      → (bearer_token a s).0 ≡ err e
      → (bearer_token a s).1.cache ≡ s.cache
  unfolding bearer_token unix_now cached ◌>>=◌
  bearer_token_failed s e h = reuse_or_mint_failed (fresh_enough s.cache (now s)) (now s) _ h
