-- ===== src/Wire.antt =====
-- What the client is built on: HTTP requests, the host that answers them, and the session, the
-- state that a call of the core changes. An operation is an action on the session; what it changed
-- before it failed stays changed.
pub mod Emits
pub mod Inversion
pub mod Outcomes
use stack_connect_core.Prelude.{
  ℕ, String, ◌≡◌, refl, Bool, true, false, Option, none, some, List, [], ◌∷◌, ◌++◌, ◌<>◌,
}
use stack_connect_core.Error.{
  StackError, network, decode, Outcome, ok, err, panicked, unfinished, Parsed, parsed, malformed,
}
use stack_connect_core.Json.{Json}

pub data Body : Type 0 where
  no_body : Body
  json : Json → Body
  bytes : List ℕ → Body

-- A `reqwest::RequestBuilder` as the client fills it in. `bearer` is the argument of `bearer_auth`.
pub record Request : Type 0 where
  pub method : String
  pub url : String
  pub bearer : Option String
  pub headers : List (String × String)
  pub body : Body

-- What `build()` makes of a request: each header with its `to_str()`, and the body's bytes.
pub record BuiltRequest : Type 0 where
  pub method : String
  pub url : String
  pub headers : List (String × Option String)
  pub body : Option (List ℕ)

-- `send` fails, or reading the body fails, or there are a status and a body.
pub data Reply : Type 0 where
  unsent : String → Reply
  unread : String → Reply
  answer : ℕ → String → Reply

pub record JwtHeader : Type 0 where
  pub alg : String
  pub typ : Option String
  pub kid : Option String

pub record TeamClaims : Type 0 where
  pub iss : String
  pub iat : ℕ
  pub exp : ℕ
  pub aud : String

-- The code that the client calls and does not implement. `World` is the state of the network, the
-- remote service and the wall clock.
pub record Host : Type 1 where
  pub World : Type 0
  pub Key : Type 0
  -- `SystemTime::now().duration_since(UNIX_EPOCH)`, in seconds; `none` before the epoch
  pub clock : World → Option ℕ × World
  pub exchange : Request → World → Reply × World
  -- `builder.try_clone().and_then(|b| b.build().ok())`
  pub build : Request → Option BuiltRequest
  -- `from_slice` and `to_string_pretty`; `none` if either fails
  pub pretty : List ℕ → Option String
  -- `String::from_utf8_lossy`
  pub utf8_lossy : List ℕ → String
  pub utf8 : String → List ℕ
  pub status_text : ℕ → String
  pub from_ec_pem : List ℕ → Parsed Key
  pub encode : JwtHeader → TeamClaims → Key → Parsed String

pub record CachedToken : Type 0 where
  pub token : String
  pub expires_at : ℕ

-- `sent` and `log` are histories: the requests that went out and the lines that were logged.
pub record Session (H : Host) : Type 0 where
  pub world : H.World
  pub cache : Option CachedToken
  pub sent : List Request
  pub log : List String

abbrev pub M {ℓ} : Host → Type ℓ → Type ℓ
M H A = Session H → Outcome A × Session H

-- A `Result` in hand, for the code that matches on one.
pub data Attempt (A : Type 0) : Type 0 where
  success : A → Attempt A
  failure : StackError → Attempt A

module _ {ℓ} {H : Host} {A : Type ℓ} where
  unfoldable pub pure : A → M H A
  pure a s = (ok a, s)

  unfoldable pub raise : StackError → M H A
  raise e s = (err e, s)

  unfoldable pub panic : M H A
  panic s = (panicked, s)

  unfoldable pub out_of_fuel : M H A
  out_of_fuel s = (unfinished, s)

  -- `serde_json::from_str(..).map_err(|e| StackError::decode(format!("{what}: {e}")))?`
  unfoldable pub decoded : String → Parsed A → M H A
  decoded what (parsed a) s = (ok a, s)
  decoded what (malformed message) s = (err (decode (what <> message)), s)

module _ {ℓ κ} {H : Host} {A : Type ℓ} {B : Type κ} where
  abbrev pub continue : Outcome A → (A → M H B) → M H B
  continue (ok a) f s = f a s
  continue (err e) f s = (err e, s)
  continue panicked f s = (panicked, s)
  continue unfinished f s = (unfinished, s)

  infixl 10 ◌>>=◌ ◌>>◌
  -- opening this opens the actions above too
  unfoldable pub ◌>>=◌ : M H A → (A → M H B) → M H B
  unfolding pure raise panic out_of_fuel decoded
  ◌>>=◌ m f s = let (r, s') = m s in continue r f s'

  abbrev pub ◌>>◌ : M H A → M H B → M H B
  m >> n = m >>= λ _. n

abbrev pub seconds : Option ℕ → ℕ
seconds none = 0
seconds (some n) = n

abbrev pub received : Reply → Outcome (ℕ × String)
received (unsent message) = err (network message)
received (unread message) = err (network message)
received (answer status body) = ok (status, body)

module _ {H : Host} where
  abbrev pub caught : {A : Type 0} → Outcome A → Session H → Outcome (Attempt A) × Session H
  caught (ok a) s = (ok (success a), s)
  caught (err e) s = (ok (failure e), s)
  caught panicked s = (panicked, s)
  caught unfinished s = (unfinished, s)

  -- A call whose `Result` the caller matches on in place of `?`.
  unfoldable pub attempt : {A : Type 0} → M H A → M H (Attempt A)
  attempt m s = let (r, s') = m s in caught r s'

  unfoldable pub log_line : String → M H (Unit {0})
  log_line line s = (ok tt, record s { log = s.log ++ (line ∷ []) })

  unfoldable pub cached : M H (Option CachedToken)
  cached s = (ok s.cache, s)

  unfoldable pub store_token : CachedToken → M H (Unit {0})
  store_token t s = (ok tt, record s { cache = some t })

  -- `unix_now`: the clock, or 0 before the epoch
  unfoldable pub unix_now : M H ℕ
  unix_now s = let (t, w) = H.clock s.world in (ok (seconds t), record s { world = w })

  -- `send().await` and `text().await`, each with its error mapped to `Network`
  unfoldable pub exchange : Request → M H (ℕ × String)
  exchange req s =
      let (r, w) = H.exchange req s.world in
      (received r, record s { world = w; sent = s.sent ++ (req ∷ []) })
