-- ===== src/Wire/Outcomes.antt =====
-- What an action returns where it returns, and that it ends: one rule for each way to build one.
use stack_connect_core.Prelude.{String, Bool, true, false, if◌then◌else◌}
use stack_connect_core.Error.{
  StackError, Outcome, ok, err, panicked, unfinished, Parsed, parsed, malformed,
}
use stack_connect_core.Wire.{
  Host, Session, M, pure, raise, decoded, ◌>>=◌, continue, log_line, cached, CachedToken,
  store_token, unix_now,
}

abbrev pub OkHas {ℓ} : {A : Type ℓ} → (A → Type 0) → Outcome A → Type 0
OkHas R (ok a) = R a
OkHas R _ = Unit

abbrev pub IsFinished {ℓ} : {A : Type ℓ} → Outcome A → Type 0
IsFinished unfinished = ⊥
IsFinished _ = Unit

-- Whatever the session, what the action returns satisfies `R`, if it returns.
pub record Returns {ℓ} {H : Host} {A : Type ℓ} (R : A → Type 0) (m : M H A) : Type ℓ where
  pub at : (s : Session H) → OkHas R (m s).0

-- Whatever the session, the action does not run out of fuel.
pub record Finishes {ℓ} {H : Host} {A : Type ℓ} (m : M H A) : Type ℓ where
  pub at : (s : Session H) → IsFinished (m s).0

module _ {ℓ} {H : Host} {A : Type ℓ} {R : A → Type 0} where
  pub Returns-pure : (a : A) → R a → Returns {H = H} R (pure a)
  unfolding pure
  Returns-pure a h = record { at = λ s. h }

  pub Returns-raise : (e : StackError) → Returns {H = H} R (raise e)
  unfolding raise
  Returns-raise e = record { at = λ s. tt }

  pub Returns-if :
      (b : Bool) (m n : M H A) → Returns R m → Returns R n → Returns R (if b then m else n)
  Returns-if true m n km kn = km
  Returns-if false m n km kn = kn

module _ {ℓ} {H : Host} {A : Type ℓ} where
  pub Returns-any : (m : M H A) → Returns (λ _. Unit) m
  Returns-any m = record { at = λ s. any (m s).0 }
    where
      any : (r : Outcome A) → OkHas (λ _. Unit) r
      any (ok a) = tt
      any (err e) = tt
      any panicked = tt
      any unfinished = tt

  pub Finishes-pure : (a : A) → Finishes {H = H} (pure a)
  unfolding pure
  Finishes-pure a = record { at = λ s. tt }

  pub Finishes-raise : (e : StackError) → Finishes {H = H} {A = A} (raise e)
  unfolding raise
  Finishes-raise e = record { at = λ s. tt }

  pub Finishes-decoded : (what : String) (p : Parsed A) → Finishes {H = H} (decoded what p)
  unfolding decoded
  Finishes-decoded what (parsed a) = record { at = λ s. tt }
  Finishes-decoded what (malformed e) = record { at = λ s. tt }

  pub Finishes-if :
      (b : Bool) (m n : M H A) → Finishes m → Finishes n → Finishes (if b then m else n)
  Finishes-if true m n km kn = km
  Finishes-if false m n km kn = kn

module _ {ℓ κ} {H : Host} {A : Type ℓ} {B : Type κ} where
  OkHas-continue :
      {R : A → Type 0} {Q : B → Type 0} (r : Outcome A) (f : A → M H B) (s : Session H)
      → OkHas R r
      → ((a : A) → R a → Returns Q (f a))
      → OkHas Q (continue r f s).0
  OkHas-continue (ok a) f s h k = (k a h).at s
  OkHas-continue (err e) f s h k = tt
  OkHas-continue panicked f s h k = tt
  OkHas-continue unfinished f s h k = tt

  pub Returns-bind :
      {R : A → Type 0} {Q : B → Type 0} (m : M H A) (f : A → M H B)
      → Returns R m
      → ((a : A) → R a → Returns Q (f a))
      → Returns Q (m >>= f)
  unfolding ◌>>=◌
  Returns-bind m f km kf = record { at = λ s. OkHas-continue (m s).0 f (m s).1 (km.at s) kf }

  IsFinished-continue :
      (r : Outcome A) (f : A → M H B) (s : Session H)
      → IsFinished r
      → ((a : A) → Finishes (f a))
      → IsFinished (continue r f s).0
  IsFinished-continue (ok a) f s h k = (k a).at s
  IsFinished-continue (err e) f s h k = tt
  IsFinished-continue panicked f s h k = tt
  IsFinished-continue unfinished f s h k = h

  pub Finishes-bind :
      (m : M H A) (f : A → M H B) → Finishes m → ((a : A) → Finishes (f a)) → Finishes (m >>= f)
  unfolding ◌>>=◌
  Finishes-bind m f km kf = record { at = λ s. IsFinished-continue (m s).0 f (m s).1 (km.at s) kf }

  -- What the first part returns may be used.
  pub Finishes-bind_where :
      {R : A → Type 0} (m : M H A) (f : A → M H B)
      → Finishes m
      → Returns R m
      → ((a : A) → R a → Finishes (f a))
      → Finishes (m >>= f)
  unfolding ◌>>=◌
  Finishes-bind_where {R} m f km kr kf = record {
    at = λ s. ends (m s).0 (m s).1 (km.at s) (kr.at s);
  }
    where
      ends :
          (r : Outcome A) (s : Session H) → IsFinished r → OkHas R r → IsFinished (continue r f s).0
      ends (ok a) s h k = (kf a k).at s
      ends (err e) s h k = tt
      ends panicked s h k = tt
      ends unfinished s h k = h

module _ {H : Host} where
  pub Finishes-log_line : (line : String) → Finishes {H = H} (log_line line)
  unfolding log_line
  Finishes-log_line line = record { at = λ s. tt }

  pub Finishes-cached : Finishes {H = H} cached
  unfolding cached
  Finishes-cached = record { at = λ s. tt }

  pub Finishes-store_token : (t : CachedToken) → Finishes {H = H} (store_token t)
  unfolding store_token
  Finishes-store_token t = record { at = λ s. tt }

  pub Finishes-unix_now : Finishes {H = H} unix_now
  unfolding unix_now
  Finishes-unix_now = record { at = λ s. tt }

pub ruleset finishes_rules = (
  Finishes-pure, Finishes-raise, Finishes-decoded, Finishes-if, Finishes-bind, Finishes-log_line,
  Finishes-cached, Finishes-store_token, Finishes-unix_now,
)
