-- ===== src/Wire/Emits.antt =====
-- Which requests an action sends: one rule for each way to build an action.
use mathlib.Core.List.{append-nil, append_assoc}
use stack_connect_core.Prelude.{
  String, ◌≡◌, refl, ◌∙◌, ap, Bool, true, false, ◌∷◌, List, [], ◌++◌, All, All-append,
  if◌then◌else◌,
}
use stack_connect_core.Error.{
  StackError, Outcome, ok, err, panicked, unfinished, Parsed, parsed, malformed,
}
use stack_connect_core.Wire.{
  Request, Host, Session, M, pure, raise, panic, out_of_fuel, decoded, ◌>>=◌, attempt, log_line,
  cached, CachedToken, store_token, unix_now, exchange,
}

-- The requests that were sent between two sessions all satisfy `P`.
pub record Sends {H : Host} (P : Request → Type 0) (s t : Session H) : Type 0 where
  pub new : List Request
  pub grown : t.sent ≡ s.sent ++ new
  pub each : All P new

-- Whatever the session, the action sends only requests that satisfy `P`, also where it fails.
pub record Emits {ℓ} {H : Host} {A : Type ℓ} (P : Request → Type 0) (m : M H A) : Type ℓ where
  pub at : (s : Session H) → Sends P s (m s).1

module _ {H : Host} {P : Request → Type 0} where
  pub Sends-nothing : {s t : Session H} → t.sent ≡ s.sent → Sends P s t
  Sends-nothing {s} {t} e = record { new = []; grown = e ∙ (rw append-nil); each = tt }

  pub Sends-trans : {s t u : Session H} → Sends P s t → Sends P t u → Sends P s u
  Sends-trans {s} {t} {u} p q = record {
    new = p.new ++ q.new;
    grown = rw (q.grown, p.grown) (append_assoc s.sent p.new q.new);
    each = All-append P p.new q.new p.each q.each;
  }

module _ {ℓ} {H : Host} {A : Type ℓ} {P : Request → Type 0} where
  pub Emits-pure : (a : A) → Emits {H = H} P (pure a)
  unfolding pure
  Emits-pure a = record { at = λ s. Sends-nothing refl }

  pub Emits-raise : (e : StackError) → Emits {H = H} {A = A} P (raise e)
  unfolding raise
  Emits-raise e = record { at = λ s. Sends-nothing refl }

  pub Emits-panic : Emits {H = H} {A = A} P panic
  unfolding panic
  Emits-panic = record { at = λ s. Sends-nothing refl }

  pub Emits-out_of_fuel : Emits {H = H} {A = A} P out_of_fuel
  unfolding out_of_fuel
  Emits-out_of_fuel = record { at = λ s. Sends-nothing refl }

  pub Emits-decoded : (what : String) (p : Parsed A) → Emits {H = H} P (decoded what p)
  unfolding decoded
  Emits-decoded what (parsed a) = record { at = λ s. Sends-nothing refl }
  Emits-decoded what (malformed e) = record { at = λ s. Sends-nothing refl }

  pub Emits-if :
      (b : Bool) (m n : M H A)
      → (b ≡ true → Emits P m)
      → (b ≡ false → Emits P n)
      → Emits P (if b then m else n)
  Emits-if true m n km kn = km refl
  Emits-if false m n km kn = kn refl

module _ {ℓ κ} {H : Host} {A : Type ℓ} {B : Type κ} {P : Request → Type 0} where
  Sends-continue :
      (r : Outcome A) (f : A → M H B) (s : Session H)
      → ((a : A) → Emits P (f a))
      → Sends P s ((let m : M H A = λ t. (r, t) in m >>= f) s).1
  unfolding ◌>>=◌
  Sends-continue (ok a) f s kf = (kf a).at s
  Sends-continue (err e) f s kf = Sends-nothing refl
  Sends-continue panicked f s kf = Sends-nothing refl
  Sends-continue unfinished f s kf = Sends-nothing refl

  pub Emits-bind :
      (m : M H A) (f : A → M H B) → Emits P m → ((a : A) → Emits P (f a)) → Emits P (m >>= f)
  unfolding ◌>>=◌
  Emits-bind m f km kf = record {
    at = λ s. let (r, t) = m s in Sends-trans (km.at s) (Sends-continue r f t kf);
  }

-- An action that sends nothing, whatever the session, and one behind which nothing is sent.
none_sent : {H : Host} {s t : Session H} → Sends (λ _. ⊥) s t → t.sent ≡ s.sent
none_sent {s = s} x = x.grown ∙ ap (λ l. s.sent ++ l) (empty x.new x.each) ∙ append-nil s.sent
  where
    empty : (l : List Request) → All (λ _. ⊥) l → l ≡ []
    empty [] h = refl
    empty (r ∷ l) h = absurd h.0

pub Emits-nothing {ℓ} :
    {H : Host} {A : Type ℓ} {m : M H A} → Emits (λ _. ⊥) m → (s : Session H) → (m s).1.sent ≡ s.sent
Emits-nothing h s = none_sent (h.at s)

pub sent_in_front {ℓ κ} :
    {H : Host} {A : Type ℓ} {B : Type κ} (m : M H A) (f : A → M H B) (s : Session H)
    → ((a : A) → Emits (λ _. ⊥) (f a))
    → ((m >>= f) s).1.sent ≡ (m s).1.sent
unfolding ◌>>=◌
sent_in_front m f s h = none_sent (Sends-continue (m s).0 f (m s).1 h)

module _ {H : Host} {P : Request → Type 0} where
  pub Emits-attempt : {A : Type 0} (m : M H A) → Emits P m → Emits P (attempt m)
  unfolding attempt
  Emits-attempt {A} m km = record { at = λ s. let (r, t) = m s in Sends-trans (km.at s) (same r t) }
    where
      same : (r : Outcome A) (t : Session H) → Sends P t (attempt (λ _. (r, t)) t).1
      same (ok a) t = Sends-nothing refl
      same (err e) t = Sends-nothing refl
      same panicked t = Sends-nothing refl
      same unfinished t = Sends-nothing refl

  pub Emits-log_line : (line : String) → Emits {H = H} P (log_line line)
  unfolding log_line
  Emits-log_line line = record { at = λ s. Sends-nothing refl }

  pub Emits-cached : Emits {H = H} P cached
  unfolding cached
  Emits-cached = record { at = λ s. Sends-nothing refl }

  pub Emits-store_token : (t : CachedToken) → Emits {H = H} P (store_token t)
  unfolding store_token
  Emits-store_token t = record { at = λ s. Sends-nothing refl }

  pub Emits-unix_now : Emits {H = H} P unix_now
  unfolding unix_now
  Emits-unix_now = record { at = λ s. Sends-nothing refl }

  pub Emits-exchange : (req : Request) → P req → Emits {H = H} P (exchange req)
  unfolding exchange
  Emits-exchange req h = record {
    at = λ s. record { new = req ∷ []; grown = refl; each = (h, tt) };
  }

pub ruleset emits_rules = (
  Emits-pure, Emits-raise, Emits-panic, Emits-out_of_fuel, Emits-decoded, Emits-bind, Emits-attempt,
  Emits-log_line, Emits-cached, Emits-store_token, Emits-unix_now, Emits-exchange,
)
