-- ===== src/Wire/Inversion.antt =====
-- What a successful chain of actions tells of its parts.
use mathlib.Core.Path.{fun_ext}
use stack_connect_core.Prelude.{◌≡◌, refl, ap}
use stack_connect_core.Error.{StackError, Outcome, ok, err, panicked, unfinished}
use stack_connect_core.Wire.{
  Host, Session, M, success, failure, caught, continue, attempt, pure, ◌>>=◌,
}

module _ {ℓ κ} {H : Host} {A : Type ℓ} {B : Type κ} where
  continue-eq-ok :
      (r : Outcome A) (f : A → M H B) (s : Session H) {b : B}
      → (continue r f s).0 ≡ ok b
      → (a : A) × (r ≡ ok a) × ((f a s).0 ≡ ok b)
  continue-eq-ok (ok a) f s h = (a, refl, h)
  continue-eq-ok (err e) f s h = absurd (cc h)
  continue-eq-ok panicked f s h = absurd (cc h)
  continue-eq-ok unfinished f s h = absurd (cc h)

  -- A chain returns only where its first part does, and the rest from there.
  pub >>=-eq-ok :
      (m : M H A) (f : A → M H B) (s : Session H) {b : B}
      → ((m >>= f) s).0 ≡ ok b
      → (a : A) × ((m s).0 ≡ ok a) × ((f a (m s).1).0 ≡ ok b)
  unfolding ◌>>=◌
  >>=-eq-ok m f s h = continue-eq-ok (m s).0 f (m s).1 h

  continue_of_ok :
      {r : Outcome A} (f : A → M H B) (s : Session H) {a : A} → r ≡ ok a → continue r f s ≡ f a s
  continue_of_ok f s e = rw e

  -- The chain runs its rest from where the first part has returned.
  pub >>=_of_ok :
      (m : M H A) (f : A → M H B) (s : Session H) {a : A}
      → (m s).0 ≡ ok a
      → (m >>= f) s ≡ f a (m s).1
  unfolding ◌>>=◌
  >>=_of_ok m f s e = continue_of_ok f (m s).1 e

  pub bind_at :
      (m : M H A) (f : A → M H B) (s : Session H) {a : A} {t : Session H}
      → m s ≡ (ok a, t)
      → (m >>= f) s ≡ f a t
  unfolding ◌>>=◌
  bind_at m f s e = rw (e, continue)

module _ {H : Host} {A : Type 0} (m : M H A) (s : Session H) where
  pub attempt_of_ok : {a : A} → (m s).0 ≡ ok a → attempt m s ≡ (ok (success a), (m s).1)
  unfolding attempt
  attempt_of_ok e = rw (e, caught)

  pub attempt_of_err : {e : StackError} → (m s).0 ≡ err e → attempt m s ≡ (ok (failure e), (m s).1)
  unfolding attempt
  attempt_of_err h = rw (h, caught)

module _ {ℓ κ μ} {H : Host} {A : Type ℓ} {B : Type κ} {C : Type μ} where
  continue_assoc :
      (r : Outcome A) (f : A → M H B) (g : B → M H C) (s : Session H)
      → continue (continue r f s).0 g (continue r f s).1 ≡ continue r (λ a. f a >>= g) s
  unfolding ◌>>=◌
  continue_assoc (ok a) f g s = refl
  continue_assoc (err e) f g s = refl
  continue_assoc panicked f g s = refl
  continue_assoc unfinished f g s = refl

  pub bind_assoc :
      (m : M H A) (f : A → M H B) (g : B → M H C) (s : Session H)
      → ((m >>= f) >>= g) s ≡ (m >>= λ a. f a >>= g) s
  unfolding ◌>>=◌
  bind_assoc m f g s = continue_assoc (m s).0 f g (m s).1

module _ {ℓ κ} {H : Host} {A : Type ℓ} {B : Type κ} where
  -- Chains with the same first part are equal where their rests are.
  pub bind_ext :
      (m : M H A) (f g : A → M H B) (s : Session H)
      → ((a : A) (t : Session H) → f a t ≡ g a t)
      → (m >>= f) s ≡ (m >>= g) s
  unfolding ◌>>=◌
  bind_ext m f g s h = ap (λ k. continue (m s).0 k (m s).1) (fun_ext (λ a. fun_ext (h a)))

  -- Chains with the same rest are equal where their first parts are.
  pub bind_left :
      (m n : M H A) (f : A → M H B) (s : Session H) → m s ≡ n s → (m >>= f) s ≡ (n >>= f) s
  unfolding ◌>>=◌
  bind_left m n f s e = ap (λ p. continue p.0 f p.1) e

  pub pure-bind : (a : A) (f : A → M H B) (s : Session H) → (pure a >>= f) s ≡ f a s
  unfolding ◌>>=◌
  pure-bind a f s = refl

module _ {ℓ} {H : Host} {A : Type ℓ} where
  continue-pure : (r : Outcome A) (s : Session H) → continue r pure s ≡ (r, s)
  unfolding pure
  continue-pure (ok a) s = refl
  continue-pure (err e) s = refl
  continue-pure panicked s = refl
  continue-pure unfinished s = refl

  pub bind-pure : (m : M H A) (s : Session H) → (m >>= pure) s ≡ m s
  unfolding ◌>>=◌
  bind-pure m s = continue-pure (m s).0 (m s).1
