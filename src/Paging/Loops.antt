-- ===== src/Paging/Loops.antt =====
-- What may be put for the pages of the loop by which the client follows `links.next`, and what the
-- loop sends (crates/stack_core/src/providers/appstore/client.rs).
use mathlib.Core.Path.{fun_ext}
use stack_connect_core.Prelude.{ℕ, zero, suc, ◌≡◌, ap, String, Option, none, some}
use stack_connect_core.Wire.{Host, Session, M, Request}
use stack_connect_core.Wire.Emits.{Emits, Emits-pure, Emits-bind, Emits-out_of_fuel}
use stack_connect_core.Paging.{follow}

-- Loops whose bodies agree everywhere agree.
pub follow_ext :
    {H : Host} {A : Type 0} (page page' : A → String → M H (A × Option String))
    → ((a : A) (url : String) (s : Session H) → page a url s ≡ page' a url s)
    → (fuel : ℕ) (a : A) (o : Option String) (s : Session H)
    → follow page fuel a o s ≡ follow page' fuel a o s
follow_ext page page' h fuel a o s =
    ap (λ p. follow p fuel a o s) (fun_ext (λ b. fun_ext (λ url. fun_ext (h b url))))

module _ {H : Host} {A : Type 0} {P : Request → Type 0} where
  -- The loop sends what its pages send.
  pub follow-Emits :
      (page : A → String → M H (A × Option String)) (fuel : ℕ) (a : A) (o : Option String)
      → ((a : A) (url : String) → Emits P (page a url))
      → Emits P (follow page fuel a o)
  unfolding follow
  follow-Emits page zero a none h = Emits-pure a
  follow-Emits page (suc fuel) a none h = Emits-pure a
  follow-Emits page zero a (some url) h = Emits-out_of_fuel
  follow-Emits page (suc fuel) a (some url) h =
      Emits-bind (page a url) _ (h a url) (λ (a', o). follow-Emits page fuel a' o h)
