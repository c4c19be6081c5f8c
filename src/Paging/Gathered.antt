-- ===== src/Paging/Gathered.antt =====
-- What the loops that gather a list do with one that they begin with
-- (crates/stack_core/src/providers/appstore/client.rs).
use mathlib.Core.List.{append-nil, append_assoc}
use stack_connect_core.Prelude.{
  ℕ, zero, suc, ◌≡◌, refl, ap, sym, ◌∙◌, String, Option, none, some, List, [], ◌++◌,
}
use stack_connect_core.Wire.{Host, Session, M, pure, ◌>>=◌}
use stack_connect_core.Wire.Inversion.{bind_assoc, bind_ext, bind_left, pure-bind}
use stack_connect_core.Paging.{follow, extend}

module _ {H : Host} {A : Type 0} (fetch : String → M H (List A × Option String)) where
  pub extend-bind :
      {B : Type 0} (gathered : List A) (url : String) (k : List A × Option String → M H B)
      (s : Session H)
      → (extend fetch gathered url >>= k) s
        ≡ (fetch url >>= λ (items, next). k (gathered ++ items, next)) s
  extend-bind gathered url k s =
      bind_assoc (fetch url) (λ (items, next). pure (gathered ++ items, next)) k s
      ∙ bind_ext (fetch url) _ _ s (λ (items, next) t. pure-bind (gathered ++ items, next) k t)

  next_page_from :
      (fuel : ℕ) (gathered items : List A) (o : Option String) (s : Session H)
      → ((g : List A)
          → follow (extend fetch) fuel g o s
            ≡ (follow (extend fetch) fuel [] o >>= λ xs. pure (g ++ xs)) s)
      → follow (extend fetch) fuel (gathered ++ items) o s
        ≡ (follow (extend fetch) fuel items o >>= λ xs. pure (gathered ++ xs)) s
  next_page_from fuel gathered items o s ih =
      let all = follow (extend fetch) fuel [] o in
      ih (gathered ++ items)
      ∙ bind_ext all _ _ s (λ xs t. ap (λ ys. pure ys t) (append_assoc gathered items xs))
      ∙ sym (
          bind_left (follow (extend fetch) fuel items o) _ (λ xs. pure (gathered ++ xs)) s
            (ih items)
          ∙ bind_assoc all (λ xs. pure (items ++ xs)) (λ xs. pure (gathered ++ xs)) s
          ∙ bind_ext all _ _ s (λ xs t. pure-bind (items ++ xs) (λ ys. pure (gathered ++ ys)) t))

  -- A loop that starts with something gathered appends to it what it gathers from nothing.
  pub follow-from :
      (fuel : ℕ) (gathered : List A) (o : Option String) (s : Session H)
      → follow (extend fetch) fuel gathered o s
        ≡ (follow (extend fetch) fuel [] o >>= λ items. pure (gathered ++ items)) s
  unfolding follow pure ◌>>=◌
  follow-from zero gathered none s = rw append-nil refl
  follow-from (suc fuel) gathered none s = rw append-nil refl
  follow-from zero gathered (some url) s = refl
  follow-from (suc fuel) gathered (some url) s =
      let behind = λ (items : List A). pure {H = H} (gathered ++ items) in
      let rest = λ (r : List A × Option String). follow (extend fetch) fuel r.0 r.1 in
      extend-bind gathered url rest s
      ∙ bind_ext (fetch url) _ _ s (λ (items, next) t.
        next_page_from fuel gathered items next t (λ g. follow-from fuel g next t))
      ∙ sym (
          bind_left (extend fetch [] url >>= rest) (fetch url >>= rest) behind s
            (extend-bind [] url rest s)
          ∙ bind_assoc (fetch url) (λ (items, next). follow (extend fetch) fuel items next) behind
              s)
