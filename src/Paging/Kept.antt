-- ===== src/Paging/Kept.antt =====
-- What a loop over pages keeps, if each page keeps it
-- (crates/stack_core/src/providers/appstore/client.rs).
use stack_connect_core.Prelude.{ℕ, zero, suc, String, Option, none, some, List, ◌++◌}
use stack_connect_core.Error.{Parsed}
use stack_connect_core.Wire.{Host, M, out_of_fuel}
use stack_connect_core.Wire.Outcomes.{Returns, Returns-pure, Returns-any, Returns-bind}
use stack_connect_core.Transport.{AppStoreClient, get_page}
use stack_connect_core.Paging.{Links, follow, extend, read_page}

module _ {H : Host} where
  pub follow-Returns :
      {A : Type 0} (Kept : A → Type 0) (page : A → String → M H (A × Option String))
      → ((a : A) (url : String) → Kept a → Returns (λ r. Kept r.0) (page a url))
      → (fuel : ℕ) (a : A) (o : Option String) → Kept a
      → Returns Kept (follow page fuel a o)
  unfolding follow out_of_fuel
  follow-Returns Kept page h zero a none k = Returns-pure a k
  follow-Returns Kept page h (suc fuel) a none k = Returns-pure a k
  follow-Returns Kept page h zero a (some url) k = record { at = λ s. tt }
  follow-Returns Kept page h (suc fuel) a (some url) k =
      Returns-bind _ _ (h a url k) (λ (a', o) k'. follow-Returns Kept page h fuel a' o k')

  pub extend-Returns :
      {A : Type 0} (Kept : List A → Type 0) (New : List A → Type 0)
      (fetch : String → M H (List A × Option String))
      → ((url : String) → Returns (λ r. New r.0) (fetch url))
      → ((gathered items : List A) → Kept gathered → New items → Kept (gathered ++ items))
      → (gathered : List A) (url : String) → Kept gathered
      → Returns (λ r. Kept r.0) (extend fetch gathered url)
  extend-Returns Kept New fetch h join gathered url k =
      Returns-bind _ _ (h url) (λ (items, o) new. Returns-pure _ (join gathered items k new))

  pub read_page-Returns :
      {A P : Type 0} (New : List A → Type 0) (c : AppStoreClient) (what : String)
      (read : String → Parsed P) (items : P → List A) (links : P → Links)
      → ((p : P) → New (items p))
      → (url : String) → Returns {H = H} (λ r. New r.0) (read_page c what read items links url)
  unfolding read_page
  read_page-Returns New c what read items links h url =
      Returns-bind _ _ (Returns-any (get_page c url))
        (λ _ _. Returns-bind _ _ (Returns-any _) (λ p _. Returns-pure _ (h p)))
