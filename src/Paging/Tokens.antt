-- ===== src/Paging/Tokens.antt =====
-- Loading page by page: a host passes each page's token back until there is none
-- (crates/stack_core/src/providers/appstore/client.rs).
use stack_connect_core.Prelude.{ℕ, suc, ◌≡◌, ◌∙◌, sym, String, Option, none, some, List, [], ◌++◌}
use stack_connect_core.Wire.{Host, Session, M, pure, ◌>>=◌}
use stack_connect_core.Wire.Inversion.{bind_assoc, bind_ext, bind_left, pure-bind}
use stack_connect_core.Paging.{follow, extend}
use stack_connect_core.Paging.Loops.{follow_ext}

-- `page` reads one page, `view` is what it holds, and `fetch` is the body of the loop over all
-- pages, which begins at `first`.
module _ {H : Host} {A P : Type 0} (view : P → List A × Option String)
    (page : Option String → M H P) (fetch : String → M H (List A × Option String))
    (first : String) where
  abbrev pub url_of : Option String → String
  url_of none = first
  url_of (some token) = token

  abbrev pub load_next : List A → String → M H (List A × Option String)
  load_next gathered token = do p ← page (some token); pure (gathered ++ (view p).0, (view p).1)

  abbrev pub load_all : ℕ → M H (List A)
  load_all fuel = do p ← page none; follow load_next fuel (view p).0 (view p).1

  module _
      (reads : (o : Option String) (s : Session H)
        → (page o >>= λ p. pure (view p)) s ≡ fetch (url_of o) s) where
    -- What is done with the contents of a page may be done behind `fetch`.
    via_fetch :
        {B : Type 0} (o : Option String) (k : List A × Option String → M H B) (s : Session H)
        → (page o >>= λ p. k (view p)) s ≡ (fetch (url_of o) >>= k) s
    via_fetch o k s =
        sym (
          bind_assoc (page o) (λ p. pure (view p)) k s
          ∙ bind_ext (page o) _ _ s (λ p t. pure-bind (view p) k t))
        ∙ bind_left (page o >>= λ p. pure (view p)) (fetch (url_of o)) k s (reads o s)

    load_next-extend :
        (gathered : List A) (token : String) (s : Session H)
        → load_next gathered token s ≡ extend fetch gathered token s
    load_next-extend gathered token s =
        via_fetch (some token) (λ (items, next). pure (gathered ++ items, next)) s

    pub load_all-follow :
        (fuel : ℕ) (s : Session H)
        → load_all fuel s ≡ follow (extend fetch) (suc fuel) [] (some first) s
    unfolding follow
    load_all-follow fuel s =
        let rest = λ (r : List A × Option String). follow (extend fetch) fuel r.0 r.1 in
        via_fetch none (λ (items, next). follow load_next fuel items next) s
        ∙ bind_ext (fetch first) _ rest s (λ (items, next) t.
          follow_ext load_next (extend fetch) load_next-extend fuel items next t)
        ∙ sym (
            bind_assoc (fetch first) (λ (items, next). pure ([] ++ items, next)) rest s
            ∙ bind_ext (fetch first) _ rest s (λ (items, next) t. pure-bind _ rest t))
