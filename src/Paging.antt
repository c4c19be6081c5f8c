-- ===== src/Paging.antt =====
-- The loop `while let Some(url) = next_url { … }` by which the client
-- (crates/stack_core/src/providers/appstore/client.rs) follows `links.next`, and the JSON:API
-- envelope that its pages share. The service decides how many pages there are, so the loop has
-- fuel, one unit for a page.
pub mod Loops
pub mod Tokens
pub mod Gathered
pub mod Kept
pub mod Walks
use stack_connect_core.Prelude.{
  ℕ, zero, suc, String, Bool, not, Option, none, some, List, [], ◌++◌, ◌==◌, keep_if,
}
use stack_connect_core.Error.{Parsed}
use stack_connect_core.Wire.{Host, M, pure, out_of_fuel, decoded, ◌>>=◌}
use stack_connect_core.Transport.{AppStoreClient, get_page}

pub record Links : Type 0 where
  pub next : Option String

pub record ResourceIdentifier : Type 0 where
  pub id : String

-- `resource` is the member `data` of a to-one relationship.
pub record ToOneRelationship : Type 0 where
  pub resource : Option ResourceIdentifier

-- `links.next.filter(|u| !u.is_empty())`
abbrev pub next_page : Links → Option String
next_page links = keep_if (λ u. not (u == "")) links.next

module _ {H : Host} {A : Type 0} (page : A → String → M H (A × Option String)) where
  -- `page` is the body of the loop: from what has been gathered and the URL to what has been
  -- gathered next and the next URL.
  unfoldable pub follow : ℕ → A → Option String → M H A
  follow fuel gathered none = pure gathered
  follow zero gathered (some url) = out_of_fuel
  follow (suc fuel) gathered (some url) = do
    (gathered', next) ← page gathered url
    follow fuel gathered' next

-- The loop body of the methods that gather a list: the page's items go behind those gathered.
abbrev pub extend :
    {H : Host} {A : Type 0}
    → (String → M H (List A × Option String))
    → List A
    → String
    → M H (List A × Option String)
extend fetch gathered url = do (items, next) ← fetch url; pure (gathered ++ items, next)

-- The listings that do no more with a page than decode it and map its items: `what` opens the
-- message of a decoding error.
module _ {H : Host} {A P : Type 0} (c : AppStoreClient) (what : String) (read : String → Parsed P)
    (items : P → List A) (links : P → Links) where
  unfoldable pub read_page : String → M H (List A × Option String)
  read_page url = do
    body ← get_page c url
    page ← decoded what (read body)
    pure (items page, next_page (links page))

  unfoldable pub fetch_all : ℕ → String → M H (List A)
  fetch_all fuel first = follow (extend read_page) fuel [] (some first)
