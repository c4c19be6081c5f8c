-- ===== src/Paging/Walks.antt =====
-- The pages that a listing goes through (crates/stack_core/src/providers/appstore/client.rs).
use stack_connect_core.Prelude.{
  ℕ, zero, suc, ◌≤◌, ◌≡◌, refl, ap, sym, ◌∙◌, Bool, true, false, String, Option, none, some, List,
  [], ◌∷◌, ◌++◌, map, ◌==◌, arith, keep_if, not, if◌then◌else◌,
}
use mathlib.Core.Path.{subst}
use mathlib.Core.List.{append-nil, append_assoc}
use stack_connect_core.Error.{Outcome, ok, Parsed, parsed, malformed}
use stack_connect_core.Wire.{Host, Session, M, pure, decoded, out_of_fuel, ◌>>=◌}
use stack_connect_core.Wire.Inversion.{>>=-eq-ok, >>=_of_ok, bind_at}
use stack_connect_core.Transport.{AppStoreClient, get_page}
use stack_connect_core.Paging.{Links, follow, extend, read_page, next_page}
use stack_connect_core.Paging.Gathered.{extend-bind}

-- Where a page says that the listing goes on; an empty URL says that it ends.
abbrev pub going_on : Option String → Option String
going_on none = none
going_on (some url) = if url == "" then none else some url

going_on-next_page : (l : Links) → next_page l ≡ going_on l.next
going_on-next_page l = go l.next
  where
    kept :
        (url : String) (b : Bool)
        → (elim (not b) [ true ↦ some url | false ↦ none ]) ≡ (if b then none else some url)
    kept url true = refl
    kept url false = refl

    go : (o : Option String) → keep_if (λ u. not (u == "")) o ≡ going_on o
    go none = refl
    go (some url) = kept url (url == "")

map-append : {A B : Type 0} (f : A → B) (xs ys : List A) → map f (xs ++ ys) ≡ map f xs ++ map f ys
map-append f [] ys = refl
map-append f (x ∷ xs) ys = ap (λ l. f x ∷ l) (map-append f xs ys)

module _ {H : Host} {R P : Type 0} (c : AppStoreClient) (read : String → Parsed P)
    (resources : P → List R) (links : P → Links) where
  -- From the URL `o` and the session `s` the service answers with `n` pages, each with the next one's
  -- URL and the last without, which hold the resources `rs`, and the session is then `t`.
  pub data Walk : ℕ → Option String → List R → Session H → Session H → Type 0 where
    ended : {s t : Session H} → s ≡ t → Walk zero none [] s t
    turned :
        {n : ℕ} {url body : String} {page : P} {rs all : List R} {s s' t : Session H}
        → get_page c url s ≡ (ok body, s')
        → read body ≡ parsed page
        → all ≡ resources page ++ rs
        → Walk n (going_on (links page).next) rs s' t
        → Walk (suc n) (some url) all s t

  module _ {A : Type 0} (f : R → A) (what : String) where
    abbrev fetch : String → M H (List A × Option String)
    fetch = read_page c what read (λ page. map f (resources page)) links

    read_at :
        (url body : String) (page : P) (s s' : Session H)
        → get_page c url s ≡ (ok body, s')
        → read body ≡ parsed page
        → fetch url s ≡ (ok (map f (resources page), going_on (links page).next), s')
    unfolding read_page decoded pure
    read_at url body page s s' e r =
        bind_at (get_page c url) _ s e
        ∙ bind_at (decoded what (read body)) _ s' (rw r refl)
        ∙ ap (λ o. (ok (map f (resources page), o), s')) (going_on-next_page (links page))

    pub follow-Walk :
        {n : ℕ} {o : Option String} {rs : List R} {s t : Session H}
        → Walk n o rs s t
        → (fuel : ℕ) (gathered : List A) → n ≤ fuel
        → follow (extend fetch) fuel gathered o s ≡ (ok (gathered ++ map f rs), t)
    unfolding follow pure
    follow-Walk (ended e) zero gathered h = rw (append-nil, e) refl
    follow-Walk (ended e) (suc fuel) gathered h = rw (append-nil, e) refl
    follow-Walk (turned e r p walk) zero gathered h = absurd (omega arith)
    follow-Walk
          (turned {url = url} {body = body} {page = page} {rs = rs} {s = s} {s' = s'} {t = t} e r p
            walk)
          (suc fuel) gathered h =
        extend-bind fetch gathered url _ s
        ∙ bind_at (fetch url) _ s (read_at url body page s s' e r)
        ∙ follow-Walk walk fuel (gathered ++ map f (resources page)) (omega arith)
        ∙ ap (λ xs. (ok xs, t))
            (append_assoc gathered (map f (resources page)) (map f rs)
              ∙ ap (λ xs. gathered ++ xs) (sym (ap (map f) p ∙ map-append f (resources page) rs)))

    -- What a listing that returns has gone through.
    pub record Walked (o : Option String) (s t : Session H) (gathered out : List A) (fuel : ℕ)
        : Type 0 where
      pub count : ℕ
      pub rs : List R
      pub walk : Walk count o rs s t
      pub within : count ≤ fuel
      pub out_is : out ≡ gathered ++ map f rs

    nothing :
        {fuel : ℕ} (gathered : List A) (s : Session H) {out : List A}
        → ok gathered ≡ ok out
        → Walked none s s gathered out fuel
    nothing gathered s e = record {
      count = 0;
      rs = [];
      walk = ended refl;
      within = omega arith;
      out_is = let same : gathered ≡ _ = cc e in sym same ∙ sym (append-nil gathered);
    }

    -- A page that was read, and the session behind it.
    record Read (url : String) (s : Session H) (items : List A) (next : Option String)
        : Type 0 where
      body : String
      page : P
      after : Session H
      left : (fetch url s).1 ≡ after
      got : get_page c url s ≡ (ok body, after)
      meant : read body ≡ parsed page
      items_are : items ≡ map f (resources page)
      next_is : next ≡ going_on (links page).next

    decoded_of :
        {B : Type 0} (p : Parsed P) (k : P → M H B) (s : Session H) {b : B}
        → ((decoded what p >>= k) s).0 ≡ ok b
        → (page : P) × (p ≡ parsed page)
    unfolding decoded ◌>>=◌
    decoded_of (parsed page) k s h = (page, refl)
    decoded_of (malformed e) k s h = absurd (cc h)

    Read-of_fetch :
        (url : String) (s : Session H) (items : List A) (next : Option String)
        → (fetch url s).0 ≡ ok (items, next)
        → Read url s items next
    unfolding read_page
    Read-of_fetch url s items next h =
        let (body, got, h') = >>=-eq-ok (get_page c url) _ s h in
        let (page, meant) = decoded_of (read body) _ _ h' in
        let after = (get_page c url s).1 in
        let here : get_page c url s ≡ (ok body, after) = ap (λ r. (r, after)) got in
        let at = read_at url body page s after here meant in
        let same = parts (sym (ap (λ p. p.0) at) ∙ h) in
        record {
          body = body;
          page = page;
          after = after;
          left = ap (λ p. p.1) at;
          got = here;
          meant = meant;
          items_are = sym same.0;
          next_is = sym same.1;
        }
      where
        parts :
            {x x' : List A} {y y' : Option String}
            → (let pair : Outcome (List A × Option String) = ok (x, y) in pair ≡ ok (x', y'))
            → (x ≡ x') × (y ≡ y')
        parts e = (cc e, cc e)

    step :
        {url : String} {s t : Session H} {items gathered out : List A} {next : Option String}
        {fuel : ℕ} (r : Read url s items next)
        → Walked next r.after t (gathered ++ items) out fuel
        → Walked (some url) s t gathered out (suc fuel)
    step {gathered = gathered} r w = record {
      count = suc w.count;
      rs = resources r.page ++ w.rs;
      walk = turned r.got r.meant refl (rw (← r.next_is) w.walk);
      within = omega (arith, w.within);
      out_is =
          w.out_is
          ∙ append_assoc gathered _ (map f w.rs)
          ∙ ap (λ l. gathered ++ l)
              (ap (λ l. l ++ map f w.rs) r.items_are ∙ sym (map-append f (resources r.page) w.rs));
    }

    pub Walk-follow :
        (fuel : ℕ) (gathered : List A) (o : Option String) (s : Session H) {out : List A}
        → (follow (extend fetch) fuel gathered o s).0 ≡ ok out
        → Walked o s (follow (extend fetch) fuel gathered o s).1 gathered out fuel
    unfolding follow pure out_of_fuel
    Walk-follow zero gathered none s h = nothing gathered s h
    Walk-follow (suc fuel) gathered none s h = nothing gathered s h
    Walk-follow zero gathered (some url) s h = absurd (cc h)
    Walk-follow (suc fuel) gathered (some url) s {out} h =
        let turn = extend-bind fetch gathered url (λ (g, o). follow (extend fetch) fuel g o) s in
        let (r, got, h') = >>=-eq-ok (fetch url) _ s (sym (ap (λ p. p.0) turn) ∙ h) in
        let page = Read-of_fetch url s r.0 r.1 got in
        let rest = Walk-follow fuel (gathered ++ r.0) r.1 (fetch url s).1 h' in
        let ends = turn ∙ >>=_of_ok (fetch url) _ s got in
        let walked =
          subst
            (λ u.
              Walked r.1 u (follow (extend fetch) fuel (gathered ++ r.0) r.1 (fetch url s).1).1
                (gathered ++ r.0) out fuel)
            page.left rest in
        subst (λ u. Walked (some url) s u gathered out (suc fuel)) (sym (ap (λ p. p.1) ends))
          (step page walked)
