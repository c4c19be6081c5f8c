-- ===== src/Facade/Scexport/Renamed/Entries.antt =====
-- The loop of `remap` (crates/stack_core/src/frb_api.rs): which secret is under which name.
use stack_connect_core.Prelude.{
  All, ◌≡◌, ◌≢◌, refl, ◌∙◌, sym, ap, Bool, true, false, ◌⊎◌, inl, inr, String, Option, none, some,
  List, [], ◌∷◌, ◌==◌, eq_iff, if◌then◌else◌,
}
use stack_connect_core.Prelude.Table.{Table, lookup, add_each}
use stack_connect_core.Facade.Scexport.{without, store, renamed, insert_renamed, remap}

pub same_or_not : (j k : String) → (j ≡ k) ⊎ ((j == k) ≡ false)
same_or_not j k = go (j == k) refl
  where
    go : (t : Bool) → (j == k) ≡ t → (j ≡ k) ⊎ ((j == k) ≡ false)
    go true e = inl ((eq_iff j k).0 e)
    go false e = inr e

pub differ : (j k : String) → j ≢ k → (j == k) ≡ false
differ j k h = elim (same_or_not j k) [ inl e ↦ absurd (h e) | inr e ↦ e ]

pub same : (k : String) → (k == k) ≡ true
same k = (eq_iff k k).1 refl

-- No key occurs twice, as in a `HashMap`.
unfoldable pub Distinct : Table String → Type 0
unfolding lookup
Distinct [] = Unit
Distinct ((k, v) ∷ m) = (lookup k m ≡ none) × Distinct m

differ_sym : (j k : String) → (j == k) ≡ false → (k == j) ≡ false
differ_sym j k h = differ k j λ e. absurd (cc (h, (eq_iff j k).1 (sym e)))

gone : (k : String) (m : Table String) → lookup k (without k m) ≡ none
unfolding lookup without
gone k [] = refl
gone k ((i, v) ∷ m) = go (same_or_not k i) (gone k m)
  where
    go :
        (k ≡ i) ⊎ ((k == i) ≡ false)
        → lookup k (without k m) ≡ none
        → lookup k (without k ((i, v) ∷ m)) ≡ none
    go (inl e) ih = rw (← e, same k) ih
    go (inr e) ih = rw (e, differ_sym k i e) ih

kept : (j k : String) (m : Table String) → (k == j) ≡ false → lookup j (without k m) ≡ lookup j m
unfolding lookup without
kept j k [] h = refl
kept j k ((i, v) ∷ m) h = go (same_or_not k i) (kept j k m h)
  where
    go :
        (k ≡ i) ⊎ ((k == i) ≡ false)
        → lookup j (without k m) ≡ lookup j m
        → lookup j (without k ((i, v) ∷ m)) ≡ lookup j ((i, v) ∷ m)
    go (inl e) ih = rw (← e, same k, h) ih
    go (inr e) ih = rw (e, ih) refl

pub lookup-store :
    (j k v : String) (m : Table String)
    → lookup j (store k v m) ≡ (if k == j then some v else lookup j m)
unfolding lookup store
lookup-store j k v m = go (k == j) refl
  where
    go :
        (t : Bool)
        → (k == j) ≡ t
        → (if t then some v else lookup j (without k m)) ≡ (if t then some v else lookup j m)
    go true e = refl
    go false e = kept j k m e

still_fresh : (j k : String) (m : Table String) → lookup j m ≡ none → lookup j (without k m) ≡ none
still_fresh j k m h = elim (same_or_not k j) [
  | inl e ↦ rw (← e) (gone k m)
  | inr e ↦ kept j k m e ∙ h
]

without-Distinct : (k : String) (m : Table String) → Distinct m → Distinct (without k m)
unfolding Distinct without
without-Distinct k [] d = tt
without-Distinct k ((j, v) ∷ m) (fresh, d) =
    elim (k == j) as (λ t. Distinct (if t then without k m else (j, v) ∷ without k m)) [
      | true ↦ without-Distinct k m d
      | false ↦ (still_fresh j k m fresh, without-Distinct k m d)
    ]

store-Distinct : (k v : String) (m : Table String) → Distinct m → Distinct (store k v m)
unfolding Distinct store
store-Distinct k v m d = (gone k m, without-Distinct k m d)

module _ (P : String × String → Type 0) where
  without-All : (k : String) (m : Table String) → All P m → All P (without k m)
  unfolding without
  without-All k [] h = tt
  without-All k ((j, v) ∷ m) (h, hs) =
      elim (k == j) as (λ t. All P (if t then without k m else (j, v) ∷ without k m)) [
        | true ↦ without-All k m hs
        | false ↦ (h, without-All k m hs)
      ]

module _ (mapping : List (String × String)) where
  abbrev OnName : (String × String → Type 0) → String × String → Type 0
  OnName P e = P (renamed mapping e.0, e.1)

  loop-All :
      (P : String × String → Type 0) (m out : Table String)
      → All P out
      → All (OnName P) m
      → All P (add_each (insert_renamed mapping) out m)
  unfolding add_each insert_renamed store
  loop-All P [] out h k = h
  loop-All P ((key, value) ∷ m) out h (k, ks) =
      loop-All P m (store (renamed mapping key) value out)
        (k, without-All P (renamed mapping key) out h) ks

  -- What holds of each secret under its new name holds of the result.
  pub remap-All :
      (P : String × String → Type 0) (m : Table String) → All (OnName P) m → All P (remap mapping m)
  unfolding remap
  remap-All P m h = loop-All P m [] tt h

  loop-Distinct :
      (m out : Table String) → Distinct out → Distinct (add_each (insert_renamed mapping) out m)
  unfolding add_each insert_renamed
  loop-Distinct [] out d = d
  loop-Distinct ((key, value) ∷ m) out d =
      loop-Distinct m (store (renamed mapping key) value out)
        (store-Distinct (renamed mapping key) value out d)

  pub remap-Distinct : (m : Table String) → Distinct (remap mapping m)
  unfolding remap Distinct
  remap-Distinct m = loop-Distinct m [] tt

  -- A later secret, or none: what the loop leaves under a name.
  abbrev or_else : Option String → Option String → Option String
  or_else none o = o
  or_else (some v) o = some v

  module _ (back : String → String) where
    abbrev Restored : String × String → Type 0
    Restored e = back (renamed mapping e.0) ≡ e.0

    -- One round: two names agree after the renaming only where they did before.
    round_lookup :
        (m : Table String) (key value k : String) (o : Option String)
        → lookup key m ≡ none
        → Restored (key, value)
        → back (renamed mapping k) ≡ k
        → or_else (lookup k m) (if renamed mapping key == renamed mapping k then some value else o)
          ≡ or_else (if key == k then some value else lookup k m) o
    round_lookup m key value k o fresh h r = elim (same_or_not key k) [
      | inl e ↦ rw (← e, same (renamed mapping key), same key, fresh) refl
      | inr e ↦
          rw
            (
              e,
              differ (renamed mapping key) (renamed mapping k)
                  λ p. absurd (cc (e, same k, sym h ∙ ap back p ∙ r)),
            )
            refl
    ]

    loop-lookup :
        (m out : Table String) (k : String)
        → Distinct m
        → All Restored m
        → back (renamed mapping k) ≡ k
        → lookup (renamed mapping k) (add_each (insert_renamed mapping) out m)
          ≡ or_else (lookup k m) (lookup (renamed mapping k) out)
    unfolding add_each insert_renamed lookup Distinct
    loop-lookup [] out k d h r = refl
    loop-lookup ((key, value) ∷ m) out k (fresh, d) (h, hs) r =
        loop-lookup m (store (renamed mapping key) value out) k d hs r
        ∙ ap (or_else (lookup k m))
            (lookup-store (renamed mapping k) (renamed mapping key) value out)
        ∙ round_lookup m key value k (lookup (renamed mapping k) out) fresh h r

    -- Where the old names can be told from the new ones, each secret is under its new name.
    pub remap-lookup :
        (m : Table String) (k : String)
        → Distinct m
        → All Restored m
        → back (renamed mapping k) ≡ k
        → lookup (renamed mapping k) (remap mapping m) ≡ lookup k m
    unfolding remap lookup
    remap-lookup m k d h r = loop-lookup m [] k d h r ∙ or_none (lookup k m)
      where
        or_none : (o : Option String) → or_else o none ≡ o
        or_none none = refl
        or_none (some v) = refl
