-- ===== src/Analytics/Tsv/Split.antt =====
-- Splitting a text at a character and joining the parts.
use Prim.Native.Char.{Char, code}
use Prim.Native.String.{[], ◌∷◌}
use text.Mathlib.TextLemmas.{nil-append, cons-append, append-nil, append_assoc}
use mathlib.Core.List.{cons≢nil}
use stack_connect_core.Prelude.{
  ℕ, String, ◌<>◌, ◌≡◌, ◌≢◌, refl, inl, inr, Bool-cases, eqb_iff, ap, sym, ◌∙◌, Bool, true, false,
  ◌&&◌, not, List, eqb, join, All, arith,
}
use stack_connect_core.Analytics.Tsv.{split, push_first}

unfoldable pub free : ℕ → String → Bool
free sep [] = true
free sep (c ∷ s) = not (eqb (code c) sep) && free sep s

abbrev pub glue : String → List String → List String
glue x List.[] = List.[]
glue x (List.◌∷◌ y ys) = List.◌∷◌ (x <> y) ys

glue-nil : (ys : List String) → glue "" ys ≡ ys
glue-nil List.[] = refl
glue-nil (List.◌∷◌ y ys) = ap (λ z. List.◌∷◌ z ys) (nil-append y)

glue-cons : (c : Char) (x : String) (ys : List String) → push_first c (glue x ys) ≡ glue (c ∷ x) ys
glue-cons c x List.[] = refl
glue-cons c x (List.◌∷◌ y ys) = ap (λ z. List.◌∷◌ z ys) (sym (cons-append c x y))

pub and_left : (a b : Bool) → a && b ≡ true → (a ≡ true) × (b ≡ true)
and_left true b h = (refl, h)
and_left false b h = ground arith

pub not-true : (b : Bool) → not b ≡ true → b ≡ false
not-true b h = ground arith

pub free-append :
    (sep : ℕ) (x y : String) → free sep x ≡ true → free sep y ≡ true → free sep (x <> y) ≡ true
unfolding free
free-append sep [] y h k = ap (free sep) (nil-append y) ∙ k
free-append sep (c ∷ x) y h k =
    let (h₁, h₂) = and_left (not (eqb (code c) sep)) (free sep x) h in
    ap (free sep) (cons-append c x y) ∙ rw (h₁, free-append sep x y h₂ k) refl

-- What is in front of a separator stays in one piece.
pub split-append :
    (sep : ℕ) (x rest : String)
    → free sep x ≡ true
    → split sep (x <> rest) ≡ glue x (split sep rest)
unfolding split free
split-append sep [] rest h = ap (split sep) (nil-append rest) ∙ sym (glue-nil (split sep rest))
split-append sep (c ∷ x) rest h =
    let (h₁, h₂) = and_left (not (eqb (code c) sep)) (free sep x) h in
    ap (split sep) (cons-append c x rest)
    ∙ (rw (not-true (eqb (code c) sep) h₁, split-append sep x rest h₂)
        (glue-cons c x (split sep rest)))

pub split-cons :
    (sep : ℕ) (c : Char) (x rest : String)
    → free sep x ≡ true
    → eqb (code c) sep ≡ true
    → split sep (x <> (c ∷ rest)) ≡ List.◌∷◌ x (split sep rest)
unfolding split
split-cons sep c x rest h e = split-append sep x (c ∷ rest) h ∙ (rw (e, append-nil) refl)

pub split-free : (sep : ℕ) (x : String) → free sep x ≡ true → split sep x ≡ List.◌∷◌ x List.[]
unfolding split
split-free sep x h =
    ap (split sep) (sym (append-nil x)) ∙ split-append sep x "" h ∙ (rw append-nil refl)

push_first-nonempty : (c : Char) (xs : List String) → xs ≢ List.[] → push_first c xs ≢ List.[]
push_first-nonempty c List.[] h = h
push_first-nonempty c (List.◌∷◌ x xs) h = λ e. cons≢nil e

pub split-nonempty : (sep : ℕ) (s : String) → split sep s ≢ List.[]
unfolding split
split-nonempty sep [] = λ e. cons≢nil e
split-nonempty sep (c ∷ s) = elim (Bool-cases (eqb (code c) sep)) [
  | inl h ↦ rw h (λ e. cons≢nil e)
  | inr h ↦ rw h (push_first-nonempty c (split sep s) (split-nonempty sep s))
]

single-append : (c : Char) (s : String) → (c ∷ "") <> s ≡ c ∷ s
single-append c s = cons-append c "" s ∙ ap (λ z. c ∷ z) (nil-append s)

pub join-free :
    (sep d : Char) (row : List String)
    → eqb (code d) (code sep) ≡ false
    → All (λ cell. free (code sep) cell ≡ true) row
    → free (code sep) (join (d ∷ "") row) ≡ true
unfolding join free
join-free sep d List.[] e h = refl
join-free sep d (List.◌∷◌ x List.[]) e h = h.0
join-free sep d (List.◌∷◌ x (List.◌∷◌ y ys)) e h =
    free-append (code sep) (x <> (d ∷ "")) (join (d ∷ "") (List.◌∷◌ y ys))
      (free-append (code sep) x (d ∷ "") h.0 (rw e refl)) (join-free sep d (List.◌∷◌ y ys) e h.1)

pub split-join :
    (sep : Char) (row : List String)
    → row ≢ List.[]
    → All (λ cell. free (code sep) cell ≡ true) row
    → split (code sep) (join (sep ∷ "") row) ≡ row
unfolding join
split-join sep List.[] n h = absurd (n refl)
split-join sep (List.◌∷◌ x List.[]) n h = split-free (code sep) x h.0
split-join sep (List.◌∷◌ x (List.◌∷◌ y ys)) n h =
    ap (split (code sep)) (
      append_assoc x (sep ∷ "") (join (sep ∷ "") (List.◌∷◌ y ys))
      ∙ ap (λ z. x <> z) (single-append sep (join (sep ∷ "") (List.◌∷◌ y ys))))
    ∙ split-cons (code sep) sep x (join (sep ∷ "") (List.◌∷◌ y ys)) h.0
        ((eqb_iff (code sep) (code sep)).1 refl)
    ∙ ap (λ z. List.◌∷◌ x z) (split-join sep (List.◌∷◌ y ys) (λ e. cons≢nil e) h.1)
