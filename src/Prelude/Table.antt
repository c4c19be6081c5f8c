-- ===== src/Prelude/Table.antt =====
-- A `HashMap` with string keys that is only written by `insert` and read by `get`: its entries, the
-- newest first.
use Prim.Native.String.{String}
use mathlib.Core.Path.{◌≡◌, refl}
use mathlib.Core.Option.{Option, none, some}
use mathlib.Core.List.{List, [], ◌∷◌}
use text.Mathlib.Text.{◌==◌}
use stack_connect_core.Prelude.Tests.{if◌then◌else◌}

abbrev pub Table {ℓ} : Type ℓ → Type ℓ
Table V = List (String × V)

module _ {ℓ} {V : Type ℓ} where
  abbrev pub insert : String → V → Table V → Table V
  insert k v m = (k, v) ∷ m

  unfoldable pub lookup : String → Table V → Option V
  lookup k [] = none
  lookup k ((j, v) ∷ m) = if j == k then some v else lookup k m

  pub lookup-insert :
      (k j : String) (v : V) (m : Table V)
      → lookup j (insert k v m) ≡ (if k == j then some v else lookup j m)
  unfolding lookup
  lookup-insert k j v m = refl

-- A loop that adds each element of a list to an index.
module _ {ℓ κ} {S : Type ℓ} {R : Type κ} (add : S → R → S) where
  unfoldable pub add_each : S → List R → S
  add_each x [] = x
  add_each x (r ∷ rs) = add_each (add x r) rs

module _ {κ μ} {R : Type κ} {V : Type μ} (select : R → Option (String × V)) where
  -- What a selected element with the given id makes of `found`.
  abbrev pub replaced : String → Option V → R → Option V
  replaced id found r = elim (select r) [
    | none ↦ found
    | some (j, v) ↦ if j == id then some v else found
  ]

  -- The last element that `select` takes with the given id, or `found` if there is none.
  abbrev pub last_from : String → Option V → List R → Option V
  last_from id found [] = found
  last_from id found (r ∷ rs) = last_from id (replaced id found r) rs

  -- A table that each element updates as `select` says holds the last of them.
  pub add_each-last {ℓ} :
      {S : Type ℓ} (add : S → R → S) (table : S → Option V) (id : String)
      → ((x : S) (r : R) → table (add x r) ≡ replaced id (table x) r)
      → (x : S) (rs : List R) → table (add_each add x rs) ≡ last_from id (table x) rs
  unfolding add_each
  add_each-last add table id step x [] = refl
  add_each-last add table id step x (r ∷ rs) =
      rw (← step x r) (add_each-last add table id step (add x r) rs)
