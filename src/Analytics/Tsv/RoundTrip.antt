-- ===== src/Analytics/Tsv/RoundTrip.antt =====
-- A table that is printed and parsed again
-- (`parse_analytics_tsv`, crates/stack_core/src/providers/appstore/client.rs).
use Prim.Native.Char.{code}
use text.Mathlib.TextLemmas.{nil-append, cons-append}
use stack_connect_core.Prelude.{
  String, ◌<>◌, ◌≡◌, ◌≢◌, refl, ap, ◌∙◌, true, false, List, [], ◌∷◌, map, length, ◌%◌, ◌^◌, ◌==◌,
  eqb, join, All,
}
use stack_connect_core.Analytics.Tsv.{
  split, strip_cr, lines_of, lines, non_empty, table_of, parse_analytics_tsv, print_rows,
}
use stack_connect_core.Analytics.Tsv.Split.{
  free, split-cons, split-join, split-nonempty, join-free, and_left, not-true,
}

-- A row that a text can hold: its cells have no tab, newline or carriage return, and its line is
-- not empty.
pub record IsRow (row : List String) : Type 0 where
  pub listed : row ≢ []
  pub visible : join "\t" row == "" ≡ false
  pub tabs : All (λ cell. free b'\t' cell ≡ true) row
  pub newlines : All (λ cell. free b'\n' cell ≡ true) row
  pub returns : All (λ cell. free b'\r' cell ≡ true) row

strip_cr-free : (s : String) → free b'\r' s ≡ true → strip_cr s ≡ s
unfolding free strip_cr
strip_cr-free String.[] h = refl
strip_cr-free (String.◌∷◌ c String.[]) h =
    rw (not-true (eqb (code c) b'\r') (and_left _ true h).0) refl
strip_cr-free (String.◌∷◌ c (String.◌∷◌ d s)) h =
    ap (λ z. String.◌∷◌ c z)
      (strip_cr-free (String.◌∷◌ d s) (and_left _ (free b'\r' (String.◌∷◌ d s)) h).1)

lines_of-cons :
    (x : String) (xs : List String) → xs ≢ [] → lines_of (x ∷ xs) ≡ strip_cr x ∷ lines_of xs
unfolding lines_of
lines_of-cons x [] h = absurd (h refl)
lines_of-cons x (y ∷ ys) h = refl

lines-print_rows :
    (rows : List (List String)) → All IsRow rows → lines (print_rows rows) ≡ map (join "\t") rows
unfolding lines print_rows split lines_of
lines-print_rows [] h = refl
lines-print_rows (row ∷ rows) (h, hs) =
    let line = join "\t" row in
    let rest = print_rows rows in
    ap lines_of (
      ap (λ z. split b'\n' (line <> z))
        (cons-append "\n" "" rest ∙ ap (λ z. String.◌∷◌ "\n" z) (nil-append rest))
      ∙ split-cons b'\n' "\n" line rest (join-free "\n" "\t" row refl h.newlines) refl)
    ∙ lines_of-cons line (split b'\n' rest) (split-nonempty b'\n' rest)
    ∙ rw (strip_cr-free line (join-free "\r" "\t" row refl h.returns))
        (ap (λ z. line ∷ z) (lines-print_rows rows hs))

non_empty-rows :
    (rows : List (List String))
    → All IsRow rows
    → non_empty (map (join "\t") rows) ≡ map (join "\t") rows
unfolding non_empty
non_empty-rows [] h = refl
non_empty-rows (row ∷ rows) (h, hs) = rw (h.visible, non_empty-rows rows hs) refl

split-rows :
    (rows : List (List String)) → All IsRow rows → map (split b'\t') (map (join "\t") rows) ≡ rows
split-rows [] h = refl
split-rows (row ∷ rows) (h, hs) =
    rw (split-rows rows hs) (ap (λ z. z ∷ rows) (split-join "\t" row h.listed h.tabs))

-- A header and rows that a text can hold, printed and parsed, are the table again, with the number
-- of the rows as a `u32`.
pub parse-print :
    (headers : List String) (rows : List (List String))
    → IsRow headers
    → All IsRow rows
    → parse_analytics_tsv (print_rows (headers ∷ rows))
      ≡ record { headers = headers; rows = rows; row_count = length rows % 2 ^ 32 }
unfolding parse_analytics_tsv
parse-print headers rows h hs =
    let all = headers ∷ rows in
    ap table_of (ap non_empty (lines-print_rows all (h, hs)) ∙ non_empty-rows all (h, hs))
    ∙ (rw (split-rows rows hs) (
        ap (λ z. record { headers = z; rows = rows; row_count = length rows % 2 ^ 32 })
          (split-join "\t" headers h.listed h.tabs)))
