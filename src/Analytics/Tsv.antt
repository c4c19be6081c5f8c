-- ===== src/Analytics/Tsv.antt =====
-- `parse_analytics_tsv` (crates/stack_core/src/providers/appstore/client.rs), and a printer of such
-- a table.
pub mod Split
pub mod RoundTrip
use Prim.Native.Char.{Char, code}
use Prim.Native.String
use Prim.Native.String.{[], ◌∷◌}
use stack_connect_core.Prelude.{
  ℕ, String, ◌<>◌, ◌%◌, ◌^◌, Bool, not, List, map, length, eqb, ◌==◌, if◌then◌else◌, join,
}

pub record AnalyticsReportData : Type 0 where
  pub headers : List String
  pub rows : List (List String)
  pub row_count : ℕ

abbrev pub push_first : Char → List String → List String
push_first c List.[] = List.[]
push_first c (List.◌∷◌ x xs) = List.◌∷◌ (c ∷ x) xs

-- `str::split` at a character, given by its code.
unfoldable pub split : ℕ → String → List String
split sep [] = List.◌∷◌ "" List.[]
split sep (c ∷ s) =
    let rest = split sep s in if eqb (code c) sep then List.◌∷◌ "" rest else push_first c rest

unfoldable pub strip_cr : String → String
strip_cr [] = ""
strip_cr (c ∷ []) = if eqb (code c) b'\r' then "" else c ∷ ""
strip_cr (c ∷ d ∷ s) = c ∷ strip_cr (d ∷ s)

-- What `str::lines` makes of the parts between the newlines: a carriage return in front of a newline
-- belongs to the line's end, and a text that ends in a newline has no line behind it.
unfoldable pub lines_of : List String → List String
unfolding strip_cr
lines_of List.[] = List.[]
lines_of (List.◌∷◌ x List.[]) = if x == "" then List.[] else List.◌∷◌ x List.[]
lines_of (List.◌∷◌ x (List.◌∷◌ y ys)) = List.◌∷◌ (strip_cr x) (lines_of (List.◌∷◌ y ys))

unfoldable pub lines : String → List String
unfolding split lines_of
lines s = lines_of (split b'\n' s)

-- `filter(|line| !line.is_empty())`
unfoldable pub non_empty : List String → List String
non_empty List.[] = List.[]
non_empty (List.◌∷◌ x xs) = let rest = non_empty xs in if x == "" then rest else List.◌∷◌ x rest

abbrev pub table_of : List String → AnalyticsReportData
table_of List.[] = record { headers = List.[]; rows = List.[]; row_count = 0 }
table_of (List.◌∷◌ first rest) = record {
  headers = split b'\t' first;
  rows = map (split b'\t') rest;
  row_count = length (map (split b'\t') rest) % 2 ^ 32;
}

unfoldable pub parse_analytics_tsv : String → AnalyticsReportData
unfolding lines non_empty
parse_analytics_tsv text = table_of (non_empty (lines text))

-- A table as a text, each row on a line that a newline ends.
unfoldable pub print_rows : List (List String) → String
unfolding join
print_rows List.[] = ""
print_rows (List.◌∷◌ row rows) = join "\t" row <> "\n" <> print_rows rows
