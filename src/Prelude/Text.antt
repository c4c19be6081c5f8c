-- ===== src/Prelude/Text.antt =====
-- Texts as lists of code points where the program looks inside them: ASCII lower case, `contains`,
-- `join`, and the decimal digits of a number.
use Prim.Native.Nat.{ℕ, zero, suc, ◌+◌, ◌-◌, ◌/◌, ◌%◌}
use Prim.Native.Char.{code}
use Prim.Native.String.{String, ◌++◌, count}
use text.Mathlib.Text.{starts_with}
use mathlib.Core.Bool.{Bool, true, false, ◌&&◌, ◌||◌}
use mathlib.Core.List.{List, [], ◌∷◌}
use stack_connect_core.Prelude.Tests.{leb, ltb, eqb, if◌then◌else◌}

abbrev pub codes : String → List ℕ
codes String.[] = []
codes (String.◌∷◌ c s) = code c ∷ codes s

unfoldable pub to_lower : ℕ → ℕ
to_lower c = if leb 65 c && leb c 90 then c + 32 else c

unfoldable pub has_prefix : List ℕ → List ℕ → Bool
has_prefix [] text = true
has_prefix (c ∷ needle) [] = false
has_prefix (c ∷ needle) (d ∷ text) = eqb c d && has_prefix needle text

unfoldable pub contains : List ℕ → List ℕ → Bool
unfolding has_prefix
contains needle [] = has_prefix needle []
contains needle (c ∷ text) = has_prefix needle (c ∷ text) || contains needle text

unfoldable pub join : String → List String → String
join sep [] = ""
join sep (x ∷ []) = x
join sep (x ∷ y ∷ xs) = (x ++ sep) ++ join sep (y ∷ xs)

abbrev digit : ℕ → String
digit zero = "0"
digit (suc zero) = "1"
digit (suc (suc zero)) = "2"
digit (suc (suc (suc zero))) = "3"
digit (suc (suc (suc (suc zero)))) = "4"
digit (suc (suc (suc (suc (suc zero))))) = "5"
digit (suc (suc (suc (suc (suc (suc zero)))))) = "6"
digit (suc (suc (suc (suc (suc (suc (suc zero))))))) = "7"
digit (suc (suc (suc (suc (suc (suc (suc (suc zero)))))))) = "8"
digit _ = "9"

-- The digits of `n`, in front of `rest`. A number has at most as many digits as its value plus 1.
unfoldable pub digits : ℕ → ℕ → String → String
digits zero n rest = rest
digits (suc fuel) n rest =
    let text = digit (n % 10) ++ rest in
    let more = digits fuel (n / 10) text in if ltb n 10 then text else more

-- A `u32` has at most ten digits, a `u64` twenty.
unfoldable pub to_string : ℕ → String
unfolding digits
to_string n = digits 20 n ""

-- `str::replace`: `skip` counts the characters of an occurrence that are still to be dropped.
unfoldable pub replace_from : ℕ → String → String → String → String
replace_from skip needle by String.[] = ""
replace_from (suc skip) needle by (String.◌∷◌ c text) = replace_from skip needle by text
replace_from zero needle by (String.◌∷◌ c text) =
    let hit = starts_with (String.◌∷◌ c text) needle in
    let rest = replace_from (if hit then count needle - 1 else 0) needle by text in
    if hit then by ++ rest else String.◌∷◌ c rest

unfoldable pub replace : String → String → String → String
unfolding replace_from
replace needle by text = replace_from 0 needle by text
