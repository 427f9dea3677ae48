-- ===== src/Util/Range.antt =====
-- pkg/util/util/util.go: `ParseRangeNumbers`, which reads lists of numbers and ranges such as
-- 1000-2000,2001,2002,3000-4000. The loop over a range runs on fuel: none is a loop that has not
-- ended.
pub mod Ends
pub mod Written
use chml_frp_frp.Prelude.{
  zero, suc, ℕ, Bool, true, false, Option, none, some, List, [], ◌∷◌, ◌++◌, if◌then◌else◌, ℤ, ltb_ℤ,
}
use chml_frp_frp.Client.Admin.Config.{Text, trim_space}
use chml_frp_frp.Util.Int64.{next_int64, split, parse_int}

pub data Parsed : Type 0 where
  numbers : List ℤ → Parsed
  invalid : Parsed

-- `for i := min; i <= max; i++`, with the numbers that are appended.
abbrev pub cons_some : ℤ → Option (List ℤ) → Option (List ℤ)
cons_some i none = none
cons_some i (some is) = some (i ∷ is)

unfoldable pub count_up : ℕ → ℤ → ℤ → Option (List ℤ)
count_up zero i max = none
count_up (suc fuel) i max =
    let rest = count_up fuel (next_int64 i) max in if ltb_ℤ max i then some [] else cons_some i rest

-- The numbers of a range, between the results of `ParseInt`.
abbrev pub range_found : Option (List ℤ) → Option Parsed
range_found none = none
range_found (some is) = some (numbers is)

abbrev pub parse_bounds : ℕ → Option ℤ → Option ℤ → Option Parsed
parse_bounds fuel none max = some invalid
parse_bounds fuel (some min) none = some invalid
parse_bounds fuel (some min) (some max) =
    if ltb_ℤ max min then some invalid else range_found (count_up fuel min max)

abbrev pub parse_single : Option ℤ → Option Parsed
parse_single none = some invalid
parse_single (some n) = some (numbers (n ∷ []))

-- The switch on the parts of one entry.
abbrev pub parse_parts : ℕ → List Text → Option Parsed
parse_parts fuel [] = some invalid
parse_parts fuel (one ∷ []) = parse_single (parse_int (trim_space one))
parse_parts fuel (low ∷ high ∷ []) =
    parse_bounds fuel (parse_int (trim_space low)) (parse_int (trim_space high))
parse_parts fuel (_ ∷ _ ∷ _ ∷ _) = some invalid

abbrev pub then_parsed : List ℤ → Option Parsed → Option Parsed
then_parsed before none = none
then_parsed before (some invalid) = some invalid
then_parsed before (some (numbers is)) = some (numbers (before ++ is))

-- The loop over the entries, which ends at the first error.
unfoldable pub parse_entries : ℕ → List Text → Option Parsed
unfolding count_up parse_int
parse_entries fuel [] = some (numbers [])
parse_entries fuel (entry ∷ entries) =
    let rest = parse_entries fuel entries in
    elim (parse_parts fuel (split b'-' entry)) [
      | none ↦ none
      | some invalid ↦ some invalid
      | some (numbers is) ↦ then_parsed is rest
    ]

-- `ParseRangeNumbers`
unfoldable pub parse_range_numbers : ℕ → Text → Option Parsed
unfolding parse_entries
parse_range_numbers fuel range_str = parse_entries fuel (split b',' (trim_space range_str))
