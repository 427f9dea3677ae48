-- ===== src/Tests/Range.antt =====
-- Lists of numbers and ranges on concrete texts.
use Prim.Native.Nat.{◌^◌}
use chml_frp_frp.Prelude.{◌≡◌, refl, none, some, [], ◌∷◌, arith, pos, code_points}
use chml_frp_frp.Client.Admin.Config.{trim_space}
use chml_frp_frp.Util.Int64.{parse_int}
use chml_frp_frp.Util.Range.{Parsed, numbers, invalid, parse_range_numbers}
use chml_frp_frp.Util.Range.Ends.{parse_range_numbers-ends, parse_range_numbers-goes_on}
use chml_frp_frp.Util.Range.Written.{
  IsNumber, Entry, single, range, joined, all_numbers, parse_range_numbers-joined,
}

-- The texts of the tests of the source.
reads :
    (parse_range_numbers 9 (code_points "2-5")
      ≡ some (numbers (pos 2 ∷ pos 3 ∷ pos 4 ∷ pos 5 ∷ [])))
    × (parse_range_numbers 9 (code_points " 3-5,8, 10-12 ")
        ≡ some (numbers (pos 3 ∷ pos 4 ∷ pos 5 ∷ pos 8 ∷ pos 10 ∷ pos 11 ∷ pos 12 ∷ [])))
    × (parse_range_numbers 9 (code_points "3-a") ≡ some invalid)
    × (parse_range_numbers 9 (code_points "-5") ≡ some invalid)
    × (parse_range_numbers 9 [] ≡ some invalid)
unfolding parse_range_numbers trim_space
reads = (refl, refl, refl, refl, refl)

parse_range_numbers-ends_example :
    (p : Parsed) × (parse_range_numbers (2 ^ 64) (code_points "1000-2000,7") ≡ some p)
unfolding trim_space parse_int
parse_range_numbers-ends_example =
    parse_range_numbers-ends (2 ^ 64) (code_points "1000-2000,7") (omega arith)
      (ground arith, (tt, tt))

parse_range_numbers-goes_on_example :
    parse_range_numbers 1000000 (code_points "1-9223372036854775807") ≡ none
unfolding trim_space parse_int
parse_range_numbers-goes_on_example =
    parse_range_numbers-goes_on 1000000 (code_points "1-9223372036854775807")
      (code_points "1-9223372036854775807") (code_points "1") (code_points "9223372036854775807") []
      (pos 1) refl refl refl refl

-- The number 80, and one with a leading zero.
eighty : IsNumber (code_points "80") 80
eighty = record {
  some_digit = λ e. cc;
  all_digits = (refl, (refl, tt));
  reads = refl;
  fits = omega arith;
}

eighty_two : IsNumber (code_points "082") 82
eighty_two = record {
  some_digit = λ e. cc;
  all_digits = (refl, (refl, (refl, tt)));
  reads = refl;
  fits = omega arith;
}

abbrev ports : Entry
ports = range (code_points "80") 80 (code_points "082") 82

parse_range_numbers-joined_example :
    parse_range_numbers (2 ^ 63) (joined ports (single (code_points "80") 80 ∷ []))
    ≡ some (numbers (all_numbers (ports ∷ single (code_points "80") 80 ∷ [])))
parse_range_numbers-joined_example =
    parse_range_numbers-joined (2 ^ 63) ports (single (code_points "80") 80 ∷ []) (omega arith)
      ((eighty, eighty_two, omega arith, omega arith), (eighty, tt))
