-- ===== src/Util/Int64.antt =====
-- What pkg/util uses of the standard library on texts and on 64-bit integers. A text is the list of
-- its code points.

use Prim.Native.Nat.{◌^◌}
use chml_frp_frp.Prelude.{
  ℕ, zero, suc, ◌+◌, ◌-◌, ◌*◌, ◌&&◌, Option, none, some, List, [], ◌∷◌, leb, ◌==◌, if◌then◌else◌, ℤ,
  pos, negsuc,
}
use chml_frp_frp.Client.Admin.Config.{Text, cons_first}

abbrev pub max_int64 : ℕ
max_int64 = 2 ^ 63 - 1

-- `i++` on an int64.
abbrev pub next_int64 : ℤ → ℤ
next_int64 (pos n) = if n == max_int64 then negsuc max_int64 else pos (suc n)
next_int64 (negsuc zero) = pos 0
next_int64 (negsuc (suc n)) = negsuc n

-- `strings.Split` at a separator of one character.
abbrev pub split : ℕ → Text → List Text
split sep [] = [] ∷ []
split sep (c ∷ s) = let parts = split sep s in if c == sep then [] ∷ parts else cons_first c parts

-- The value of a text of decimal digits after those read so far.
abbrev pub read_digits : ℕ → Text → Option ℕ
read_digits n [] = some n
read_digits n (c ∷ s) =
    let rest = read_digits (n * 10 + (c - b'0')) s in
    if leb b'0' c && leb c b'9' then rest else none

-- The digits after the sign; without a digit it is an error.
abbrev pub magnitude : Text → Option ℕ
magnitude [] = none
magnitude (c ∷ s) = read_digits 0 (c ∷ s)

abbrev pub fit_pos : Option ℕ → Option ℤ
fit_pos none = none
fit_pos (some n) = if leb n max_int64 then some (pos n) else none

abbrev pub fit_neg : Option ℕ → Option ℤ
fit_neg none = none
fit_neg (some zero) = some (pos 0)
fit_neg (some (suc n)) = if leb n max_int64 then some (negsuc n) else none

-- `strconv.ParseInt(s, 10, 64)`, where an error of the syntax or of the range is none.
unfoldable pub parse_int : Text → Option ℤ
parse_int [] = none
parse_int (c ∷ s) =
    if c == b'+'
    then fit_pos (magnitude s)
    else if c == b'-'
    then fit_neg (magnitude s)
    else fit_pos (magnitude (c ∷ s))
