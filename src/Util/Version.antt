-- ===== src/Util/Version.antt =====
-- pkg/util/version/version.go: the order of versions, by which the server refuses old clients. A
-- version is the list of its code points.
pub mod Order
use Prim.Native.Nat.{◌^◌}
use chml_frp_frp.Prelude.{
  ℕ, zero, suc, String, Bool, true, false, Option, none, some, List, [], ◌∷◌, ltb, leb, ◌==◌, ◌&&◌,
  ◌+◌, ◌*◌, ◌-◌, length, get_elem?, code_points, if◌then◌else◌, ℤ, pos, negsuc, ltb_ℤ,
}
use chml_frp_frp.Client.Admin.Config.{Text}
use chml_frp_frp.Util.Int64.{max_int64, split}

abbrev pub version : String
version = "ChmlFrp-0.51.2_251023"

abbrev pub max_uint64 : ℕ
max_uint64 = 2 ^ 64 - 1

-- The digits after the sign, as `strconv.ParseInt` reads them: it stops at the first character that
-- is no digit, and before that at the first digit with which the number leaves uint64.
abbrev pub read_clamped : ℕ → Text → Option ℕ
read_clamped n [] = some n
read_clamped n (c ∷ s) =
    let next = n * 10 + (c - b'0') in
    let rest = read_clamped next s in
    if leb b'0' c && leb c b'9'
    then (if leb next max_uint64 then rest else some max_uint64)
    else none

abbrev pub magnitude_clamped : Text → Option ℕ
magnitude_clamped [] = none
magnitude_clamped (c ∷ s) = read_clamped 0 (c ∷ s)

-- The result of `strconv.ParseInt` when its error is dropped: zero for an error of the syntax, and
-- the nearest int64 for a number that is too large.
abbrev pub clamp_pos : Option ℕ → ℤ
clamp_pos none = pos 0
clamp_pos (some n) = if leb n max_int64 then pos n else pos max_int64

abbrev pub clamp_neg : Option ℕ → ℤ
clamp_neg none = pos 0
clamp_neg (some zero) = pos 0
clamp_neg (some (suc n)) = if leb n max_int64 then negsuc n else negsuc max_int64

abbrev pub parse_or_zero : Text → ℤ
parse_or_zero [] = pos 0
parse_or_zero (c ∷ s) =
    if c == b'+'
    then clamp_pos (magnitude_clamped s)
    else if c == b'-'
    then clamp_neg (magnitude_clamped s)
    else clamp_pos (magnitude_clamped (c ∷ s))

-- `arr[position]`, for the positions of an array of at least three parts.
abbrev pub part_or_empty : Option Text → Text
part_or_empty none = []
part_or_empty (some part) = part

-- `getSubVersion`
unfoldable pub get_sub_version : Text → ℕ → ℤ
get_sub_version v position =
    let arr = split b'.' v in
    if ltb (length arr) 3 then pos 0 else parse_or_zero (part_or_empty (get_elem? arr position))

unfoldable pub proto : Text → ℤ
unfolding get_sub_version
proto v = get_sub_version v 0

unfoldable pub major : Text → ℤ
unfolding get_sub_version
major v = get_sub_version v 1

unfoldable pub minor : Text → ℤ
unfolding get_sub_version
minor v = get_sub_version v 2

unfoldable pub less_than : Text → Text → Bool
unfolding proto major minor
less_than client server =
    if ltb_ℤ (proto server) (proto client)
    then false
    else if ltb_ℤ (proto client) (proto server)
    then true
    else if ltb_ℤ (major server) (major client)
    then false
    else if ltb_ℤ (major client) (major server)
    then true
    else if ltb_ℤ (minor server) (minor client)
    then false
    else if ltb_ℤ (minor client) (minor server)
    then true
    else false

-- `Compat`, without its message.
unfoldable pub compat : Text → Bool
unfolding less_than
compat client = if less_than client (code_points "0.18.0") then false else true
