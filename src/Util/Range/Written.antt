-- ===== src/Util/Range/Written.antt =====
-- Reading what is written: lists of numbers and ranges and `ParseRangeNumbers`, pkg/util/util/util.go.
use Prim.Native.Nat.{◌^◌}
use chml_frp_frp.Prelude.{
  ℕ, zero, suc, ◌+◌, ◌-◌, ◌≤◌, ◌<◌, ◌≡◌, ◌≢◌, refl, ◌∙◌, ap, Bool, true, false, ◌&&◌, some, List,
  [], ◌∷◌, ◌++◌, map, ◌==◌, leb, ℤ, pos, ltb_ℤ, All, All-append, arith,
}
use chml_frp_frp.Client.Admin.Config.{
  Text, is_space, trim_start, cons_unless_blank, trim_end, trim_space,
}
use chml_frp_frp.Util.Int64.{max_int64, split, read_digits, parse_int}
use chml_frp_frp.Util.Range.{numbers, count_up, parse_parts, parse_entries, parse_range_numbers}

abbrev is_digit : ℕ → Bool
is_digit c = leb b'0' c && leb c b'9'

-- A number as it is written, in decimal, and its value, which is an int64.
pub record IsNumber (ds : Text) (n : ℕ) : Type 0 where
  pub some_digit : ds ≢ []
  pub all_digits : All (λ c. is_digit c ≡ true) ds
  pub reads : read_digits 0 ds ≡ some n
  pub fits : n ≤ max_int64

-- An entry of the list, by its texts and their values.
pub data Entry : Type 0 where
  single : Text → ℕ → Entry
  range : Text → ℕ → Text → ℕ → Entry

abbrev pub IsEntry : Entry → Type 0
IsEntry (single ds n) = IsNumber ds n
IsEntry (range ds low es high) =
    IsNumber ds low × IsNumber es high × (low ≤ high) × (high < max_int64)

abbrev pub written : Entry → Text
written (single ds n) = ds
written (range ds low es high) = ds ++ b'-' ∷ es

-- The numbers from one on.
abbrev pub series : ℕ → ℕ → List ℤ
series a zero = []
series a (suc k) = pos a ∷ series (suc a) k

abbrev pub numbers_of : Entry → List ℤ
numbers_of (single ds n) = pos n ∷ []
numbers_of (range ds low es high) = series low (suc high - low)

abbrev pub all_numbers : List Entry → List ℤ
all_numbers [] = []
all_numbers (e ∷ es) = numbers_of e ++ all_numbers es

-- Entries with a comma between them.
abbrev pub joined : Entry → List Entry → Text
joined e [] = written e
joined e (next ∷ es) = written e ++ b',' ∷ joined next es

Lacks : ℕ → Text → Type 0
Lacks sep s = All (λ c. (c == sep) ≡ false) s

split_whole : (sep : ℕ) (s : Text) → Lacks sep s → split sep s ≡ s ∷ []
unfolding Lacks
split_whole sep [] h = refl
split_whole sep (c ∷ s) (h, hs) = rw (h, split_whole sep s hs) refl

split-append :
    (sep : ℕ) (s rest : Text) → Lacks sep s → split sep (s ++ sep ∷ rest) ≡ s ∷ split sep rest
unfolding Lacks
split-append sep [] rest h = let own : (sep == sep) ≡ true = ground arith in rw own refl
split-append sep (c ∷ s) rest (h, hs) = rw (h, split-append sep s rest hs) refl

-- A text without a blank is not trimmed.
trim_start_lem : (s : Text) → All (λ c. is_space c ≡ false) s → trim_start s ≡ s
trim_start_lem [] h = refl
trim_start_lem (c ∷ s) (h, hs) = rw h refl

trim_end_lem : (s : Text) → All (λ c. is_space c ≡ false) s → trim_end s ≡ s
trim_end_lem [] h = refl
trim_end_lem (c ∷ []) (h, hs) = rw h refl
trim_end_lem (c ∷ d ∷ s) (h, hs) = ap (cons_unless_blank c) (trim_end_lem (d ∷ s) hs)

trim_space_lem : (s : Text) → All (λ c. is_space c ≡ false) s → trim_space s ≡ s
unfolding trim_space
trim_space_lem s h = ap trim_end (trim_start_lem s h) ∙ trim_end_lem s h

-- What a character of an entry is not.
abbrev Plain : ℕ → Type 0
Plain c = (is_space c ≡ false) × ((c == b',') ≡ false)

digit-Plain : (c : ℕ) → is_digit c ≡ true → Plain c
digit-Plain c h = (ground arith, ground arith)

digit_signs : (c : ℕ) → is_digit c ≡ true → ((c == b'-') ≡ false) × ((c == b'+') ≡ false)
digit_signs c h = (ground arith, ground arith)

digits-Plain : (s : Text) → All (λ c. is_digit c ≡ true) s → All Plain s
digits-Plain [] h = tt
digits-Plain (c ∷ s) (h, hs) = (digit-Plain c h, digits-Plain s hs)

Plain-blank : (s : Text) → All Plain s → All (λ c. is_space c ≡ false) s
Plain-blank [] h = tt
Plain-blank (c ∷ s) (h, hs) = (h.0, Plain-blank s hs)

Plain-Lacks : (s : Text) → All Plain s → Lacks b',' s
unfolding Lacks
Plain-Lacks [] h = tt
Plain-Lacks (c ∷ s) (h, hs) = (h.1, Plain-Lacks s hs)

number-blank : (ds : Text) (n : ℕ) → IsNumber ds n → All (λ c. is_space c ≡ false) ds
number-blank ds n v = Plain-blank ds (digits-Plain ds v.all_digits)

number-Lacks :
    (sep : ℕ)
    → ((c : ℕ) → is_digit c ≡ true → (c == sep) ≡ false)
    → (ds : Text) → All (λ c. is_digit c ≡ true) ds
    → Lacks sep ds
unfolding Lacks
number-Lacks sep no_sep [] h = tt
number-Lacks sep no_sep (c ∷ ds) (h, hs) = (no_sep c h, number-Lacks sep no_sep ds hs)

-- A number without blanks around it is read as its value.
parse_number : (ds : Text) (n : ℕ) → IsNumber ds n → parse_int (trim_space ds) ≡ some (pos n)
unfolding parse_int
parse_number ds n v =
    ap parse_int (trim_space_lem ds (number-blank ds n v))
    ∙ from ds v.some_digit v.all_digits v.reads
  where
    fits : leb n max_int64 ≡ true
    fits = let below = v.fits in ground arith

    from :
        (s : Text)
        → s ≢ []
        → All (λ c. is_digit c ≡ true) s
        → read_digits 0 s ≡ some n
        → parse_int s ≡ some (pos n)
    from [] h digits reads = absurd (h refl)
    from (c ∷ s) h (d, ds) reads =
        let (no_minus, no_plus) = digit_signs c d in
        rw (parse_int, no_plus, no_minus, reads, fits) refl

-- The loop over a range that ends below the largest int64.
count_up-series :
    (fuel k a b : ℕ)
    → k < fuel
    → a + k ≡ suc b
    → b < max_int64
    → count_up fuel (pos a) (pos b) ≡ some (series a k)
unfolding count_up
count_up-series zero k a b h e small = absurd (omega arith)
count_up-series (suc fuel) zero a b h e small =
    let over : ltb_ℤ (pos b) (pos a) ≡ true = ground arith in rw (count_up, over) refl
count_up-series (suc fuel) (suc k) a b h e small =
    let inside : ltb_ℤ (pos b) (pos a) ≡ false = ground arith in
    let no_wrap : (a == max_int64) ≡ false = ground arith in
    rw
      (
        count_up,
        inside,
        no_wrap,
        count_up-series fuel k (suc a) b (omega arith) (omega arith) small,
      )
      refl

entry-parse :
    (fuel : ℕ) (e : Entry)
    → 2 ^ 63 ≤ fuel
    → IsEntry e
    → parse_parts fuel (split b'-' (written e)) ≡ some (numbers (numbers_of e))
entry-parse fuel (single ds n) enough v =
    rw
      (
        split_whole b'-' ds (number-Lacks b'-' (λ c h. (digit_signs c h).0) ds v.all_digits),
        parse_number ds n v,
      )
      refl
entry-parse fuel (range ds low es high) enough (v, w, le, small) =
    let ordered : ltb_ℤ (pos high) (pos low) ≡ false = ground arith in
    rw
      (
        split-append b'-' ds es (number-Lacks b'-' (λ c h. (digit_signs c h).0) ds v.all_digits),
        split_whole b'-' es (number-Lacks b'-' (λ c h. (digit_signs c h).0) es w.all_digits),
        parse_number ds low v,
        parse_number es high w,
        ordered,
        count_up-series fuel (suc high - low) low high (omega arith) (omega arith) small,
      )
      refl

written-Plain : (e : Entry) → IsEntry e → All Plain (written e)
written-Plain (single ds n) v = digits-Plain ds v.all_digits
written-Plain (range ds low es high) (v, w, _, _) =
    All-append Plain ds (b'-' ∷ es) (digits-Plain ds v.all_digits)
      ((refl, refl), digits-Plain es w.all_digits)

-- The text of some entries has no blank.
joined-blank :
    (e : Entry) (es : List Entry)
    → IsEntry e
    → All IsEntry es
    → All (λ c. is_space c ≡ false) (joined e es)
joined-blank e [] v vs = Plain-blank (written e) (written-Plain e v)
joined-blank e (next ∷ es) v (w, ws) =
    All-append (λ (c : ℕ). is_space c ≡ false) (written e) (b',' ∷ joined next es)
      (Plain-blank (written e) (written-Plain e v)) (refl, joined-blank next es w ws)

split-joined :
    (e : Entry) (es : List Entry)
    → IsEntry e
    → All IsEntry es
    → split b',' (joined e es) ≡ map written (e ∷ es)
split-joined e [] v vs = split_whole b',' (written e) (Plain-Lacks (written e) (written-Plain e v))
split-joined e (next ∷ es) v (w, ws) =
    split-append b',' (written e) (joined next es) (Plain-Lacks (written e) (written-Plain e v))
    ∙ ap (λ (rest : List Text). written e ∷ rest) (split-joined next es w ws)

entries-parse :
    (fuel : ℕ) (es : List Entry)
    → 2 ^ 63 ≤ fuel
    → All IsEntry es
    → parse_entries fuel (map written es) ≡ some (numbers (all_numbers es))
unfolding parse_entries
entries-parse fuel [] enough h = refl
entries-parse fuel (e ∷ es) enough (h, hs) =
    rw (parse_entries, entry-parse fuel e enough h, entries-parse fuel es enough hs) refl

-- A list of entries that is written with a comma between them, each a number or a range of two numbers
-- with a dash between them, is read as the numbers that it stands for, in order and with both ends of
-- each range, if the numbers are int64s in decimal, and each range is in order and ends below the
-- largest int64. 2^63 rounds are enough for each range.
pub parse_range_numbers-joined :
    (fuel : ℕ) (e : Entry) (es : List Entry)
    → 2 ^ 63 ≤ fuel
    → All IsEntry (e ∷ es)
    → parse_range_numbers fuel (joined e es) ≡ some (numbers (all_numbers (e ∷ es)))
unfolding parse_range_numbers
parse_range_numbers-joined fuel e es enough (h, hs) =
    ap (λ (s : Text). parse_entries fuel (split b',' s))
      (trim_space_lem (joined e es) (joined-blank e es h hs))
    ∙ ap (parse_entries fuel) (split-joined e es h hs)
    ∙ entries-parse fuel (e ∷ es) enough (h, hs)
