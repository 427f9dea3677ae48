-- ===== src/Util/Range/Ends.antt =====
-- When the loop of `ParseRangeNumbers` ends, pkg/util/util/util.go.
use Prim.Native.Nat.{◌^◌}
use chml_frp_frp.Prelude.{
  ℕ, zero, suc, ◌+◌, ◌-◌, ◌≤◌, ◌<◌, ◌≡◌, ◌≢◌, refl, ap, subst, false, Option, none, some, List, [],
  ◌∷◌, ◌++◌, ◌==◌, ==_iff, leb, ℤ, pos, negsuc, pos_part, neg_part, ltb_ℤ, All, arith, inl, inr,
  Bool-cases,
}
use chml_frp_frp.Client.Admin.Config.{Text, trim_space}
use chml_frp_frp.Util.Int64.{max_int64, next_int64, split, parse_int, magnitude, fit_pos, fit_neg}
use chml_frp_frp.Util.Range.{
  Parsed, numbers, invalid, count_up, range_found, parse_bounds, parse_single, parse_parts,
  then_parsed, parse_entries, parse_range_numbers,
}

-- An int64.
abbrev pub IsInt64 : ℤ → Type 0
IsInt64 i = (pos_part i ≤ max_int64) × (neg_part i ≤ suc max_int64)

abbrev AllIn : Option ℤ → Type 0
AllIn none = Unit {0}
AllIn (some i) = IsInt64 i

fit_pos-AllIn : (o : Option ℕ) → AllIn (fit_pos o)
fit_pos-AllIn none = tt
fit_pos-AllIn (some n) = elim (Bool-cases (leb n max_int64)) [
  | inl e ↦ rw e (ground arith, omega arith)
  | inr e ↦ rw e tt
]

fit_neg-AllIn : (o : Option ℕ) → AllIn (fit_neg o)
fit_neg-AllIn none = tt
fit_neg-AllIn (some zero) = (omega arith, omega arith)
fit_neg-AllIn (some (suc n)) = elim (Bool-cases (leb n max_int64)) [
  | inl e ↦ rw e (omega arith, ground arith)
  | inr e ↦ rw e tt
]

parse_int-AllIn : (s : Text) → AllIn (parse_int s)
unfolding parse_int
parse_int-AllIn [] = tt
parse_int-AllIn (c ∷ s) = elim (Bool-cases (c == b'+')) [
  | inl e ↦ rw e (fit_pos-AllIn (magnitude s))
  | inr e ↦ elim (Bool-cases (c == b'-')) [
    | inl d ↦ rw (e, d) (fit_neg-AllIn (magnitude s))
    | inr d ↦ rw (e, d) (fit_pos-AllIn (magnitude (c ∷ s)))
  ]
]

-- The rounds that are left from a number to the end of its range.
abbrev rounds : ℤ → ℤ → ℕ
rounds i max = suc (pos_part max + neg_part i) - (pos_part i + neg_part max)

next_int64_lem :
    (i max : ℤ)
    → ltb_ℤ max i ≡ false
    → pos_part max < max_int64
    → rounds (next_int64 i) max + 1 ≡ rounds i max
next_int64_lem (pos n) max h small = ground arith
next_int64_lem (negsuc zero) max h small = ground arith
next_int64_lem (negsuc (suc n)) max h small = ground arith

pub count_up-ends :
    (fuel : ℕ) (i max : ℤ)
    → pos_part max < max_int64
    → rounds i max < fuel
    → (is : List ℤ) × (count_up fuel i max ≡ some is)
unfolding count_up
count_up-ends zero i max small h = absurd (omega arith)
count_up-ends (suc fuel) i max small h = elim (Bool-cases (ltb_ℤ max i)) [
  | inl e ↦ ([], rw (count_up, e) refl)
  | inr e ↦
      let (is, rest) =
        count_up-ends fuel (next_int64 i) max small (omega (arith, next_int64_lem i max e small)) in
      (i ∷ is, rw (count_up, e, rest) refl)
]

-- No int64 is above the largest one, so that the test never ends the loop.
next_int64-IsInt64 : (i : ℤ) → IsInt64 i → IsInt64 (next_int64 i)
next_int64-IsInt64 (pos n) h = elim (Bool-cases (n == max_int64)) [
  | inl e ↦ rw e (omega arith, omega arith)
  | inr e ↦ rw e (ground arith, omega arith)
]
next_int64-IsInt64 (negsuc zero) h = (omega arith, omega arith)
next_int64-IsInt64 (negsuc (suc n)) h = (omega arith, omega arith)

not_above : (i : ℤ) → IsInt64 i → ltb_ℤ (pos max_int64) i ≡ false
not_above (pos n) h = ground arith
not_above (negsuc n) h = ground arith

pub count_up-goes_on : (fuel : ℕ) (i : ℤ) → IsInt64 i → count_up fuel i (pos max_int64) ≡ none
unfolding count_up
count_up-goes_on zero i h = refl
count_up-goes_on (suc fuel) i h =
    rw (count_up, not_above i h, count_up-goes_on fuel (next_int64 i) (next_int64-IsInt64 i h)) refl

-- The end of a range is not the largest int64.
abbrev pub IsEnding : List Text → Type 0
IsEnding (low ∷ high ∷ []) = parse_int (trim_space high) ≢ some (pos max_int64)
IsEnding _ = Unit

found_ends :
    (o : Option (List ℤ)) → (is : List ℤ) × (o ≡ some is) → (p : Parsed) × (range_found o ≡ some p)
found_ends o (is, e) = (numbers is, ap range_found e)

bounds_end :
    (fuel : ℕ) (min max : Option ℤ)
    → 2 ^ 64 ≤ fuel
    → AllIn min
    → AllIn max
    → max ≢ some (pos max_int64)
    → (p : Parsed) × (parse_bounds fuel min max ≡ some p)
bounds_end fuel none max enough inl_min in_max other = (invalid, refl)
bounds_end fuel (some min) none enough in_min in_max other = (invalid, refl)
bounds_end fuel (some min) (some max) enough in_min in_max other =
    elim (Bool-cases (ltb_ℤ max min)) [
      | inl e ↦ (invalid, rw (parse_bounds, e) refl)
      | inr e ↦
          let below = small max in_max other in
          let (p, h) =
            found_ends (count_up fuel min max)
              (count_up-ends fuel min max below (omega (arith, below))) in
          (p, rw (parse_bounds, e) h)
    ]
  where
    small : (m : ℤ) → IsInt64 m → some m ≢ some (pos max_int64) → pos_part m < max_int64
    small (pos n) h o = elim (Bool-cases (n == max_int64)) [
      | inl e ↦ absurd (o (ap (λ k. some (pos k)) ((==_iff n max_int64).0 e)))
      | inr e ↦ ground arith
    ]
    small (negsuc n) h o = omega arith

single_ends : (o : Option ℤ) → (p : Parsed) × (parse_single o ≡ some p)
single_ends none = (invalid, refl)
single_ends (some n) = (numbers (n ∷ []), refl)

parts_end :
    (fuel : ℕ) (parts : List Text)
    → 2 ^ 64 ≤ fuel
    → IsEnding parts
    → (p : Parsed) × (parse_parts fuel parts ≡ some p)
parts_end fuel [] enough h = (invalid, refl)
parts_end fuel (one ∷ []) enough h = single_ends (parse_int (trim_space one))
parts_end fuel (low ∷ high ∷ []) enough h =
    bounds_end fuel (parse_int (trim_space low)) (parse_int (trim_space high)) enough
      (parse_int-AllIn (trim_space low)) (parse_int-AllIn (trim_space high)) h
parts_end fuel (a ∷ b ∷ c ∷ rest) enough h = (invalid, refl)

then_ends :
    (is : List ℤ) (o : Option Parsed)
    → (p : Parsed) × (o ≡ some p)
    → (q : Parsed) × (then_parsed is o ≡ some q)
then_ends is o (numbers js, e) = (numbers (is ++ js), ap (then_parsed is) e)
then_ends is o (invalid, e) = (invalid, ap (then_parsed is) e)

-- The rest of the loop, after what the first entry gave.
first_ends :
    (fuel : ℕ) (entry : Text) (entries : List Text) (p : Parsed)
    → parse_parts fuel (split b'-' entry) ≡ some p
    → (r : Parsed) × (parse_entries fuel entries ≡ some r)
    → (q : Parsed) × (parse_entries fuel (entry ∷ entries) ≡ some q)
unfolding parse_entries
first_ends fuel entry entries invalid e rest = (invalid, rw (parse_entries, e) refl)
first_ends fuel entry entries (numbers is) e rest =
    let (q, h) = then_ends is (parse_entries fuel entries) rest in (q, rw (parse_entries, e) h)

entries_end :
    (fuel : ℕ) (entries : List Text)
    → 2 ^ 64 ≤ fuel
    → All (λ entry. IsEnding (split b'-' entry)) entries
    → (p : Parsed) × (parse_entries fuel entries ≡ some p)
unfolding parse_entries
entries_end fuel [] enough h = (numbers [], refl)
entries_end fuel (entry ∷ entries) enough (h, hs) =
    let (p, e) = parts_end fuel (split b'-' entry) enough h in
    first_ends fuel entry entries p e (entries_end fuel entries enough hs)

-- The entries of a text.
abbrev pub entries_of : Text → List Text
entries_of s = split b',' (trim_space s)

-- `ParseRangeNumbers` ends, with numbers or with an error, for every text in which no range ends at the
-- largest int64: 2^64 rounds are enough for each range.
pub parse_range_numbers-ends :
    (fuel : ℕ) (s : Text)
    → 2 ^ 64 ≤ fuel
    → All (λ entry. IsEnding (split b'-' entry)) (entries_of s)
    → (p : Parsed) × (parse_range_numbers fuel s ≡ some p)
unfolding parse_range_numbers
parse_range_numbers-ends fuel s enough h = entries_end fuel (entries_of s) enough h

-- If the first entry is a range up to the largest int64, `ParseRangeNumbers` never ends, however many
-- rounds its loop makes: the counter wraps around to the smallest int64.
pub parse_range_numbers-goes_on :
    (fuel : ℕ) (s entry low high : Text) (entries : List Text) (min : ℤ)
    → entries_of s ≡ entry ∷ entries
    → split b'-' entry ≡ low ∷ high ∷ []
    → parse_int (trim_space low) ≡ some min
    → parse_int (trim_space high) ≡ some (pos max_int64)
    → parse_range_numbers fuel s ≡ none
unfolding parse_range_numbers parse_entries
parse_range_numbers-goes_on fuel s entry low high entries min first parts from to =
    rw
      (
        parse_range_numbers,
        first,
        parse_entries,
        parts,
        from,
        to,
        not_above min in_min,
        count_up-goes_on fuel min in_min,
      )
      refl
  where
    in_min : IsInt64 min
    in_min = subst AllIn from (parse_int-AllIn (trim_space low))
