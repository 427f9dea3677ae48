-- ===== src/Metric/DateCounter/Laws.antt =====
-- The counter against what it promises: the amount that was counted on each of the last days.
use chml_frp_frp.Prelude.{
  ℕ, zero, suc, ◌+◌, ◌-◌, ◌*◌, ◌/◌, ◌≤◌, ◌<◌, ◌≡◌, refl, sym, ap, ◌∙◌, ◌⊎◌, inl, inr, List, [], ◌∷◌,
  some, arith, ◌==◌, if◌then◌else◌, length, get_elem?, take, replicate, length-append,
  length-replicate, length-take, get_elem?-append_left, get_elem?-append_right, get_elem?-replicate,
  get_elem?-take,
}
use mathlib.Core.Option
use native.Mathlib.Decide.{dec_lt}
use chml_frp_frp.Metric.DateCounter.{DateCounter, shift_counts, rotate_by, rotate, change_head}

-- The counter holds the amounts `amount` of the days up to `day`, where each day begins a whole
-- number of days after the origin of time.
pub record Holds (c : DateCounter) (day : ℕ) (amount : ℕ → ℕ) : Type 0 where
  pub reserved : 0 < c.reserve_days
  pub sized : length c.counts ≡ c.reserve_days
  pub stamped : c.last_update ≡ day * 86400
  pub entry : (k j : ℕ) → k + j ≡ day → k < c.reserve_days → get_elem? c.counts k ≡ some (amount j)
  pub future : (j : ℕ) → day < j → amount j ≡ 0

module _ (days reserve : ℕ) (counts : List ℕ) (sized : length counts ≡ reserve)
    (fits : days < reserve) where
  length-shift_counts : length (shift_counts days reserve counts) ≡ reserve
  unfolding shift_counts
  length-shift_counts = omega (
    arith,
    length-append (replicate days 0) (take (reserve - days) counts),
    length-replicate {A = ℕ} days 0,
    length-take (reserve - days) counts (omega arith),
  )

  shift_counts_new : (k : ℕ) → k < days → get_elem? (shift_counts days reserve counts) k ≡ some 0
  unfolding shift_counts
  shift_counts_new k h =
      get_elem?-append_left (replicate days 0) _ k (omega (arith, length-replicate {A = ℕ} days 0))
      ∙ get_elem?-replicate days k 0 h

  shift_counts_old :
      (k i : ℕ)
      → k ≡ days + i
      → k < reserve
      → get_elem? (shift_counts days reserve counts) k ≡ get_elem? counts i
  unfolding shift_counts
  shift_counts_old k i e h =
      get_elem?-append_right (replicate days 0) (take (reserve - days) counts) k i
        (omega (arith, length-replicate {A = ℕ} days 0))
      ∙ get_elem?-take (reserve - days) i counts (omega arith)

-- The days that passed between two midnights.
days_between : (d e : ℕ) → (e * 86400 - d * 86400) / 86400 ≡ e - d
days_between d e = omega arith

module _ (c : DateCounter) (d e : ℕ) (amount : ℕ → ℕ) (holds : Holds c d amount)
    (later : d ≤ e) where
  rotate_stamped : rotate (e * 86400) c ≡ rotate_by (e - d) (e * 86400) c
  unfolding rotate
  rotate_stamped = ap (λ (n : ℕ). rotate_by n (e * 86400) c) (omega (arith, holds.stamped))

  shifted : DateCounter
  shifted = record c {
    counts = shift_counts (e - d) c.reserve_days c.counts;
    last_update = e * 86400;
  }

  cleared : DateCounter
  cleared = record c { counts = replicate c.reserve_days 0; last_update = e * 86400 }

  rotate_by_cases :
      ((d ≡ e) × (rotate_by (e - d) (e * 86400) c ≡ record c { last_update = e * 86400 }))
      ⊎ ((c.reserve_days ≤ e - d) × (rotate_by (e - d) (e * 86400) c ≡ cleared))
      ⊎ ((e - d < c.reserve_days) × (rotate_by (e - d) (e * 86400) c ≡ shifted))
  unfolding rotate_by cleared shifted
  rotate_by_cases = ground arith

  cleared-Holds : c.reserve_days ≤ e - d → Holds cleared e amount
  unfolding cleared
  cleared-Holds far = record {
    reserved = holds.reserved;
    sized = length-replicate c.reserve_days 0;
    stamped = refl;
    entry = λ k j at fits.
        get_elem?-replicate c.reserve_days k 0 fits
        ∙ ap (λ (n : ℕ). some n) (sym (holds.future j (omega arith)));
    future = λ j h. holds.future j (omega arith);
  }

  shifted_entry :
      (k j : ℕ)
      → k + j ≡ e
      → k < c.reserve_days
      → e - d < c.reserve_days
      → get_elem? shifted.counts k ≡ some (amount j)
  unfolding shifted
  shifted_entry k j at fits near = elim (dec_lt k (e - d)) [
    | yes new ↦
        shift_counts_new (e - d) c.reserve_days c.counts holds.sized near k new
        ∙ ap (λ (n : ℕ). some n) (sym (holds.future j (omega arith)))
    | no old ↦
        shift_counts_old (e - d) c.reserve_days c.counts holds.sized near k (k - (e - d))
          (omega arith) fits
        ∙ holds.entry (k - (e - d)) j (omega arith) (omega arith)
  ]

  shifted-Holds : e - d < c.reserve_days → Holds shifted e amount
  shifted-Holds near = record {
    reserved = unfold shifted in holds.reserved;
    sized = unfold shifted in length-shift_counts (e - d) c.reserve_days c.counts holds.sized near;
    stamped = unfold shifted in refl;
    entry = λ k j at fits. shifted_entry k j at (unfold shifted in fits) near;
    future = λ j h. holds.future j (omega arith);
  }

  same_day : d ≡ e → Holds (record c { last_update = e * 86400 }) e amount
  same_day same = record {
    reserved = holds.reserved;
    sized = holds.sized;
    stamped = refl;
    entry = λ k j at fits. holds.entry k j (omega arith) fits;
    future = λ j h. holds.future j (omega arith);
  }

  pub rotate-Holds : Holds (rotate (e * 86400) c) e amount
  rotate-Holds = rw rotate_stamped (elim rotate_by_cases [
    | inl (same, eq) ↦ rw eq (same_day same)
    | inr (inl (far, eq)) ↦ rw eq (cleared-Holds far)
    | inr (inr (near, eq)) ↦ rw eq (shifted-Holds near)
  ])

-- The amounts after a change on one day.
abbrev pub changed : ℕ → (ℕ → ℕ) → (ℕ → ℕ) → ℕ → ℕ
changed day f amount j = if j == day then f (amount j) else amount j

length-change_head : (f : ℕ → ℕ) (ns : List ℕ) → length (change_head f ns) ≡ length ns
length-change_head f [] = refl
length-change_head f (n ∷ ns) = refl

change_head_first :
    (f : ℕ → ℕ) (ns : List ℕ) (n : ℕ)
    → get_elem? ns 0 ≡ some n
    → get_elem? (change_head f ns) 0 ≡ some (f n)
change_head_first f [] n h = cc
change_head_first f (m ∷ ns) n h = ap (λ o. Option.map f o) h

change_head_other :
    (f : ℕ → ℕ) (ns : List ℕ) (k : ℕ) → get_elem? (change_head f ns) (suc k) ≡ get_elem? ns (suc k)
change_head_other f [] k = refl
change_head_other f (n ∷ ns) k = refl

pub change_head-Holds :
    (f : ℕ → ℕ) (c : DateCounter) (day : ℕ) (amount : ℕ → ℕ)
    → Holds c day amount
    → Holds (record c { counts = change_head f c.counts }) day (changed day f amount)
change_head-Holds f c day amount holds = record {
  reserved = holds.reserved;
  sized = length-change_head f c.counts ∙ holds.sized;
  stamped = holds.stamped;
  entry = entry;
  future = λ j h. ground (arith, holds.future j);
}
  where
    entry :
        (k j : ℕ)
        → k + j ≡ day
        → k < c.reserve_days
        → get_elem? (change_head f c.counts) k ≡ some (changed day f amount j)
    entry zero j at fits =
        change_head_first f c.counts (amount j) (holds.entry zero j at fits) ∙ ground arith
    entry (suc k) j at fits =
        change_head_other f c.counts k ∙ holds.entry (suc k) j at fits ∙ ground arith
