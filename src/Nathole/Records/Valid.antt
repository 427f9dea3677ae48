-- ===== src/Nathole/Records/Valid.antt =====
-- The invariant of the records of pkg/nathole/analysis.go: each entry stands in a table, and its score
-- is at most 10.
use chml_frp_frp.Prelude.{
  ℕ, zero, suc, ◌+◌, ◌<◌, ◌≡◌, sym, subst, inl, inr, Bool, true, false, List, [], ◌∷◌, ◌++◌, ◌&&◌,
  ◌==◌, length, if◌then◌else◌, ℤ, pos, ◌+ℤ◌, ◌≤ℤ◌, ltb_ℤ, All, All-append, All-at, List-cases,
  arith, int_laws, Bool-cases,
}
use chml_frp_frp.Nathole.Behavior.{Behaviors, get_behavior_by_mode}
use chml_frp_frp.Nathole.Classify.{NatFeature, Counts, classify_feature_count}
use chml_frp_frp.Nathole.Records.{
  Lo, IsLo, BehaviorScore, MakeHoleRecords, scores_from, get_behavior_scores_by_mode2,
  get_behavior_scores_by_mode, mode0_scores, scores_for, new_make_hole_records, is_entry,
  raise_entry, report_success, is_sender, lower_at, recommand,
}
use chml_frp_frp.Nathole.Records.Fair.{Best, scores-Best, recommand-Best}

pub record IsEntry (s : BehaviorScore) : Type 0 where
  pub in_table : s.index < length (get_behavior_by_mode s.mode)
  pub at_most_10 : s.score ≤ℤ pos 10

abbrev pub AllEntries : MakeHoleRecords → Type 0
AllEntries r = All IsEntry r.scores

if-All {ℓ κ} :
    {A : Type ℓ} (P : A → Type κ) (b : Bool) (xs ys : List A)
    → All P xs
    → All P ys
    → All P (if b then xs else ys)
if-All P true xs ys h k = h
if-All P false xs ys h k = k

scores_from-IsEntry :
    (mode : ℕ) (a b : ℤ) (i : ℕ) (table : Behaviors)
    → a ≤ℤ pos 10
    → b ≤ℤ pos 10
    → i + length table ≡ length (get_behavior_by_mode mode)
    → All IsEntry (scores_from mode a b i table)
scores_from-IsEntry mode a b i [] ha hb h = tt
scores_from-IsEntry mode a b i ((first, second) ∷ table) ha hb h = (
  record {
    in_table = omega arith;
    at_most_10 = elim (Bool-cases (is_sender first.role)) [ inl e ↦ rw e ha | inr e ↦ rw e hb ];
  },
  scores_from-IsEntry mode a b (suc i) table ha hb (omega arith),
)

scores2-IsEntry :
    (mode : ℕ) (a b : ℤ)
    → a ≤ℤ pos 10
    → b ≤ℤ pos 10
    → All IsEntry (get_behavior_scores_by_mode2 mode a b)
unfolding get_behavior_scores_by_mode2
scores2-IsEntry mode a b ha hb =
    scores_from-IsEntry mode a b 0 (get_behavior_by_mode mode) ha hb (omega arith)

scores-IsEntry : (mode : ℕ) (a : ℤ) → a ≤ℤ pos 10 → All IsEntry (get_behavior_scores_by_mode mode a)
unfolding get_behavior_scores_by_mode
scores-IsEntry mode a h = scores2-IsEntry mode a a h h

mode0_scores-IsEntry : (c v : NatFeature) → All IsEntry (mode0_scores c v)
mode0_scores-IsEntry c v =
    if-All IsEntry c.public_network _ _
      (scores2-IsEntry 0 (pos 0) (pos 1) (omega arith) (omega arith))
      (if-All IsEntry v.public_network _ _
        (scores2-IsEntry 0 (pos 1) (pos 0) (omega arith) (omega arith))
        (scores-IsEntry 0 (pos 0) (omega arith)))

scores_for-IsEntry :
    (n : Counts) (mode0 : List BehaviorScore) → All IsEntry mode0 → All IsEntry (scores_for n mode0)
scores_for-IsEntry n mode0 h = elim (Bool-cases (n.easy_count == 2)) [
  | inl e ↦ rw e h
  | inr e0 ↦ elim (Bool-cases (n.hard_count == 1 && n.ports_changed_regular_count == 1)) [
    | inl e ↦ rw (e0, e) (All-append IsEntry _ _ (All-append IsEntry _ _ (from 1) (from 2)) h)
    | inr e1 ↦ elim (Bool-cases (n.hard_count == 1 && n.ports_changed_regular_count == 0)) [
      | inl e ↦ rw (e0, e1, e) (All-append IsEntry _ _ (All-append IsEntry _ _ (from 2) (from 1)) h)
      | inr e2 ↦ elim (Bool-cases (n.hard_count == 2 && n.ports_changed_regular_count == 2)) [
        | inl e ↦ rw (e0, e1, e2, e) (All-append IsEntry _ _ (from 3) (from 4))
        | inr e3 ↦ elim (Bool-cases (n.hard_count == 2 && n.ports_changed_regular_count == 1)) [
          | inl e ↦ rw (e0, e1, e2, e3, e) (from 4)
          | inr e4 ↦ rw (e0, e1, e2, e3, e4) tried_out
        ]
      ]
    ]
  ]
]
  where
    from : (mode : ℕ) → All IsEntry (get_behavior_scores_by_mode mode (pos 0))
    from mode = scores-IsEntry mode (pos 0) (omega arith)

    ahead : (mode : ℕ) → All IsEntry (get_behavior_scores_by_mode mode (pos 1))
    ahead mode = scores-IsEntry mode (pos 1) (omega arith)

    tried_out : All IsEntry (
        get_behavior_scores_by_mode 0 (pos 1)
        ++ get_behavior_scores_by_mode 1 (pos 1)
        ++ get_behavior_scores_by_mode 3 (pos 1))
    tried_out = All-append IsEntry _ _ (All-append IsEntry _ _ (ahead 0) (ahead 1)) (ahead 3)

pub new_make_hole_records-AllEntries :
    (c v : NatFeature) (now : ℕ) → AllEntries (new_make_hole_records c v now)
unfolding new_make_hole_records
new_make_hole_records-AllEntries c v now =
    scores_for-IsEntry (classify_feature_count (c ∷ v ∷ [])) (mode0_scores c v)
      (mode0_scores-IsEntry c v)

lower_at-IsEntry : (i : ℕ) (xs : List BehaviorScore) → All IsEntry xs → All IsEntry (lower_at i xs)
lower_at-IsEntry i [] h = tt
lower_at-IsEntry zero (x ∷ xs) (p, ps) =
    (record { in_table = p.in_table; at_most_10 = omega (int_laws, p.at_most_10) }, ps)
lower_at-IsEntry (suc i) (x ∷ xs) (p, ps) = (p, lower_at-IsEntry i xs ps)

module _ (lo : Lo) (law : IsLo lo) where
  raise_entry-IsEntry :
      (mode index : ℕ) (xs : List BehaviorScore)
      → All IsEntry xs
      → All IsEntry (raise_entry lo mode index xs)
  raise_entry-IsEntry mode index [] h = tt
  raise_entry-IsEntry mode index (x ∷ xs) (p, ps) =
      if-All IsEntry (is_entry mode index x) _ _
        (record { in_table = p.in_table; at_most_10 = rw law.min_pair least }, ps)
        (p, raise_entry-IsEntry mode index xs ps)
    where
      least : (if ltb_ℤ (pos 10) (x.score +ℤ pos 2) then pos 10 else x.score +ℤ pos 2) ≤ℤ pos 10
      least = elim (Bool-cases (ltb_ℤ (pos 10) (x.score +ℤ pos 2))) [
        | inl e ↦ rw e (omega arith)
        | inr e ↦ rw e (ground arith)
      ]

  pub report_success-AllEntries :
      (mode index now : ℕ) (r : MakeHoleRecords)
      → AllEntries r
      → AllEntries (report_success lo mode index now r)
  unfolding report_success
  report_success-AllEntries mode index now r h = raise_entry-IsEntry mode index r.scores h

  -- What `Recommand` finds stands in a table, and the records keep their invariant.
  pub recommand-AllEntries :
      (now : ℕ) (r : MakeHoleRecords)
      → AllEntries r
      → ((recommand lo now r).0.1 < length (get_behavior_by_mode (recommand lo now r).0.0))
        × AllEntries (recommand lo now r).1
  unfolding recommand
  recommand-AllEntries now r h = elim (List-cases r.scores) [
    | inl e ↦ rw (recommand, e, law.max_by_nil) (omega arith, h)
    | inr (s, rest, e) ↦
        let b : Best lo law r.scores = subst (Best lo law) (sym e) (scores-Best lo law s rest) in
        rw (recommand-Best lo law now r b) (best_entry b, lower_at-IsEntry b.place r.scores h)
  ]
    where
      best_entry :
          (b : Best lo law r.scores) → b.best.index < length (get_behavior_by_mode b.best.mode)
      best_entry b = (All-at IsEntry r.scores b.place h b.at_place).in_table
