-- ===== src/Nathole/Records.antt =====
-- pkg/nathole/analysis.go: the scores of the behaviours for one pair of ends. The functions `MaxBy`
-- and `Min` of samber/lo are parameters; the entries of the slice are pointers, so that what `MaxBy`
-- finds is the position of an entry. A time is a number.
pub mod Fair
pub mod Total
pub mod Valid
use chml_frp_frp.Prelude.{
  ℕ, zero, suc, ◌+◌, ◌≤◌, ◌<◌, ◌≡◌, Bool, true, false, ◌&&◌, Option, none, some, List, [], ◌∷◌,
  ◌++◌, ◌==◌, length, get_elem?, if◌then◌else◌, ℤ, pos, negsuc, ◌+ℤ◌, ◌-ℤ◌, ◌≤ℤ◌, ltb_ℤ, All,
}
use mathlib.Core.List.{Mem}
use chml_frp_frp.Nathole.Behavior.{Role, sender, RecommandBehavior, Behaviors, get_behavior_by_mode}
use chml_frp_frp.Nathole.Classify.{NatFeature, Counts, classify_feature_count}

-- What the code uses of samber/lo, on positions and on integers.
pub record Lo : Type 0 where
  pub max_by : (ℕ → ℕ → Bool) → List ℕ → Option ℕ
  pub min : List ℤ → ℤ

-- `MaxBy` finds nothing in an empty list, and in another one a member that none exceeds, where the
-- comparison is that of a key; `Min` is a least member.
pub record IsLo (lo : Lo) : Type 0 where
  pub max_by_nil : (cmp : ℕ → ℕ → Bool) → lo.max_by cmp [] ≡ none
  pub max_by_cons :
      (key : ℕ → ℤ) (x : ℕ) (xs : List ℕ)
      → (m : ℕ) × (lo.max_by (λ item max. ltb_ℤ (key max) (key item)) (x ∷ xs) ≡ some m)
        × Mem m (x ∷ xs)
        × All (λ y. key y ≤ℤ key m) (x ∷ xs)
  pub min_pair : (a b : ℤ) → lo.min (a ∷ b ∷ []) ≡ (if ltb_ℤ b a then b else a)

pub record BehaviorScore : Type 0 where
  pub mode : ℕ
  pub index : ℕ
  pub score : ℤ

pub record MakeHoleRecords : Type 0 where
  pub scores : List BehaviorScore
  pub last_update_time : ℕ

abbrev pub is_sender : Role → Bool
is_sender sender = true
is_sender _ = false

-- The loop of `getBehaviorScoresByMode2`, from the entry `i` on.
abbrev pub scores_from : ℕ → ℤ → ℤ → ℕ → Behaviors → List BehaviorScore
scores_from mode sender_score receiver_score i [] = []
scores_from mode sender_score receiver_score i ((a, b) ∷ rest) =
    record {
      mode = mode;
      index = i;
      score = if is_sender a.role then sender_score else receiver_score;
    }
    ∷ scores_from mode sender_score receiver_score (suc i) rest

unfoldable pub get_behavior_scores_by_mode2 : ℕ → ℤ → ℤ → List BehaviorScore
get_behavior_scores_by_mode2 mode sender_score receiver_score =
    scores_from mode sender_score receiver_score 0 (get_behavior_by_mode mode)

unfoldable pub get_behavior_scores_by_mode : ℕ → ℤ → List BehaviorScore
unfolding get_behavior_scores_by_mode2
get_behavior_scores_by_mode mode default_score =
    get_behavior_scores_by_mode2 mode default_score default_score

-- The scores of mode 0, which prefer an end on a public network as the receiver.
abbrev pub mode0_scores : NatFeature → NatFeature → List BehaviorScore
mode0_scores c v =
    if c.public_network
    then get_behavior_scores_by_mode2 0 (pos 0) (pos 1)
    else if v.public_network
    then get_behavior_scores_by_mode2 0 (pos 1) (pos 0)
    else get_behavior_scores_by_mode 0 (pos 0)

abbrev pub scores_for : Counts → List BehaviorScore → List BehaviorScore
scores_for n mode0 =
    if n.easy_count == 2
    then mode0
    else if n.hard_count == 1 && n.ports_changed_regular_count == 1
    then get_behavior_scores_by_mode 1 (pos 0) ++ get_behavior_scores_by_mode 2 (pos 0) ++ mode0
    else if n.hard_count == 1 && n.ports_changed_regular_count == 0
    then get_behavior_scores_by_mode 2 (pos 0) ++ get_behavior_scores_by_mode 1 (pos 0) ++ mode0
    else if n.hard_count == 2 && n.ports_changed_regular_count == 2
    then get_behavior_scores_by_mode 3 (pos 0) ++ get_behavior_scores_by_mode 4 (pos 0)
    else if n.hard_count == 2 && n.ports_changed_regular_count == 1
    then get_behavior_scores_by_mode 4 (pos 0)
    else get_behavior_scores_by_mode 0 (pos 1)
      ++ get_behavior_scores_by_mode 1 (pos 1)
      ++ get_behavior_scores_by_mode 3 (pos 1)

-- `NewMakeHoleRecords`
unfoldable pub new_make_hole_records : NatFeature → NatFeature → ℕ → MakeHoleRecords
unfolding get_behavior_scores_by_mode classify_feature_count
new_make_hole_records c v now = record {
  scores = scores_for (classify_feature_count (c ∷ v ∷ [])) (mode0_scores c v);
  last_update_time = now;
}

abbrev pub is_entry : ℕ → ℕ → BehaviorScore → Bool
is_entry mode index s = s.mode == mode && s.index == index

module _ (lo : Lo) where
  -- The loop of `ReportSuccess`, which ends at the first entry of the behaviour.
  abbrev pub raise_entry : ℕ → ℕ → List BehaviorScore → List BehaviorScore
  raise_entry mode index [] = []
  raise_entry mode index (s ∷ rest) =
      let others = raise_entry mode index rest in
      if is_entry mode index s
      then record s { score = lo.min ((s.score +ℤ pos 2) ∷ pos 10 ∷ []) } ∷ rest
      else s ∷ others

  -- `MakeHoleRecords.ReportSuccess`
  unfoldable pub report_success : ℕ → ℕ → ℕ → MakeHoleRecords → MakeHoleRecords
  report_success mode index now r = record {
    scores = raise_entry mode index r.scores;
    last_update_time = now;
  }

-- The score at a position.
abbrev pub score_of : Option BehaviorScore → ℤ
score_of none = pos 0
score_of (some s) = s.score

abbrev pub positions_from : ℕ → List BehaviorScore → List ℕ
positions_from i [] = []
positions_from i (s ∷ rest) = i ∷ positions_from (suc i) rest

-- `maxScore.Score--`
abbrev pub lower_at : ℕ → List BehaviorScore → List BehaviorScore
lower_at i [] = []
lower_at zero (s ∷ rest) = record s { score = s.score -ℤ pos 1 } ∷ rest
lower_at (suc i) (s ∷ rest) = s ∷ lower_at i rest

-- The mode and the index at a position.
abbrev pub entry_of : Option BehaviorScore → ℕ × ℕ
entry_of none = (0, 0)
entry_of (some s) = (s.mode, s.index)

module _ (lo : Lo) where
  abbrev pub max_score : List BehaviorScore → Option ℕ
  max_score scores =
      lo.max_by
        (λ item max. ltb_ℤ (score_of (get_elem? scores max)) (score_of (get_elem? scores item)))
        (positions_from 0 scores)

  -- `Recommand`, with the mode and the index.
  unfoldable pub recommand : ℕ → MakeHoleRecords → (ℕ × ℕ) × MakeHoleRecords
  recommand now r = elim (max_score r.scores) [
    | none ↦ ((0, 0), r)
    | some i ↦ (
      entry_of (get_elem? r.scores i),
      record { scores = lower_at i r.scores; last_update_time = now },
    )
  ]
