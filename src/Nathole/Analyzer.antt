-- ===== src/Nathole/Analyzer.antt =====
-- pkg/nathole/analysis.go: the analyzer, which keeps the records of each pair of ends.
pub mod Roles
use chml_frp_frp.Prelude.{
  ℕ, suc, ◌+◌, ◌-◌, String, Bool, true, false, not, Option, none, some, List, [], ◌∷◌, ltb, ◌==◌,
  str_eq, length, if◌then◌else◌,
}
use chml_frp_frp.Nathole.Behavior.{RecommandBehavior, get_behavior_by_mode_and_index}
use chml_frp_frp.Nathole.Classify.{NatType, easy_nat, hard_nat, NatFeature}
use chml_frp_frp.Nathole.Records.{
  Lo, MakeHoleRecords, new_make_hole_records, report_success, recommand,
}
use chml_frp_frp.Client.Manager.{set_name}

pub record Analyzer : Type 0 where
  pub records : String → Option MakeHoleRecords
  pub data_reserve_duration : ℕ

unfoldable pub new_analyzer : ℕ → Analyzer
new_analyzer duration = record { records = λ _. none; data_reserve_duration = duration }

abbrev pub is_easy : NatType → Bool
is_easy easy_nat = true
is_easy hard_nat = false

abbrev pub swap_if :
    Bool → RecommandBehavior × RecommandBehavior → RecommandBehavior × RecommandBehavior
swap_if swaps (a, b) = if swaps then (b, a) else (a, b)

-- The switch on the mode, for the client `c`.
abbrev pub arrange :
    ℕ → NatFeature → RecommandBehavior × RecommandBehavior → RecommandBehavior × RecommandBehavior
arrange mode c pair =
    if mode == 1
    then swap_if (is_easy c.nat_type) pair
    else if mode == 2
    then swap_if (not (is_easy c.nat_type)) pair
    else if mode == 4
    then swap_if (not c.regular_ports_change) pair
    else pair

pub record Recommended : Type 0 where
  pub mode : ℕ
  pub index : ℕ
  pub c_behavior : RecommandBehavior
  pub v_behavior : RecommandBehavior

abbrev pub records_or_new : NatFeature → NatFeature → ℕ → Option MakeHoleRecords → MakeHoleRecords
records_or_new c v now none = new_make_hole_records c v now
records_or_new c v now (some r) = r

-- The answer for a mode and an index.
abbrev pub recommended : NatFeature → ℕ × ℕ → Recommended
recommended c (mode, index) =
    let (first, second) = arrange mode c (get_behavior_by_mode_and_index mode index) in
    record { mode = mode; index = index; c_behavior = first; v_behavior = second }

module _ (lo : Lo) where
  -- `GetRecommandBehaviors`, for the client `c` and the visitor `v`.
  unfoldable pub get_recommand_behaviors :
      String → NatFeature → NatFeature → ℕ → Analyzer → Recommended × Analyzer
  unfolding new_make_hole_records recommand get_behavior_by_mode_and_index
  get_recommand_behaviors key c v now a =
      let (entry, after) = recommand lo now (records_or_new c v now (a.records key)) in
      (recommended c entry, record a { records = set_name key (some after) a.records })

  -- `Analyzer.ReportSuccess`
  unfoldable pub report_to : String → ℕ → ℕ → ℕ → Analyzer → Analyzer
  unfolding report_success
  report_to key mode index now a = elim (a.records key) [
    | none ↦ a
    | some r ↦ record a {
      records = set_name key (some (report_success lo mode index now r)) a.records;
    }
  ]

-- The test of the loop of `Clean`; time does not go back.
abbrev pub is_stale : ℕ → Analyzer → MakeHoleRecords → Bool
is_stale now a r = ltb a.data_reserve_duration (now - r.last_update_time)

-- A round of the loop of `Clean`, with whether it drops the records.
abbrev pub clean_key : ℕ → String → Analyzer → Bool × Analyzer
clean_key now k a = elim (a.records k) [
  | none ↦ (false, a)
  | some r ↦
      if is_stale now a r
      then (true, record a { records = set_name k none a.records })
      else (false, a)
]

abbrev pub clean_keys : ℕ → List String → Analyzer → ℕ × Analyzer
clean_keys now [] a = (0, a)
clean_keys now (k ∷ ks) a =
    let (dropped, next) = clean_key now k a in
    let (count, after) = clean_keys now ks next in (if dropped then suc count else count, after)

-- `Clean`, for the keys of the map: how many were dropped, and how many there were.
unfoldable pub clean : ℕ → List String → Analyzer → (ℕ × ℕ) × Analyzer
clean now keys a = let (count, after) = clean_keys now keys a in ((count, length keys), after)
