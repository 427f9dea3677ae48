-- ===== src/Nathole/Analyzer/Roles.antt =====
-- The two ends of a hole punch get roles that fit together, pkg/nathole/analysis.go.
use mathlib.Core.Option.{some_inj}
use chml_frp_frp.Prelude.{
  ℕ, String, ◌<◌, ◌≡◌, refl, sym, ◌∙◌, subst, inl, inr, Bool, true, false, not, Option, none, some,
  List, [], ◌∷◌, length, str_eq, ◌==◌, Bool-cases, Option-cases,
}
use chml_frp_frp.Nathole.Behavior.{get_behavior_by_mode, get_behavior_by_mode_and_index}
use chml_frp_frp.Nathole.Behavior.Tables.{
  Pair, FirstSends, SecondSends, OneSends, mode1_FirstSends, mode2_FirstSends, mode4_FirstSends,
  at_place, all_OneSends,
}
use chml_frp_frp.Nathole.Classify.{easy_nat, hard_nat, NatFeature}
use chml_frp_frp.Nathole.Records.{Lo, IsLo, MakeHoleRecords}
use chml_frp_frp.Nathole.Records.Valid.{
  AllEntries, new_make_hole_records-AllEntries, report_success-AllEntries, recommand-AllEntries,
}
use chml_frp_frp.Client.Manager.{set_name}
use chml_frp_frp.Nathole.Analyzer.{
  Analyzer, new_analyzer, is_easy, swap_if, arrange, Recommended, records_or_new, recommended,
  get_recommand_behaviors, report_to, is_stale, clean_key, clean_keys, clean,
}

-- Who sends, for the client `c`: one end does; in mode 1 it is the client unless its network is easy,
-- in mode 2 it is the client only if its network is easy, and in mode 4 if its ports change regularly.
pub record Roles (c : NatFeature) (r : Recommended) : Type 0 where
  pub one_sends : OneSends (r.c_behavior, r.v_behavior)
  pub mode1_hard : r.mode ≡ 1 → c.nat_type ≡ hard_nat → FirstSends (r.c_behavior, r.v_behavior)
  pub mode1_easy : r.mode ≡ 1 → c.nat_type ≡ easy_nat → SecondSends (r.c_behavior, r.v_behavior)
  pub mode2_hard : r.mode ≡ 2 → c.nat_type ≡ hard_nat → SecondSends (r.c_behavior, r.v_behavior)
  pub mode2_easy : r.mode ≡ 2 → c.nat_type ≡ easy_nat → FirstSends (r.c_behavior, r.v_behavior)
  pub mode4_regular :
      r.mode ≡ 4 → c.regular_ports_change ≡ true → FirstSends (r.c_behavior, r.v_behavior)
  pub mode4_other :
      r.mode ≡ 4 → c.regular_ports_change ≡ false → SecondSends (r.c_behavior, r.v_behavior)

swap_if-OneSends : (b : Bool) (pair : Pair) → OneSends pair → OneSends (swap_if b pair)
swap_if-OneSends true pair (inl (a, b)) = inr (b, a)
swap_if-OneSends true pair (inr (a, b)) = inl (b, a)
swap_if-OneSends false pair h = h

arrange-OneSends :
    (mode : ℕ) (c : NatFeature) (pair : Pair) → OneSends pair → OneSends (arrange mode c pair)
arrange-OneSends mode c pair h = elim (Bool-cases (mode == 1)) [
  | inl e ↦ rw e (swap_if-OneSends (is_easy c.nat_type) pair h)
  | inr e1 ↦ elim (Bool-cases (mode == 2)) [
    | inl e ↦ rw (e1, e) (swap_if-OneSends (not (is_easy c.nat_type)) pair h)
    | inr e2 ↦ elim (Bool-cases (mode == 4)) [
      | inl e ↦ rw (e1, e2, e) (swap_if-OneSends (not c.regular_ports_change) pair h)
      | inr e4 ↦ rw (e1, e2, e4) h
    ]
  ]
]

turned : (pair : Pair) → FirstSends pair → SecondSends (pair.1, pair.0)
turned pair (sends, receives) = (receives, sends)

recommended-Roles :
    (c : NatFeature) (mode index : ℕ)
    → index < length (get_behavior_by_mode mode)
    → Roles c (recommended c (mode, index))
recommended-Roles c mode index inside = record {
  one_sends =
      arrange-OneSends mode c (get_behavior_by_mode_and_index mode index)
        (at_place OneSends mode index (all_OneSends mode) inside);
  mode1_hard = λ e h. rw (e, h) (first1 e);
  mode1_easy = λ e h. rw (e, h) (turned (get_behavior_by_mode_and_index 1 index) (first1 e));
  mode2_hard = λ e h. rw (e, h) (turned (get_behavior_by_mode_and_index 2 index) (first2 e));
  mode2_easy = λ e h. rw (e, h) (first2 e);
  mode4_regular = λ e h. rw (e, h) (first4 e);
  mode4_other = λ e h. rw (e, h) (turned (get_behavior_by_mode_and_index 4 index) (first4 e));
}
  where
    inside_at : (m : ℕ) → mode ≡ m → index < length (get_behavior_by_mode m)
    inside_at m e = subst (λ (k : ℕ). index < length (get_behavior_by_mode k)) e inside

    first1 : mode ≡ 1 → FirstSends (get_behavior_by_mode_and_index 1 index)
    first1 e = at_place FirstSends 1 index mode1_FirstSends (inside_at 1 e)

    first2 : mode ≡ 2 → FirstSends (get_behavior_by_mode_and_index 2 index)
    first2 e = at_place FirstSends 2 index mode2_FirstSends (inside_at 2 e)

    first4 : mode ≡ 4 → FirstSends (get_behavior_by_mode_and_index 4 index)
    first4 e = at_place FirstSends 4 index mode4_FirstSends (inside_at 4 e)

-- Every entry that the analyzer keeps stands in a table, and its score is at most 10.
abbrev pub IsValid : Analyzer → Type 0
IsValid a = (key : String) (r : MakeHoleRecords) → a.records key ≡ some r → AllEntries r

set_name-IsValid :
    (k : String) (o : Option MakeHoleRecords) (a : Analyzer)
    → IsValid a
    → ((r : MakeHoleRecords) → o ≡ some r → AllEntries r)
    → IsValid (record a { records = set_name k o a.records })
set_name-IsValid k o a v new key r found = elim (Bool-cases (str_eq key k)) [
  | inl e ↦ new r (sym (rw e refl) ∙ found)
  | inr e ↦ v key r (sym (rw e refl) ∙ found)
]

clean_key-IsValid :
    (now : ℕ) (k : String) (a : Analyzer) → IsValid a → IsValid (clean_key now k a).1
clean_key-IsValid now k a v = elim (Option-cases (a.records k)) [
  | inl e ↦ rw (clean_key, e) v
  | inr (r, e) ↦ elim (Bool-cases (is_stale now a r)) [
    | inl stale ↦ rw (clean_key, e, stale) (set_name-IsValid k none a v (λ q h. absurd (cc)))
    | inr fresh ↦ rw (clean_key, e, fresh) v
  ]
]

clean_keys-IsValid :
    (now : ℕ) (keys : List String) (a : Analyzer) → IsValid a → IsValid (clean_keys now keys a).1
clean_keys-IsValid now [] a v = v
clean_keys-IsValid now (k ∷ keys) a v =
    clean_keys-IsValid now keys (clean_key now k a).1 (clean_key-IsValid now k a v)

module _ (lo : Lo) where
  pub data Step (a : Analyzer) : Analyzer → Type 0 where
    recommends :
        (key : String) (c v : NatFeature) (now : ℕ)
        → Step a (get_recommand_behaviors lo key c v now a).1
    reports : (key : String) (mode index now : ℕ) → Step a (report_to lo key mode index now a)
    cleans : (now : ℕ) (keys : List String) → Step a (clean now keys a).1

  pub data Reachable : Analyzer → Type 0 where
    begins : (duration : ℕ) → Reachable (new_analyzer duration)
    goes_on : {a b : Analyzer} → Reachable a → Step a b → Reachable b

  module _ (law : IsLo lo) where
    found_AllEntries :
        (key : String) (c v : NatFeature) (now : ℕ) (a : Analyzer)
        → IsValid a
        → AllEntries (records_or_new c v now (a.records key))
    found_AllEntries key c v now a valid = elim (Option-cases (a.records key)) [
      | inl e ↦ rw e (new_make_hole_records-AllEntries c v now)
      | inr (r, e) ↦ rw e (valid key r e)
    ]

    Step-IsValid : {a b : Analyzer} → Step a b → IsValid a → IsValid b
    unfolding get_recommand_behaviors report_to clean
    Step-IsValid {a} (recommends key c v now) valid = set_name-IsValid key _ a valid (λ r e.
        subst AllEntries (some_inj.0 e)
          (recommand-AllEntries lo law now _ (found_AllEntries key c v now a valid)).1)
    Step-IsValid {a} (reports key mode index now) valid = elim (Option-cases (a.records key)) [
      | inl e ↦ rw (report_to, e) valid
      | inr (r, e) ↦
          rw (report_to, e)
            (set_name-IsValid key _ a valid (λ q h.
              subst AllEntries (some_inj.0 h)
                (report_success-AllEntries lo law mode index now r (valid key r e))))
    ]
    Step-IsValid {a} (cleans now keys) valid = clean_keys-IsValid now keys a valid

    -- In every analyzer that the calls reach, each entry stands in the table of its mode, with a score
    -- of at most 10.
    pub Reachable-IsValid : (a : Analyzer) → Reachable a → IsValid a
    unfolding new_analyzer
    Reachable-IsValid a r = valid_of r
      where
        valid_of : {b : Analyzer} → Reachable b → IsValid b
        valid_of (begins duration) = λ key q h. absurd (cc)
        valid_of (goes_on before step) = Step-IsValid step (valid_of before)

    -- In every analyzer that the calls reach, a recommendation makes one end the sender and the other
    -- the receiver, whatever networks the ends report now and reported before. In mode 1 the client
    -- sends unless its network is easy, in mode 2 only if it is, and in mode 4 if its ports change
    -- regularly.
    pub get_recommand_behaviors-Roles :
        (key : String) (c v : NatFeature) (now : ℕ) (a : Analyzer)
        → Reachable a
        → Roles c (get_recommand_behaviors lo key c v now a).0
    unfolding get_recommand_behaviors
    get_recommand_behaviors-Roles key c v now a r =
        recommended-Roles c _ _
          (recommand-AllEntries lo law now _
            (found_AllEntries key c v now a (Reachable-IsValid a r))).0
