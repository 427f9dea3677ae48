-- ===== src/Tests/Nathole.antt =====
-- Hole punching on concrete inputs, with functions in the place of those of samber/lo.
use mathlib.Core.List.{Mem, Memᴰ}
use chml_frp_frp.Prelude.{
  ℕ, String, ◌≡◌, refl, Bool, true, false, Option, none, some, List, [], ◌∷◌, length, ℤ, pos, ◌≤ℤ◌,
  ◌+ℤ◌, ◌-ℤ◌, ltb_ℤ, if◌then◌else◌, All, arith, Bool-cases, inl, inr, replicate, ◌*◌,
}
use chml_frp_frp.Nathole.Classify.{
  Address, feature, failed, bad_address, classify_nat_feature, NatFeature, easy_nat, hard_nat,
  no_change, port_changed,
}
use chml_frp_frp.Nathole.Classify.Kinds.{Kinds, classify_nat_feature-Kinds}
use chml_frp_frp.Nathole.Records.{Lo, IsLo, MakeHoleRecords, new_make_hole_records}
use chml_frp_frp.Nathole.Records.Fair.{recommands, recommands-finds}
use chml_frp_frp.Nathole.Records.Total.{total, AllAbove, recommands-total}
use chml_frp_frp.Nathole.Analyzer.{Analyzer, new_analyzer, get_recommand_behaviors}
use chml_frp_frp.Nathole.Analyzer.Roles.{
  Roles, Reachable, begins, goes_on, recommends, get_recommand_behaviors-Roles,
}

-- The first of the greatest members, as the loop of `MaxBy` finds it.
abbrev fold_max {ℓ} : {A : Type ℓ} → (A → A → Bool) → A → List A → A
fold_max cmp m [] = m
fold_max cmp m (x ∷ xs) = fold_max cmp (if cmp x m then x else m) xs

abbrev max_by {ℓ} : {A : Type ℓ} → (A → A → Bool) → List A → Option A
max_by cmp [] = none
max_by cmp (x ∷ xs) = some (fold_max cmp x xs)

abbrev min : List ℤ → ℤ
min [] = pos 0
min (x ∷ xs) = fold_max ltb_ℤ x xs

abbrev lo : Lo
lo = record { max_by = max_by; min = min }

abbrev above : (ℕ → ℤ) → ℕ → ℕ → Bool
above key item max = ltb_ℤ (key max) (key item)

fold_max-member : (key : ℕ → ℤ) (m : ℕ) (xs : List ℕ) → Memᴰ (fold_max (above key) m xs) (m ∷ xs)
fold_max-member key m [] = Memᴰ.head refl
fold_max-member key m (x ∷ xs) = elim (Bool-cases (above key x m)) [
  | inl e ↦ rw e (Memᴰ.tail (fold_max-member key x xs))
  | inr e ↦ rw e (skip (fold_max-member key m xs))
]
  where
    skip : {y : ℕ} → Memᴰ y (m ∷ xs) → Memᴰ y (m ∷ x ∷ xs)
    skip (Memᴰ.head h) = Memᴰ.head h
    skip (Memᴰ.tail d) = Memᴰ.tail (Memᴰ.tail d)

fold_max-top :
    (key : ℕ → ℤ) (m : ℕ) (xs : List ℕ)
    → All (λ y. key y ≤ℤ key (fold_max (above key) m xs)) (m ∷ xs)
fold_max-top key m [] = (omega arith, tt)
fold_max-top key m (x ∷ xs) =
    let next = if above key x m then x else m in
    let (p, ps) = fold_max-top key next xs in
    let (old, new) = both in (omega arith, (omega arith, ps))
  where
    both :
        (key m ≤ℤ key (if above key x m then x else m))
        × (key x ≤ℤ key (if above key x m then x else m))
    both = elim (Bool-cases (above key x m)) [
      | inl e ↦ rw e (ground arith)
      | inr e ↦ rw e (ground arith)
    ]

lo-IsLo : IsLo lo
lo-IsLo = record {
  max_by_nil = λ cmp. refl;
  max_by_cons = λ key x xs.
      (fold_max (above key) x xs, refl, ∣ fold_max-member key x xs ∣₁, fold_max-top key x xs);
  min_pair = λ a b. refl;
}

-- A client behind an easy network, and a visitor behind a hard one whose ports change regularly.
abbrev easy : NatFeature
easy = record {
  nat_type = easy_nat;
  behavior = no_change;
  ports_difference = 0;
  regular_ports_change = false;
  public_network = false;
}

abbrev hard : NatFeature
hard = record {
  nat_type = hard_nat;
  behavior = port_changed;
  ports_difference = 2;
  regular_ports_change = true;
  public_network = false;
}

abbrev analyzer : Analyzer
analyzer = (get_recommand_behaviors lo "a:b" easy hard 1 (new_analyzer 10)).1

analyzer-Reachable : Reachable lo analyzer
analyzer-Reachable = goes_on (begins 10) (recommends "a:b" easy hard 1)

get_recommand_behaviors-Roles_example :
    Roles easy (get_recommand_behaviors lo "a:b" easy hard 2 analyzer).0
get_recommand_behaviors-Roles_example =
    get_recommand_behaviors-Roles lo lo-IsLo "a:b" easy hard 2 analyzer analyzer-Reachable

abbrev records : MakeHoleRecords
records = new_make_hole_records easy hard 0

-- The first two recommendations are those of mode 1, for a hard network that sends.
records_run : (recommands lo (1 ∷ 2 ∷ []) records).0 ≡ (1, 0) ∷ (1, 1) ∷ []
unfolding recommands new_make_hole_records ◌-ℤ◌
records_run = refl

-- All 19 entries score alike: the last one is found within 19 calls.
recommands-finds_example : Mem (0, 9) (recommands lo (replicate 19 1) records).0
unfolding new_make_hole_records
recommands-finds_example =
    recommands-finds lo lo-IsLo (replicate 19 1) records 18
      (record { mode = 0; index = 9; score = pos 0 }) refl (omega arith)

recommands-total_example :
    (total (recommands lo (1 ∷ 2 ∷ []) records).1.scores +ℤ pos 2 ≡ total records.scores)
    × (AllAbove (recommands lo (1 ∷ 2 ∷ []) records).1.scores
        → pos 2 ≤ℤ total records.scores +ℤ pos (10 * length records.scores))
unfolding new_make_hole_records
recommands-total_example = recommands-total lo lo-IsLo (1 ∷ 2 ∷ []) records (omega arith)

-- Two addresses with one IP, whose ports are two apart.
abbrev at_port : String → ℕ → Address
at_port port n = record { ip = "1.2.3.4"; port = port; port_num = n }

classify_nat_feature-Kinds_example :
    (f : NatFeature) × (classify_nat_feature
        (λ _ _. false)
        []
        (some (at_port "5000" 5000) ∷ some (at_port "5002" 5002) ∷ [])
      ≡ feature f)
    × Kinds (at_port "5000" 5000) (at_port "5002" 5002 ∷ []) f
classify_nat_feature-Kinds_example =
    classify_nat_feature-Kinds (λ _ _. false) [] (at_port "5000" 5000) (at_port "5002" 5002) [] refl

classify_runs :
    (classify_nat_feature
        (λ _ _. false)
        []
        (some (at_port "5000" 5000) ∷ some (at_port "5002" 5002) ∷ [])
      ≡ feature (record hard { ports_difference = 2 }))
    × (classify_nat_feature (λ _ _. false) [] (some (at_port "5000" 5000) ∷ none ∷ [])
        ≡ failed bad_address)
unfolding classify_nat_feature
classify_runs = (refl, refl)
