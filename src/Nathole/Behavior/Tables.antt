-- ===== src/Nathole/Behavior/Tables.antt =====
-- The roles in the tables of pkg/nathole/analysis.go.
use chml_frp_frp.Prelude.{
  ℕ, ◌<◌, ◌≡◌, refl, sym, ◌∙◌, Bool, true, false, ◌&&◌, ◌||◌, ◌⊎◌, inl, inr, some, List, [], ◌∷◌,
  length, get_elem?, All, arith, ◌==◌, Bool-cases, zero, suc,
}
use chml_frp_frp.Nathole.Behavior.{
  Role, RecommandBehavior, sender, receiver, mode0_behaviors, mode1_behaviors, mode2_behaviors,
  mode3_behaviors, mode4_behaviors, get_behavior_by_mode, get_behavior_by_mode_and_index,
}

abbrev pub Pair : Type 0
Pair = RecommandBehavior × RecommandBehavior

-- The first end sends and the second receives.
abbrev pub FirstSends : Pair → Type 0
FirstSends (a, b) = (a.role ≡ sender) × (b.role ≡ receiver)

abbrev pub SecondSends : Pair → Type 0
SecondSends (a, b) = (a.role ≡ receiver) × (b.role ≡ sender)

abbrev pub OneSends : Pair → Type 0
OneSends pair = FirstSends pair ⊎ SecondSends pair

pub All-get_elem? {ℓ κ} :
    {A : Type ℓ} (P : A → Type κ) (xs : List A) (i : ℕ)
    → All P xs
    → i < length xs
    → (a : A) × (get_elem? xs i ≡ some a) × P a
All-get_elem? P [] i h lt = absurd (omega arith)
All-get_elem? P (x ∷ xs) zero (p, ps) lt = (x, refl, p)
All-get_elem? P (x ∷ xs) (suc i) (p, ps) lt = All-get_elem? P xs i ps (omega arith)

abbrev first_sends : Role → Role → Bool
first_sends sender receiver = true
first_sends _ _ = false

first_sends_lem : (a b : Role) → first_sends a b ≡ true → (a ≡ sender) × (b ≡ receiver)
first_sends_lem a b h = ground arith

abbrev test_all : (Pair → Bool) → List Pair → Bool
test_all p [] = true
test_all p (x ∷ xs) = p x && test_all p xs

-- A test that holds of every pair of a table.
by_test :
    (P : Pair → Type 0) (p : Pair → Bool)
    → ((x : Pair) → p x ≡ true → P x)
    → (xs : List Pair) → test_all p xs ≡ true
    → All P xs
by_test P p sound [] h = tt
by_test P p sound (x ∷ xs) h = (sound x (ground arith), by_test P p sound xs (ground arith))

abbrev one_way : Pair → Bool
one_way (a, b) = first_sends a.role b.role

abbrev either_way : Pair → Bool
either_way (a, b) = first_sends a.role b.role || first_sends b.role a.role

one_way-FirstSends : (x : Pair) → one_way x ≡ true → FirstSends x
one_way-FirstSends (a, b) h = first_sends_lem a.role b.role h

either_way-OneSends : (x : Pair) → either_way x ≡ true → OneSends x
either_way-OneSends (a, b) h = elim (Bool-cases (first_sends a.role b.role)) [
  | inl e ↦ inl (first_sends_lem a.role b.role e)
  | inr e ↦
      let (second, first) = first_sends_lem b.role a.role (sym (rw e refl) ∙ h) in
      inr (first, second)
]

mode0_OneSends : All OneSends mode0_behaviors
mode0_OneSends = by_test OneSends either_way either_way-OneSends mode0_behaviors refl

mode3_OneSends : All OneSends mode3_behaviors
mode3_OneSends = by_test OneSends either_way either_way-OneSends mode3_behaviors refl

pub mode1_FirstSends : All FirstSends mode1_behaviors
mode1_FirstSends = by_test FirstSends one_way one_way-FirstSends mode1_behaviors refl

pub mode2_FirstSends : All FirstSends mode2_behaviors
mode2_FirstSends = by_test FirstSends one_way one_way-FirstSends mode2_behaviors refl

pub mode4_FirstSends : All FirstSends mode4_behaviors
mode4_FirstSends = by_test FirstSends one_way one_way-FirstSends mode4_behaviors refl

All-FirstSends : (pairs : List Pair) → All FirstSends pairs → All OneSends pairs
All-FirstSends [] h = tt
All-FirstSends (pair ∷ pairs) (p, ps) = (inl p, All-FirstSends pairs ps)

-- The pair at a place of the table of a mode has the property of the table.
pub at_place :
    (P : Pair → Type 0) (mode index : ℕ)
    → All P (get_behavior_by_mode mode)
    → index < length (get_behavior_by_mode mode)
    → P (get_behavior_by_mode_and_index mode index)
unfolding get_behavior_by_mode_and_index
at_place P mode index h inside =
    let (pair, found, p) = All-get_elem? P (get_behavior_by_mode mode) index h inside in rw found p

pub all_OneSends : (mode : ℕ) → All OneSends (get_behavior_by_mode mode)
all_OneSends mode = elim (Bool-cases (mode == 0)) [
  | inl e ↦ rw e mode0_OneSends
  | inr e0 ↦ elim (Bool-cases (mode == 1)) [
    | inl e ↦ rw (e0, e) (All-FirstSends mode1_behaviors mode1_FirstSends)
    | inr e1 ↦ elim (Bool-cases (mode == 2)) [
      | inl e ↦ rw (e0, e1, e) (All-FirstSends mode2_behaviors mode2_FirstSends)
      | inr e2 ↦ elim (Bool-cases (mode == 3)) [
        | inl e ↦ rw (e0, e1, e2, e) mode3_OneSends
        | inr e3 ↦ elim (Bool-cases (mode == 4)) [
          | inl e ↦ rw (e0, e1, e2, e3, e) (All-FirstSends mode4_behaviors mode4_FirstSends)
          | inr e4 ↦ rw (e0, e1, e2, e3, e4) mode0_OneSends
        ]
      ]
    ]
  ]
]
