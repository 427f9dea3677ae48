-- ===== src/Nathole/Records/Total.antt =====
-- The scores of pkg/nathole/analysis.go together: each call of `Recommand` takes one from their sum,
-- and nothing keeps them from below.
use chml_frp_frp.Prelude.{
  ℕ, zero, suc, ◌+◌, ◌*◌, ◌<◌, ◌≤◌, ◌≡◌, refl, ap, ◌∙◌, some, List, [], ◌∷◌, length, get_elem?, ℤ,
  pos, negsuc, pos_part, neg_part, ◌+ℤ◌, ◌≤ℤ◌, All, arith, int_laws, +ℤ_assoc, +ℤ_suc, +ℤ_zero,
}
use chml_frp_frp.Nathole.Records.{Lo, IsLo, BehaviorScore, MakeHoleRecords, lower_at}
use chml_frp_frp.Nathole.Records.Fair.{recommands, Best, scores-Best, recommand-Best}

abbrev pub total : List BehaviorScore → ℤ
total [] = pos 0
total (s ∷ rest) = s.score +ℤ total rest

total-lower_at :
    (xs : List BehaviorScore) (m : ℕ) (y : BehaviorScore)
    → get_elem? xs m ≡ some y
    → total (lower_at m xs) +ℤ pos 1 ≡ total xs
total-lower_at [] m y h = absurd (cc)
total-lower_at (x ∷ xs) zero y h = omega int_laws
total-lower_at (x ∷ xs) (suc m) y h =
    +ℤ_assoc x.score (total (lower_at m xs)) (pos 1)
    ∙ ap (λ t. x.score +ℤ t) (total-lower_at xs m y h)

length-lower_at : (xs : List BehaviorScore) (m : ℕ) → length (lower_at m xs) ≡ length xs
length-lower_at [] m = refl
length-lower_at (x ∷ xs) zero = refl
length-lower_at (x ∷ xs) (suc m) = ap suc (length-lower_at xs m)

-- No score is below -10.
abbrev pub AllAbove : List BehaviorScore → Type 0
AllAbove = All (λ s. negsuc 9 ≤ℤ s.score)

total-AllAbove :
    (xs : List BehaviorScore)
    → AllAbove xs
    → neg_part (total xs) ≤ pos_part (total xs) + 10 * length xs
total-AllAbove [] h = omega arith
total-AllAbove (x ∷ xs) (p, ps) = let ih = total-AllAbove xs ps in omega int_laws

few_calls :
    (t a : ℤ) (n : ℕ) {c d : ℕ}
    → t +ℤ pos n ≡ a
    → c ≡ d
    → neg_part t ≤ pos_part t + 10 * c
    → pos n ≤ℤ a +ℤ pos (10 * d)
few_calls t a n sum size low = let p = ap pos_part sum in let q = ap neg_part sum in omega int_laws

module _ (lo : Lo) (law : IsLo lo) where
  recommands-total_lem :
      (times : List ℕ) (r : MakeHoleRecords)
      → 0 < length r.scores
      → (total (recommands lo times r).1.scores +ℤ pos (length times) ≡ total r.scores)
        × (length (recommands lo times r).1.scores ≡ length r.scores)
  unfolding recommands
  recommands-total_lem [] r h = (+ℤ_zero (total r.scores), refl)
  recommands-total_lem (now ∷ times) r h =
      let b = some_best r.scores h in
      let (sum, size) =
        recommands-total_lem times
          (record { scores = lower_at b.place r.scores; last_update_time = now })
          (omega (arith, length-lower_at r.scores b.place)) in
      let once = total-lower_at r.scores b.place b.best b.at_place in
      rw (recommand-Best lo law now r b) (
        +ℤ_suc _ (length times) ∙ ap (λ t. t +ℤ pos 1) sum ∙ once,
        size ∙ length-lower_at r.scores b.place,
      )
    where
      some_best : (scores : List BehaviorScore) → 0 < length scores → Best lo law scores
      some_best [] h = elim h [ ]
      some_best (s ∷ rest) h = scores-Best lo law s rest

  -- From records with an entry, each call without a report of a success takes one from the sum of the
  -- scores. So if no score is below -10 after some calls, these were at most as many as the sum of the
  -- scores before them and ten for each entry: with more calls, a score falls below -10.
  pub recommands-total :
      (times : List ℕ) (r : MakeHoleRecords)
      → 0 < length r.scores
      → (total (recommands lo times r).1.scores +ℤ pos (length times) ≡ total r.scores)
        × (AllAbove (recommands lo times r).1.scores
            → pos (length times) ≤ℤ total r.scores +ℤ pos (10 * length r.scores))
  recommands-total times r h =
      let (sum, size) = recommands-total_lem times r h in
      (sum, λ above. few_calls _ _ (length times) sum size (total-AllAbove _ above))
