-- ===== src/Nathole/Records/Fair.antt =====
-- Every behaviour gets its turn: what repeated calls of `Recommand` of pkg/nathole/analysis.go find.
use mathlib.Core.Option.{some_inj}
use mathlib.Core.Logic.{∥∥₁_elim}
use native.Mathlib.Bridge.{le_prop}
use mathlib.Core.List.{Mem, mem-cons_self, mem-cons_of_mem, Memᴰ}
use chml_frp_frp.Prelude.{
  ℕ, zero, suc, ◌+◌, ◌-◌, ◌≤◌, ◌<◌, ◌≡◌, refl, sym, ◌∙◌, ap, subst, true, false, Option, some, List,
  [], ◌∷◌, ◌==◌, ==_iff, length, get_elem?, ℤ, pos, pos_part, neg_part, ◌≤ℤ◌, All, arith, int_laws,
  -ℤ_parts, Bool-cases, inl, inr,
}
use chml_frp_frp.Nathole.Records.{
  Lo, IsLo, BehaviorScore, MakeHoleRecords, score_of, positions_from, lower_at, max_score,
  recommand,
}

-- The calls at some times, with the entries that they find.
unfoldable pub recommands : Lo → List ℕ → MakeHoleRecords → List (ℕ × ℕ) × MakeHoleRecords
unfolding recommand
recommands lo [] r = ([], r)
recommands lo (now ∷ times) r =
    let (entry, next) = recommand lo now r in
    let (entries, after) = recommands lo times next in (entry ∷ entries, after)

-- By how much a score is ahead of another, counted from one for an equal score.
abbrev pub gap : ℤ → ℤ → ℕ
gap s x = suc (pos_part x + neg_part s) - (pos_part s + neg_part x)

abbrev pub ahead : ℤ → List BehaviorScore → ℕ
ahead s [] = 0
ahead s (x ∷ xs) = gap s x.score + ahead s xs

ahead-lower_at :
    (s : ℤ) (xs : List BehaviorScore) (m : ℕ) (y : BehaviorScore)
    → get_elem? xs m ≡ some y
    → s ≤ℤ y.score
    → ahead s (lower_at m xs) + 1 ≡ ahead s xs
ahead-lower_at s [] m y h le = absurd (cc)
ahead-lower_at s (x ∷ xs) zero y h le =
    let same : x ≡ y = some_inj.0 h in
    let le' : s ≤ℤ x.score = subst (λ (z : BehaviorScore). s ≤ℤ z.score) (sym same) le in
    omega (int_laws, -ℤ_parts x.score (pos 1))
ahead-lower_at s (x ∷ xs) (suc m) y h le = omega (arith, ahead-lower_at s xs m y h le)

ahead-pos :
    (xs : List BehaviorScore) (i : ℕ) (x : BehaviorScore)
    → get_elem? xs i ≡ some x
    → 0 < ahead x.score xs
ahead-pos [] i x h = absurd (cc)
ahead-pos (y ∷ xs) zero x h =
    let same : y ≡ x = some_inj.0 h in
    let own : pos_part y.score ≡ pos_part x.score =
      ap (λ (z : BehaviorScore). pos_part z.score) same in
    let own' : neg_part y.score ≡ neg_part x.score =
      ap (λ (z : BehaviorScore). neg_part z.score) same in
    omega arith
ahead-pos (y ∷ xs) (suc i) x h = omega (arith, ahead-pos xs i x h)

get_elem?-lower_at :
    (xs : List BehaviorScore) (m i : ℕ)
    → (i == m) ≡ false
    → get_elem? (lower_at m xs) i ≡ get_elem? xs i
get_elem?-lower_at [] m i h = refl
get_elem?-lower_at (x ∷ xs) zero zero h = absurd (ground arith)
get_elem?-lower_at (x ∷ xs) zero (suc i) h = refl
get_elem?-lower_at (x ∷ xs) (suc m) zero h = refl
get_elem?-lower_at (x ∷ xs) (suc m) (suc i) h = get_elem?-lower_at xs m i (ground arith)

-- A property of all positions holds of the position of an entry.
All-positions {κ} :
    (P : ℕ → Type κ) (k : ℕ) (xs : List BehaviorScore) (i j : ℕ) (x : BehaviorScore)
    → j ≡ k + i
    → All P (positions_from k xs)
    → get_elem? xs i ≡ some x
    → P j
All-positions P k [] i j x e ps h = absurd (cc)
All-positions P k (y ∷ xs) zero j x e (p, ps) h = subst P (omega arith) p
All-positions P k (y ∷ xs) (suc i) j x e (p, ps) h =
    All-positions P (suc k) xs i j x (omega arith) ps h

All-positions_lt :
    (k : ℕ) (xs : List BehaviorScore) (n : ℕ)
    → k + length xs ≤ n
    → All (λ m. m < n) (positions_from k xs)
All-positions_lt k [] n h = tt
All-positions_lt k (x ∷ xs) n h = (omega arith, All-positions_lt (suc k) xs n (omega arith))

Mem-All_lt : (m n : ℕ) (xs : List ℕ) → All (λ k. k < n) xs → Mem m xs → m < n
Mem-All_lt m n xs ps h = ∥∥₁_elim h le_prop (λ d. at xs ps d)
  where
    at : (ys : List ℕ) → All (λ k. k < n) ys → Memᴰ m ys → m < n
    at [] ps d = elim d [ ]
    at (y ∷ ys) (p, ps) (Memᴰ.head e) = omega arith
    at (y ∷ ys) (p, ps) (Memᴰ.tail d) = at ys ps d

get_elem?-lt {ℓ} :
    {A : Type ℓ} (xs : List A) (i : ℕ) → i < length xs → (a : A) × (get_elem? xs i ≡ some a)
get_elem?-lt [] i h = absurd (omega arith)
get_elem?-lt (x ∷ xs) zero h = (x, refl)
get_elem?-lt (x ∷ xs) (suc i) h = get_elem?-lt xs i (omega arith)

module _ (lo : Lo) (law : IsLo lo) where
  -- The entry that `Recommand` finds in a list with an entry.
  pub record Best (scores : List BehaviorScore) : Type 0 where
    pub place : ℕ
    pub best : BehaviorScore
    pub found : max_score lo scores ≡ some place
    pub at_place : get_elem? scores place ≡ some best
    pub highest : (i : ℕ) (x : BehaviorScore) → get_elem? scores i ≡ some x → x.score ≤ℤ best.score

  pub scores-Best : (s : BehaviorScore) (rest : List BehaviorScore) → Best (s ∷ rest)
  scores-Best s rest =
      let scores = s ∷ rest in
      let (m, found, member, top) =
        law.max_by_cons (λ i. score_of (get_elem? scores i)) 0 (positions_from 1 rest) in
      let inside =
        Mem-All_lt m (length scores) _ (All-positions_lt 0 scores _ (omega arith)) member in
      let (best, at) = get_elem?-lt scores m inside in
      record {
        place = m;
        best = best;
        found = found;
        at_place = at;
        highest = λ i x h.
            subst (λ (o : Option BehaviorScore). score_of o ≤ℤ best.score) h
              (subst (λ (o : Option BehaviorScore). score_of (get_elem? scores i) ≤ℤ score_of o) at
                (All-positions (λ k. score_of (get_elem? scores k) ≤ℤ score_of (get_elem? scores m))
                  0 scores i i x (omega arith) top h));
      }

  -- One call, by the entry that it finds.
  pub recommand-Best :
      (now : ℕ) (r : MakeHoleRecords) (b : Best r.scores)
      → recommand lo now r ≡ (
        (b.best.mode, b.best.index),
        record { scores = lower_at b.place r.scores; last_update_time = now },
      )
  unfolding recommand
  recommand-Best now r b = rw (recommand, b.found, b.at_place) refl

  Best-of_entry :
      (scores : List BehaviorScore) (i : ℕ) (x : BehaviorScore)
      → get_elem? scores i ≡ some x
      → Best scores
  Best-of_entry [] i x h = absurd (cc)
  Best-of_entry (s ∷ rest) i x h = scores-Best s rest

  -- An entry is found within as many calls as the scores are ahead of its own, if no success is
  -- reported in between: no behaviour is left out for ever.
  pub recommands-finds :
      (times : List ℕ) (r : MakeHoleRecords) (i : ℕ) (x : BehaviorScore)
      → get_elem? r.scores i ≡ some x
      → ahead x.score r.scores ≤ length times
      → Mem (x.mode, x.index) (recommands lo times r).0
  unfolding recommands
  recommands-finds [] r i x h enough = absurd (omega (arith, ahead-pos r.scores i x h))
  recommands-finds (now ∷ times) r i x h enough =
      rw (recommand-Best now r b) (elim (Bool-cases (i == b.place)) [
        | inl e ↦
            subst
              (λ (z : BehaviorScore). Mem {A = ℕ × ℕ} (x.mode, x.index) ((z.mode, z.index) ∷ later))
              (same e) mem-cons_self
        | inr e ↦
            mem-cons_of_mem (b.best.mode, b.best.index)
              (recommands-finds times next i x (get_elem?-lower_at r.scores b.place i e ∙ h) (
                omega (
                  arith,
                  ahead-lower_at x.score r.scores b.place b.best b.at_place (b.highest i x h),
                )))
      ])
    where
      b : Best r.scores
      b = Best-of_entry r.scores i x h

      next : MakeHoleRecords
      next = record { scores = lower_at b.place r.scores; last_update_time = now }

      later : List (ℕ × ℕ)
      later = (recommands lo times next).0

      same : (i == b.place) ≡ true → x ≡ b.best
      same e = some_inj.0 (sym h ∙ ap (get_elem? r.scores) ((==_iff i b.place).0 e) ∙ b.at_place)
