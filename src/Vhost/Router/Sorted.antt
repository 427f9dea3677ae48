-- ===== src/Vhost/Router/Sorted.antt =====
-- Lists of routers in descending order of their locations, with the insertion that sorting comes to.
use chml_frp_frp.Prelude.{
  ◌≡◌, refl, sym, ap, subst, ◌∙◌, true, false, not, List, [], ◌∷◌, ◌++◌, inl, inr, arith, keep,
  Bool-cases,
}
use chml_frp_frp.Vhost.Router.{Bytes, bytes_eq, bytes_lt, Router, insert, sort, is_listed}
use chml_frp_frp.Vhost.Router.Bytes.{
  bytes_eq_refl, bytes_lt_trans, bytes_lt_asym, bytes_lt_total, bytes_eq_swap,
}

module _ {ℓ} {Payload : Type ℓ} where
  abbrev pub Below : Bytes → List (Router Payload) → Type 0
  Below l [] = Unit
  Below l (x ∷ xs) = (bytes_lt x.location l ≡ true) × Below l xs

  -- Each location is greater than all that follow it.
  abbrev pub Descends : List (Router Payload) → Type 0
  Descends [] = Unit
  Descends (x ∷ xs) = Below x.location xs × Descends xs

  Below-trans :
      (l m : Bytes) (xs : List (Router Payload)) → bytes_lt l m ≡ true → Below l xs → Below m xs
  Below-trans l m [] h b = tt
  Below-trans l m (x ∷ xs) h b = (bytes_lt_trans x.location l m b.0 h, Below-trans l m xs h b.1)

  insert-Below :
      (l : Bytes) (n : Router Payload) (xs : List (Router Payload))
      → bytes_lt n.location l ≡ true
      → Below l xs
      → Below l (insert n xs)
  insert-Below l n [] h b = (h, tt)
  insert-Below l n (x ∷ xs) h b = elim (Bool-cases (bytes_lt x.location n.location)) [
    | inl e ↦ rw e (h, b)
    | inr e ↦ rw e (b.0, insert-Below l n xs h b.1)
  ]

  insert_greatest :
      (n : Router Payload) (xs : List (Router Payload)) → Below n.location xs → insert n xs ≡ n ∷ xs
  insert_greatest n [] b = refl
  insert_greatest n (x ∷ xs) b = rw (b.0)

  -- A new location comes before or after another one.
  pub is_below :
      (n x : Router Payload) (xs : List (Router Payload))
      → is_listed n.location (x ∷ xs) ≡ false
      → bytes_lt x.location n.location ≡ false
      → bytes_lt n.location x.location ≡ true
  is_below n x xs new h = bytes_lt_total x.location n.location h (ground arith)

  pub tail_new :
      (n x : Router Payload) (xs : List (Router Payload))
      → is_listed n.location (x ∷ xs) ≡ false
      → is_listed n.location xs ≡ false
  tail_new n x xs new = ground arith

  -- Sorting a sorted list with a router at its end inserts the router.
  pub sort_append :
      (n : Router Payload) (xs : List (Router Payload))
      → Descends xs
      → is_listed n.location xs ≡ false
      → sort (xs ++ n ∷ []) ≡ insert n xs
  sort_append n [] d new = refl
  sort_append n (x ∷ xs) d new =
      ap (insert x) (sort_append n xs d.1 (tail_new n x xs new))
      ∙ elim (Bool-cases (bytes_lt x.location n.location)) [
        | inl e ↦
            ap (insert x) (insert_greatest n xs (Below-trans x.location n.location xs e d.0))
            ∙ rw (bytes_lt_asym x.location n.location e, e, insert_greatest x xs d.0)
        | inr e ↦
            insert_greatest x (insert n xs)
              (insert-Below x.location n xs (is_below n x xs new e) d.0)
            ∙ rw e
      ]

  pub insert-Descends :
      (n : Router Payload) (xs : List (Router Payload))
      → Descends xs
      → is_listed n.location xs ≡ false
      → Descends (insert n xs)
  insert-Descends n [] d new = (tt, tt)
  insert-Descends n (x ∷ xs) d new = elim (Bool-cases (bytes_lt x.location n.location)) [
    | inl e ↦ rw e ((e, Below-trans x.location n.location xs e d.0), d)
    | inr e ↦ rw e (
      insert-Below x.location n xs (is_below n x xs new e) d.0,
      insert-Descends n xs d.1 (tail_new n x xs new),
    )
  ]

  -- The routers that `Del` keeps.
  abbrev pub others : Bytes → List (Router Payload) → List (Router Payload)
  others l xs = keep (λ vr. not (bytes_eq vr.location l)) xs

  others_kept :
      (m : Bytes) (x : Router Payload) (xs : List (Router Payload))
      → bytes_eq x.location m ≡ false
      → others m (x ∷ xs) ≡ x ∷ others m xs
  others_kept m x xs e = ground arith

  others_dropped :
      (m : Bytes) (x : Router Payload) (xs : List (Router Payload))
      → bytes_eq x.location m ≡ true
      → others m (x ∷ xs) ≡ others m xs
  others_dropped m x xs e = ground arith

  others-Below : (l m : Bytes) (xs : List (Router Payload)) → Below l xs → Below l (others m xs)
  others-Below l m [] b = tt
  others-Below l m (x ∷ xs) b = elim (Bool-cases (bytes_eq x.location m)) [
    | inl e ↦ subst (Below l) (sym (others_dropped m x xs e)) (others-Below l m xs b.1)
    | inr e ↦ subst (Below l) (sym (others_kept m x xs e)) (b.0, others-Below l m xs b.1)
  ]

  pub others-Descends :
      (m : Bytes) (xs : List (Router Payload)) → Descends xs → Descends (others m xs)
  others-Descends m [] d = tt
  others-Descends m (x ∷ xs) d = elim (Bool-cases (bytes_eq x.location m)) [
    | inl e ↦ subst Descends (sym (others_dropped m x xs e)) (others-Descends m xs d.1)
    | inr e ↦
        subst Descends (sym (others_kept m x xs e))
          (others-Below x.location m xs d.0, others-Descends m xs d.1)
  ]

  -- Without the router that was inserted, the list is the old one.
  pub others_unlisted :
      (m : Bytes) (xs : List (Router Payload)) → is_listed m xs ≡ false → others m xs ≡ xs
  others_unlisted m [] new = refl
  others_unlisted m (x ∷ xs) new =
      others_kept m x xs (bytes_eq_swap m x.location (ground arith))
      ∙ ap (λ (l : List (Router Payload)). x ∷ l) (others_unlisted m xs (ground arith))

  pub others-insert :
      (n : Router Payload) (xs : List (Router Payload))
      → is_listed n.location xs ≡ false
      → others n.location (insert n xs) ≡ xs
  others-insert n [] new = others_dropped n.location n [] (bytes_eq_refl n.location)
  others-insert n (x ∷ xs) new = elim (Bool-cases (bytes_lt x.location n.location)) [
    | inl e ↦
        ap (others n.location) {y = n ∷ x ∷ xs} (rw e refl)
        ∙ others_dropped n.location n (x ∷ xs) (bytes_eq_refl n.location)
        ∙ others_unlisted n.location (x ∷ xs) new
    | inr e ↦
        ap (others n.location) {y = x ∷ insert n xs} (rw e refl)
        ∙ others_kept n.location x (insert n xs)
            (bytes_eq_swap n.location x.location (ground arith))
        ∙ ap (λ (l : List (Router Payload)). x ∷ l) (others-insert n xs (tail_new n x xs new))
  ]
