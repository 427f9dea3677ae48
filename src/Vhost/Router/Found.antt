-- ===== src/Vhost/Router/Found.antt =====
-- What `Get` of pkg/util/vhost/router.go finds in a sorted list of routers.
use chml_frp_frp.Prelude.{
  ℕ, zero, suc, ◌≡◌, refl, Bool, true, false, Option, some, List, [], ◌∷◌, inl, inr, arith, All,
  Bool-cases, get_elem?,
}
use chml_frp_frp.Vhost.Router.{Bytes, has_prefix, Router, scan}
use chml_frp_frp.Vhost.Router.Bytes.{has_prefix-bytes_lt, has_prefix_refl}
use chml_frp_frp.Vhost.Router.Bytes.{bytes_lt-has_prefix}
use chml_frp_frp.Vhost.Router.{insert, bytes_lt, is_listed}
use chml_frp_frp.Vhost.Router.Sorted.{Below, Descends, is_below, tail_new}

-- What the loop of `Get` finds: the router at some position, whose location is a prefix of the path,
-- and of which each location in the list that is a prefix of the path is a prefix itself; or nothing,
-- where no location is a prefix of the path.
module _ {ℓ} {Payload : Type ℓ} (path : Bytes) where
  abbrev pub Longest : Router Payload → List (Router Payload) → Type 0
  Longest r xs =
      (has_prefix path r.location ≡ true)
      × All
          (λ (x : Router Payload).
            has_prefix path x.location ≡ true → has_prefix r.location x.location ≡ true)
          xs

  abbrev pub Found : Option (Router Payload) × Bool → List (Router Payload) → Type ℓ
  Found (vr, true) xs =
      (r : Router Payload) × (vr ≡ some r) × ((i : ℕ) × (get_elem? xs i ≡ some r)) × Longest r xs
  Found (vr, false) xs =
      (x : Router Payload) (i : ℕ) → get_elem? xs i ≡ some x → has_prefix path x.location ≡ false

  Below-Longest :
      (r : Router Payload) (xs : List (Router Payload))
      → has_prefix path r.location ≡ true
      → Below r.location xs
      → All
          (λ (x : Router Payload).
            has_prefix path x.location ≡ true → has_prefix r.location x.location ≡ true)
          xs
  Below-Longest r [] h b = tt
  Below-Longest r (x ∷ xs) h b =
      (λ k. has_prefix-bytes_lt path r.location x.location h k b.0, Below-Longest r xs h b.1)

  none_found :
      (x : Router Payload) (xs : List (Router Payload))
      → has_prefix path x.location ≡ false
      → ((y : Router Payload) (i : ℕ)
          → get_elem? xs i ≡ some y
          → has_prefix path y.location ≡ false)
      → (y : Router Payload) (i : ℕ) → get_elem? (x ∷ xs) i ≡ some y
      → has_prefix path y.location ≡ false
  none_found x xs h f y zero at = ground arith
  none_found x xs h f y (suc i) at = f y i at

  Found-cons :
      (x : Router Payload) (xs : List (Router Payload)) (o : Option (Router Payload) × Bool)
      → has_prefix path x.location ≡ false
      → Found o xs
      → Found o (x ∷ xs)
  Found-cons x xs (vr, true) h (r, e, (i, at), (fits, longest)) =
      (r, e, (suc i, at), (fits, ((λ k. absurd cc), longest)))
  Found-cons x xs (vr, false) h f = λ y i at. none_found x xs h f y i at

  pub scan-Found :
      (vr : Option (Router Payload)) (xs : List (Router Payload))
      → Descends xs
      → Found (scan path vr xs) xs
  scan-Found vr [] d = λ x i at. absurd cc
  scan-Found vr (x ∷ xs) d = elim (Bool-cases (has_prefix path x.location)) [
    | inl e ↦
        rw e
          (x, refl, (0, refl), (e, ((λ _. has_prefix_refl x.location), Below-Longest x xs e d.0)))
    | inr e ↦ rw e (Found-cons x xs (scan path (some x) xs) e (scan-Found (some x) xs d.1))
  ]

  -- A router is found by its own location, where it stands in its order.
  pub scan-insert :
      (vr : Option (Router Payload)) (n : Router Payload) (xs : List (Router Payload))
      → path ≡ n.location
      → is_listed n.location xs ≡ false
      → scan path vr (insert n xs) ≡ (some n, true)
  scan-insert vr n [] e new = rw (e, has_prefix_refl n.location)
  scan-insert vr n (x ∷ xs) e new = elim (Bool-cases (bytes_lt x.location n.location)) [
    | inl h ↦ rw (h, e, has_prefix_refl n.location)
    | inr h ↦
        rw (h, e, bytes_lt-has_prefix n.location x.location (is_below n x xs new h))
          (scan-insert (some x) n xs e (tail_new n x xs new))
  ]
