-- ===== src/Client/Admin/Status/Sorted.antt =====
-- The lists that are sorted by a text.
use mathlib.Core.List.{Perm}
use mathlib.Core.List.Perm
use chml_frp_frp.Prelude.{String, ◌≡◌, false, inl, inr, List, [], ◌∷◌, All, Bool-cases, code_points}
use chml_frp_frp.Vhost.Router.Bytes.{bytes_lt_asym}
use chml_frp_frp.Client.Admin.Status.{text_lt, insert_by, sort_by}

-- Each key is not smaller than the one before it.
module _ {ℓ} {A : Type ℓ} (key : A → String) where
  abbrev pub Ascends : List A → Type 0
  Ascends [] = Unit
  Ascends (x ∷ []) = Unit
  Ascends (x ∷ y ∷ rest) = (text_lt (key y) (key x) ≡ false) × Ascends (y ∷ rest)

  pub insert_by-perm : (a : A) (xs : List A) → Perm (insert_by key a xs) (a ∷ xs)
  insert_by-perm a [] = Perm.refl (a ∷ [])
  insert_by-perm a (x ∷ xs) = elim (Bool-cases (text_lt (key x) (key a))) [
    | inl e ↦ rw e (Perm.trans (Perm.cons x (insert_by-perm a xs)) (Perm.swap a x xs))
    | inr e ↦ rw e (Perm.refl (a ∷ x ∷ xs))
  ]

  pub sort_by-perm : (xs : List A) → Perm (sort_by key xs) xs
  sort_by-perm [] = Perm.refl []
  sort_by-perm (x ∷ xs) =
      Perm.trans (insert_by-perm x (sort_by key xs)) (Perm.cons x (sort_by-perm xs))

  insert_by-Ascends : (a : A) (xs : List A) → Ascends xs → Ascends (insert_by key a xs)
  insert_by-Ascends a [] h = tt
  insert_by-Ascends a (x ∷ []) h = elim (Bool-cases (text_lt (key x) (key a))) [
    | inl e ↦ rw e (bytes_lt_asym (code_points (key x)) (code_points (key a)) e, tt)
    | inr e ↦ rw e (e, tt)
  ]
  insert_by-Ascends a (x ∷ y ∷ rest) h = elim (Bool-cases (text_lt (key x) (key a))) [
    | inl e ↦ elim (Bool-cases (text_lt (key y) (key a))) [
      | inl k ↦ let later = insert_by-Ascends a (y ∷ rest) h.1 in rw (e, k) (h.0, rw k at later)
      | inr k ↦ rw (e, k) (bytes_lt_asym (code_points (key x)) (code_points (key a)) e, (k, h.1))
    ]
    | inr e ↦ rw e (e, h)
  ]

  pub sort_by-Ascends : (xs : List A) → Ascends (sort_by key xs)
  sort_by-Ascends [] = tt
  sort_by-Ascends (x ∷ xs) = insert_by-Ascends x (sort_by key xs) (sort_by-Ascends xs)

module _ {ℓ κ} {A : Type ℓ} (key : A → String) (P : A → Type κ) where
  pub All-insert_by : (a : A) (xs : List A) → P a → All P xs → All P (insert_by key a xs)
  All-insert_by a [] p h = (p, tt)
  All-insert_by a (x ∷ xs) p h = elim (Bool-cases (text_lt (key x) (key a))) [
    | inl e ↦ rw e (h.0, All-insert_by a xs p h.1)
    | inr e ↦ rw e (p, h)
  ]

  pub All-sort_by : (xs : List A) → All P xs → All P (sort_by key xs)
  All-sort_by [] h = tt
  All-sort_by (x ∷ xs) h = All-insert_by x (sort_by key xs) h.0 (All-sort_by xs h.1)
