-- ===== src/Server/Register/Entries.antt =====
-- The map of the proxies of a client, as a list of entries with distinct names.
use mathlib.Core.Option.{some_inj}
use chml_frp_frp.Prelude.{
  ℕ, ◌+◌, ◌≤◌, String, ◌≡◌, refl, sym, ◌∙◌, subst, true, false, none, some, [], ◌∷◌, str_eq, eq_iff,
  eq_refl, if◌then◌else◌, arith, inl, inr, Bool-cases, Option-cases,
}
use chml_frp_frp.Client.Manager.{lookup}
use chml_frp_frp.Server.Register.{Entries, set_entry, delete_entry}

abbrev pub sum_ports : Entries → ℕ
sum_ports [] = 0
sum_ports ((k, n) ∷ rest) = n + sum_ports rest

abbrev pub Distinct : Entries → Type 0
Distinct [] = Unit
Distinct ((k, n) ∷ rest) = (lookup k rest ≡ none) × Distinct rest

pub sum_ports-delete_entry :
    (name : String) (es : Entries) (used : ℕ)
    → lookup name es ≡ some used
    → sum_ports (delete_entry name es) + used ≡ sum_ports es
sum_ports-delete_entry name [] used h = absurd (cc)
sum_ports-delete_entry name ((k, n) ∷ rest) used h = elim (Bool-cases (str_eq name k)) [
  | inl e ↦ rw e (let same : n ≡ used = some_inj.0 (sym (rw e refl) ∙ h) in omega arith)
  | inr e ↦ rw e (omega (arith, sum_ports-delete_entry name rest used (sym (rw e refl) ∙ h)))
]

pub sum_ports-set_entry :
    (name : String) (used : ℕ) (es : Entries)
    → lookup name es ≡ none
    → sum_ports (set_entry name used es) ≡ used + sum_ports es
sum_ports-set_entry name used [] h = refl
sum_ports-set_entry name used ((k, n) ∷ rest) h = elim (Bool-cases (str_eq name k)) [
  | inl e ↦ absurd (ground arith)
  | inr e ↦ rw e (omega (arith, sum_ports-set_entry name used rest (sym (rw e refl) ∙ h)))
]

-- An entry that was replaced does not count any more.
pub sum_ports-set_entry_le :
    (name : String) (used : ℕ) (es : Entries)
    → sum_ports (set_entry name used es) ≤ used + sum_ports es
sum_ports-set_entry_le name used [] = omega arith
sum_ports-set_entry_le name used ((k, n) ∷ rest) = elim (Bool-cases (str_eq name k)) [
  | inl e ↦ rw e (omega arith)
  | inr e ↦ rw e (omega (arith, sum_ports-set_entry_le name used rest))
]

apart_of : (a b k : String) → str_eq a k ≡ true → str_eq b k ≡ false → str_eq a b ≡ false
apart_of a b k h d = elim (Bool-cases (str_eq a b)) [
  | inl e ↦
      let same : str_eq b k ≡ true = (eq_iff b k).1 (sym ((eq_iff a b).0 e) ∙ (eq_iff a k).0 h) in
      absurd (cc)
  | inr e ↦ e
]

apart_from : (a b k : String) → str_eq b k ≡ true → str_eq a k ≡ false → str_eq a b ≡ false
apart_from a b k h d = subst (λ (n : String). str_eq a n ≡ false) (sym ((eq_iff b k).0 h)) d

-- Looking up after a change.
pub lookup-set_entry :
    (name other : String) (used : ℕ) (es : Entries)
    → lookup other (set_entry name used es)
      ≡ (if str_eq other name then some used else lookup other es)
lookup-set_entry name other used [] = refl
lookup-set_entry name other used ((k, n) ∷ rest) = elim (Bool-cases (str_eq name k)) [
  | inl e ↦ rw e (elim (Bool-cases (str_eq other k)) [
    | inl o ↦ rw (o, (eq_iff other name).1 ((eq_iff other k).0 o ∙ sym ((eq_iff name k).0 e))) refl
    | inr o ↦
        let apart : str_eq other name ≡ false = apart_from other name k e o in rw (o, apart) refl
  ])
  | inr e ↦ rw e (elim (Bool-cases (str_eq other k)) [
    | inl o ↦
        let apart : str_eq other name ≡ false = apart_of other name k o e in rw (o, apart) refl
    | inr o ↦ rw o (lookup-set_entry name other used rest)
  ])
]

pub lookup-delete_entry :
    (name other : String) (es : Entries) (used : ℕ)
    → Distinct es
    → lookup other (delete_entry name es) ≡ some used
    → (str_eq other name ≡ false) × (lookup other es ≡ some used)
lookup-delete_entry name other [] used d h = absurd (cc)
lookup-delete_entry name other ((k, n) ∷ rest) used (fresh, d) h =
    elim (Bool-cases (str_eq name k)) [
      | inl e ↦
          let found : lookup other rest ≡ some used = sym (rw e refl) ∙ h in
          elim (Bool-cases (str_eq other k)) [
            | inl o ↦
                let none_left : lookup other rest ≡ none =
                  subst (λ (n : String). lookup n rest ≡ none) (sym ((eq_iff other k).0 o)) fresh in
                absurd (cc)
            | inr o ↦ (apart_from other name k e o, rw o found)
          ]
      | inr e ↦
          let found : lookup other ((k, n) ∷ delete_entry name rest) ≡ some used =
            sym (rw e refl) ∙ h in
          elim (Bool-cases (str_eq other k)) [
            | inl o ↦ (apart_of other name k o e, rw o (sym (rw o refl) ∙ found))
            | inr o ↦
                let (apart, l) =
                  lookup-delete_entry name other rest used d (sym (rw o refl) ∙ found) in
                (apart, rw o l)
          ]
    ]

pub Distinct-set_entry :
    (name : String) (used : ℕ) (es : Entries) → Distinct es → Distinct (set_entry name used es)
Distinct-set_entry name used [] d = (refl, tt)
Distinct-set_entry name used ((k, n) ∷ rest) (fresh, d) = elim (Bool-cases (str_eq name k)) [
  | inl e ↦ rw e (fresh, d)
  | inr e ↦
      let apart : str_eq k name ≡ false = apart_of k name k (eq_refl k) e in
      rw e
        ((lookup-set_entry name k used rest ∙ rw apart fresh), Distinct-set_entry name used rest d)
]

pub Distinct-delete_entry :
    (name : String) (es : Entries) → Distinct es → Distinct (delete_entry name es)
Distinct-delete_entry name [] d = tt
Distinct-delete_entry name ((k, n) ∷ rest) (fresh, d) = elim (Bool-cases (str_eq name k)) [
  | inl e ↦ rw e d
  | inr e ↦ rw e (elim (Option-cases (lookup k (delete_entry name rest))) [
    | inl missing ↦ (missing, Distinct-delete_entry name rest d)
    | inr (used, found) ↦
        let (_, there) = lookup-delete_entry name k rest used d found in absurd (cc)
  ])
]
