-- ===== src/Util/Version/Order.antt =====
-- The order of versions, pkg/util/version/version.go.
use chml_frp_frp.Prelude.{
  ◌≡◌, ◌≢◌, ◌↔◌, ◌⊎◌, inl, inr, refl, sym, subst, Bool, true, false, ℤ, ltb_ℤ, eq_of_parts, arith,
  if◌then◌else◌, Bool-cases, code_points, pos, ◌+◌, pos_part, neg_part,
}
use chml_frp_frp.Client.Admin.Config.{Text}
use chml_frp_frp.Util.Version.{proto, major, minor, less_than, compat}

abbrev pub Below : ℤ → ℤ → Type 0
Below a b = ltb_ℤ a b ≡ true

-- The lexicographic order of three numbers.
abbrev pub Lex : ℤ × ℤ × ℤ → ℤ × ℤ × ℤ → Type 0
Lex (a, b, c) (d, e, f) = Below a d ⊎ ((a ≡ d) × Below b e) ⊎ ((a ≡ d) × (b ≡ e) × Below c f)

abbrev pub numbers_of : Text → ℤ × ℤ × ℤ
numbers_of v = (proto v, major v, minor v)

-- What two comparisons say.
data Compared (a b : ℤ) : Type 0 where
  above : ltb_ℤ b a ≡ true → ltb_ℤ a b ≡ false → a ≢ b → Compared a b
  below : ltb_ℤ b a ≡ false → ltb_ℤ a b ≡ true → a ≢ b → Compared a b
  equal : ltb_ℤ b a ≡ false → ltb_ℤ a b ≡ false → a ≡ b → Compared a b

differ : (a b : ℤ) → Below a b → a ≢ b
differ a b h e = let p = subst (λ c. Below c b) e h in absurd (ground arith)

same_parts :
    (a b : ℤ)
    → ltb_ℤ a b ≡ false
    → ltb_ℤ b a ≡ false
    → pos_part a + neg_part b ≡ pos_part b + neg_part a
same_parts a b h k = ground arith

not_both : (a b : ℤ) → Below a b → ltb_ℤ b a ≡ false
not_both a b h = ground arith

compared : (a b : ℤ) → Compared a b
compared a b = elim (Bool-cases (ltb_ℤ b a)) [
  | inl up ↦ above up (not_both b a up) (λ e. differ b a up (sym e))
  | inr not_up ↦ elim (Bool-cases (ltb_ℤ a b)) [
    | inl down ↦ below not_up down (differ a b down)
    | inr not_down ↦ equal not_up not_down (eq_of_parts a b (same_parts a b not_down not_up))
  ]
]

-- The comparison by steps, on any numbers.
abbrev steps : ℤ → ℤ → Bool → Bool
steps a b rest = if ltb_ℤ b a then false else if ltb_ℤ a b then true else rest

steps_lem :
    (a b : ℤ) (rest : Bool) → (steps a b rest ≡ true) ↔ (Below a b ⊎ ((a ≡ b) × (rest ≡ true)))
steps_lem a b rest = elim (compared a b) [
  | above up not_down apart ↦
      rw up (λ h. absurd (cc), λ o. elim o [ inl d ↦ absurd (cc) | inr p ↦ absurd (apart p.0) ])
  | below not_up down apart ↦ rw (not_up, down) (λ h. inl refl, λ o. refl)
  | equal not_up not_down same ↦
      rw (not_up, not_down) (λ h. inr (same, h), λ o. elim o [ inl d ↦ absurd (cc) | inr p ↦ p.1 ])
]

steps-Lex :
    (a b c d e f : ℤ) → (steps a d (steps b e (steps c f false)) ≡ true) ↔ Lex (a, b, c) (d, e, f)
steps-Lex a b c d e f =
    let top = steps_lem a d (steps b e (steps c f false)) in
    let middle = steps_lem b e (steps c f false) in
    let last = steps_lem c f false in
    (
      λ h. elim (top.0 h) [
        | inl x ↦ inl x
        | inr p ↦ elim (middle.0 p.1) [
          | inl y ↦ inr (inl (p.0, y))
          | inr q ↦ elim (last.0 q.1) [ inl z ↦ inr (inr (p.0, q.0, z)) | inr r ↦ absurd (cc) ]
        ]
      ],
      λ h. elim h [
        | inl x ↦ top.1 (inl x)
        | inr o ↦ elim o [
          | inl p ↦ top.1 (inr (p.0, middle.1 (inl p.1)))
          | inr p ↦ top.1 (inr (p.0, middle.1 (inr (p.1, last.1 (inl p.2)))))
        ]
      ],
    )

-- A version is less than another just if its three numbers are, in lexicographic order.
pub less_than-Lex :
    (client server : Text)
    → (less_than client server ≡ true) ↔ Lex (numbers_of client) (numbers_of server)
unfolding less_than
less_than-Lex client server =
    steps-Lex (proto client) (major client) (minor client) (proto server) (major server)
      (minor server)

-- A client is refused just if its three numbers come before 0, 18 and 0.
pub compat-Refused :
    (client : Text) → (compat client ≡ false) ↔ Lex (numbers_of client) (pos 0, pos 18, pos 0)
unfolding compat
compat-Refused client =
    let order = less_than-Lex client (code_points "0.18.0") in
    elim (Bool-cases (less_than client (code_points "0.18.0"))) [
      | inl is ↦ rw is (λ h. order.0 is, λ h. refl)
      | inr is ↦ rw is (λ h. absurd (cc), λ h. let less = order.1 h in absurd (cc))
    ]
