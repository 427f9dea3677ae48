-- ===== src/Client/Admin/Config/Lines.antt =====
-- Splitting a text into rows, joining rows, and trimming a row.
use chml_frp_frp.Prelude.{
  ℕ, ◌≡◌, refl, ap, ◌∙◌, false, List, [], ◌∷◌, ◌++◌, All, inl, inr, Bool-cases, ◌==◌,
}
use chml_frp_frp.Client.Admin.Config.{
  Text, newline, cons_first, split_lines, join_lines, is_space, trim_start, cons_unless_blank,
  trim_end, trim_space,
}

-- A row holds no end of line.
abbrev pub IsRow : Text → Type 0
IsRow row = All (λ (c : ℕ). (c == newline) ≡ false) row

cons_first-IsRow :
    (c : ℕ) (rows : List Text)
    → (c == newline) ≡ false
    → All IsRow rows
    → All IsRow (cons_first c rows)
cons_first-IsRow c [] e h = ((e, tt), tt)
cons_first-IsRow c (row ∷ rows) e h = ((e, h.0), h.1)

pub split_lines-IsRow : (s : Text) → All IsRow (split_lines s)
split_lines-IsRow [] = (tt, tt)
split_lines-IsRow (c ∷ s) = elim (Bool-cases (c == newline)) [
  | inl e ↦ rw e (tt, split_lines-IsRow s)
  | inr e ↦ rw e (cons_first-IsRow c (split_lines s) e (split_lines-IsRow s))
]

split_row : (row : Text) → IsRow row → split_lines row ≡ row ∷ []
split_row [] h = refl
split_row (c ∷ row) h = rw (h.0, split_row row h.1)

split_lines-append :
    (row s : Text) → IsRow row → split_lines (row ++ newline ∷ s) ≡ row ∷ split_lines s
split_lines-append [] s h = refl
split_lines-append (c ∷ row) s h = rw (h.0, split_lines-append row s h.1)

-- Joined rows split into the same rows, if there is one.
pub split_lines-join_lines :
    (row : Text) (rows : List Text)
    → All IsRow (row ∷ rows)
    → split_lines (join_lines (row ∷ rows)) ≡ row ∷ rows
split_lines-join_lines row [] h = split_row row h.0
split_lines-join_lines row (next ∷ rows) h =
    split_lines-append row (join_lines (next ∷ rows)) h.0
    ∙ ap (λ (rest : List Text). row ∷ rest) (split_lines-join_lines next rows h.1)

trim_start-IsRow : (row : Text) → IsRow row → IsRow (trim_start row)
trim_start-IsRow [] h = tt
trim_start-IsRow (c ∷ row) h = elim (Bool-cases (is_space c)) [
  | inl e ↦ rw e (trim_start-IsRow row h.1)
  | inr e ↦ rw e h
]

cons_unless_blank-IsRow :
    (c : ℕ) (row : Text) → (c == newline) ≡ false → IsRow row → IsRow (cons_unless_blank c row)
cons_unless_blank-IsRow c [] e h = elim (Bool-cases (is_space c)) [
  | inl b ↦ rw b tt
  | inr b ↦ rw b (e, tt)
]
cons_unless_blank-IsRow c (d ∷ row) e h = (e, h)

trim_end-IsRow : (row : Text) → IsRow row → IsRow (trim_end row)
trim_end-IsRow [] h = tt
trim_end-IsRow (c ∷ row) h = cons_unless_blank-IsRow c (trim_end row) h.0 (trim_end-IsRow row h.1)

pub trim_space-IsRow : (row : Text) → IsRow row → IsRow (trim_space row)
unfolding trim_space
trim_space-IsRow row h = trim_end-IsRow (trim_start row) (trim_start-IsRow row h)

cons_unless_blank-trim_end :
    (c : ℕ) (s : Text) → trim_end s ≡ s → trim_end (cons_unless_blank c s) ≡ cons_unless_blank c s
cons_unless_blank-trim_end c [] h = elim (Bool-cases (is_space c)) [
  | inl b ↦ rw b
  | inr b ↦ rw (b, b)
]
cons_unless_blank-trim_end c (d ∷ s) h = ap (cons_unless_blank c) h

trim_end-trim_end : (s : Text) → trim_end (trim_end s) ≡ trim_end s
trim_end-trim_end [] = refl
trim_end-trim_end (c ∷ s) = cons_unless_blank-trim_end c (trim_end s) (trim_end-trim_end s)

keeps_first : (c : ℕ) (s : Text) → is_space c ≡ false → cons_unless_blank c s ≡ c ∷ s
keeps_first c [] b = rw b
keeps_first c (d ∷ s) b = refl

trim_start-trim_end : (s : Text) → trim_start (trim_end (trim_start s)) ≡ trim_end (trim_start s)
trim_start-trim_end [] = refl
trim_start-trim_end (c ∷ s) = elim (Bool-cases (is_space c)) [
  | inl b ↦ rw b (trim_start-trim_end s)
  | inr b ↦ rw (b, keeps_first c (trim_end s) b, b)
]

pub trim_space-trim_space : (s : Text) → trim_space (trim_space s) ≡ trim_space s
unfolding trim_space
trim_space-trim_space s = ap trim_end (trim_start-trim_end s) ∙ trim_end-trim_end (trim_start s)
