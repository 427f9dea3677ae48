-- ===== src/Tests/Sorting.antt =====
-- A table component that sorts its rows by insertion.
use mathlib.Core.List.{Perm}
use mathlib.Core.List.Perm
use chml_frp_frp.Prelude.{
  String, ◌≡◌, Bool, true, false, List, [], ◌∷◌, inl, inr, if◌then◌else◌, Bool-cases, code_points,
}
use chml_frp_frp.Vhost.Router.Bytes.{bytes_lt_asym}
use chml_frp_frp.Web.Value.{Value, str}
use chml_frp_frp.Web.Proxy.{BaseProxy}
use chml_frp_frp.Web.Table.Order.{text_less, units, Ascends, name_of_row, SortsByName}

abbrev insert_row : BaseProxy → List BaseProxy → List BaseProxy
insert_row a [] = a ∷ []
insert_row a (x ∷ xs) =
    let rest = insert_row a xs in if text_less x.name a.name then x ∷ rest else a ∷ x ∷ xs

abbrev sort_rows : List BaseProxy → List BaseProxy
sort_rows [] = []
sort_rows (x ∷ xs) = insert_row x (sort_rows xs)

abbrev pub table_sort : String → Bool → List BaseProxy → List BaseProxy
table_sort property ascending rows = sort_rows rows

text_less_asym : (u v : Value) → text_less u v ≡ true → text_less v u ≡ false
text_less_asym (str s) (str t) h = bytes_lt_asym (units (code_points s)) (units (code_points t)) h
text_less_asym (str s) _ h = absurd (cc)
text_less_asym _ v h = absurd (cc)

insert_row-perm : (a : BaseProxy) (xs : List BaseProxy) → Perm (insert_row a xs) (a ∷ xs)
insert_row-perm a [] = Perm.refl (a ∷ [])
insert_row-perm a (x ∷ xs) = elim (Bool-cases (text_less x.name a.name)) [
  | inl e ↦ rw e (Perm.trans (Perm.cons x (insert_row-perm a xs)) (Perm.swap a x xs))
  | inr e ↦ rw e (Perm.refl (a ∷ x ∷ xs))
]

sort_rows-perm : (xs : List BaseProxy) → Perm (sort_rows xs) xs
sort_rows-perm [] = Perm.refl []
sort_rows-perm (x ∷ xs) =
    Perm.trans (insert_row-perm x (sort_rows xs)) (Perm.cons x (sort_rows-perm xs))

insert_row-Ascends :
    (a : BaseProxy) (xs : List BaseProxy)
    → Ascends name_of_row xs
    → Ascends name_of_row (insert_row a xs)
insert_row-Ascends a [] h = tt
insert_row-Ascends a (x ∷ []) h = elim (Bool-cases (text_less x.name a.name)) [
  | inl e ↦ rw e (text_less_asym x.name a.name e, tt)
  | inr e ↦ rw e (e, tt)
]
insert_row-Ascends a (x ∷ y ∷ rest) h = elim (Bool-cases (text_less x.name a.name)) [
  | inl e ↦ elim (Bool-cases (text_less y.name a.name)) [
    | inl f ↦ let later = insert_row-Ascends a (y ∷ rest) h.1 in rw (e, f) (h.0, rw f at later)
    | inr f ↦ rw (e, f) (text_less_asym x.name a.name e, (f, h.1))
  ]
  | inr e ↦ rw e (e, h)
]

sort_rows-Ascends : (xs : List BaseProxy) → Ascends name_of_row (sort_rows xs)
sort_rows-Ascends [] = tt
sort_rows-Ascends (x ∷ xs) = insert_row-Ascends x (sort_rows xs) (sort_rows-Ascends xs)

pub table_sort-SortsByName : SortsByName table_sort
table_sort-SortsByName = record {
  rearranges = sort_rows-perm;
  ascends = λ rows texts. sort_rows-Ascends rows;
}
