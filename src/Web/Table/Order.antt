-- ===== src/Web/Table/Order.antt =====
-- The order of the lines of a table, web/frps/src/components/ProxyView.vue.
use mathlib.Core.List.{Perm}
use mathlib.Core.List.Perm
use chml_frp_frp.Prelude.{
  ℕ, ◌+◌, ◌-◌, String, ◌≡◌, Bool, true, false, List, [], ◌∷◌, ◌++◌, ltb, if◌then◌else◌, All,
  code_points,
}
use Prim.Native.Nat.{◌/◌, ◌%◌}
use chml_frp_frp.Vhost.Router.{bytes_lt}
use chml_frp_frp.Web.Value.{Value, str}
use chml_frp_frp.Web.Proxy.{BaseProxy}
use chml_frp_frp.Web.Table.{ProxyLine, proxy_line, proxy_lines, proxy_view}

-- The code units of a text in UTF-16.
abbrev pub units_of : ℕ → List ℕ
units_of c =
    if ltb c 65536 then c ∷ [] else (55296 + (c - 65536) / 1024) ∷ (56320 + (c - 65536) % 1024) ∷ []

abbrev pub units : List ℕ → List ℕ
units [] = []
units (c ∷ s) = units_of c ++ units s

-- `a < b` of the language, for two texts.
abbrev pub text_less : Value → Value → Bool
text_less (str s) (str t) = bytes_lt (units (code_points s)) (units (code_points t))
text_less _ _ = false

-- Each key is a text that is not smaller than the one before it.
module _ {ℓ} {A : Type ℓ} (key : A → Value) where
  abbrev pub Ascends : List A → Type 0
  Ascends [] = Unit
  Ascends (x ∷ []) = Unit
  Ascends (x ∷ y ∷ rest) = (text_less (key y) (key x) ≡ false) × Ascends (y ∷ rest)

abbrev pub IsText : Value → Type 0
IsText v = (s : String) × (v ≡ str s)

abbrev pub name_of_row : BaseProxy → Value
name_of_row row = row.name

abbrev pub name_of_line : ProxyLine → Value
name_of_line l = l.traffic_of

-- What the table component says of its sort by a property, in ascending order: it rearranges the
-- rows, and where the property of each row is a text, the texts ascend by the `<` of the language.
pub record SortsByName (sort : String → Bool → List BaseProxy → List BaseProxy) : Type 0 where
  pub rearranges : (rows : List BaseProxy) → Perm (sort "name" true rows) rows
  pub ascends :
      (rows : List BaseProxy)
      → All (λ (row : BaseProxy). IsText row.name) rows
      → Ascends name_of_row (sort "name" true rows)

module _ (file_size : Value → String) (proxy_type : String) where
  lines-Ascends :
      (rows : List BaseProxy)
      → Ascends name_of_row rows
      → Ascends name_of_line (proxy_lines file_size proxy_type rows)
  unfolding proxy_lines
  lines-Ascends [] h = tt
  lines-Ascends (x ∷ []) h = tt
  lines-Ascends (x ∷ y ∷ rest) h = (h.0, lines-Ascends (y ∷ rest) h.1)

  rows-IsText :
      (rows : List BaseProxy)
      → All (λ (l : ProxyLine). IsText l.traffic_of) (proxy_lines file_size proxy_type rows)
      → All (λ (row : BaseProxy). IsText row.name) rows
  unfolding proxy_lines
  rows-IsText [] h = tt
  rows-IsText (row ∷ rows) h = (h.0, rows-IsText rows h.1)

  -- The table has the lines of its rows, sorted by name.
  pub proxy_view_lem :
      (sort : String → Bool → List BaseProxy → List BaseProxy) (rows : List BaseProxy)
      → SortsByName sort
      → All (λ (l : ProxyLine). IsText l.traffic_of) (proxy_lines file_size proxy_type rows)
      → Perm (proxy_view file_size sort proxy_type rows) (proxy_lines file_size proxy_type rows)
        × Ascends name_of_line (proxy_view file_size sort proxy_type rows)
  unfolding proxy_view proxy_lines
  proxy_view_lem sort rows sorts texts = (
    Perm.map (proxy_line file_size proxy_type) (sorts.rearranges rows),
    lines-Ascends (sort "name" true rows) (sorts.ascends rows (rows-IsText rows texts)),
  )
