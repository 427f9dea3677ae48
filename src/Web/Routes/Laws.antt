-- ===== src/Web/Routes/Laws.antt =====
-- The entries of the menus lead somewhere.
use chml_frp_frp.Prelude.{
  String, ◌≡◌, ◌≢◌, refl, subst, ◌⊎◌, inl, inr, true, List, [], ◌∷◌, none, some, str_eq, eq_iff,
  arith, Bool-cases,
}
use chml_frp_frp.Web.Routes.{
  Route, resolve, frps_routes, frpc_routes, frps_menu, frpc_menu, handle_select, has_entry,
}

-- What an entry does: it opens the help and shows no page, or it shows the page of its path and
-- opens nothing.
abbrev pub Leads : List Route → String → Type 0
Leads routes key =
    ((key ≡ "") × (resolve routes key ≡ none) × (handle_select key ≢ []))
    ⊎ ((r : Route) × (resolve routes key ≡ some r) × (r.path ≡ key) × (handle_select key ≡ []))

abbrev AllLead : List Route → List String → Type 0
AllLead routes [] = Unit
AllLead routes (k ∷ ks) = Leads routes k × AllLead routes ks

has_entry-Leads :
    (routes : List Route) (keys : List String) (key : String)
    → AllLead routes keys
    → has_entry keys key ≡ true
    → Leads routes key
unfolding has_entry
has_entry-Leads routes [] key a h = cc
has_entry-Leads routes (k ∷ ks) key (here, later) h = elim (Bool-cases (str_eq k key)) [
  | inl same ↦ subst (Leads routes) ((eq_iff k key).0 same) here
  | inr other ↦ has_entry-Leads routes ks key later (ground arith)
]

frps_leads : AllLead frps_routes frps_menu
unfolding frps_routes frps_menu resolve handle_select
frps_leads = (
  inr (_, refl, refl, refl),
  (
    inr (_, refl, refl, refl),
    (
      inr (_, refl, refl, refl),
      (
        inr (_, refl, refl, refl),
        (
          inr (_, refl, refl, refl),
          (inr (_, refl, refl, refl), (inr (_, refl, refl, refl), (inl (refl, refl, cc), tt))),
        ),
      ),
    ),
  ),
)

frpc_leads : AllLead frpc_routes frpc_menu
unfolding frpc_routes frpc_menu resolve handle_select
frpc_leads = (inr (_, refl, refl, refl), (inr (_, refl, refl, refl), (inl (refl, refl, cc), tt)))

-- The two dashboards.
pub data Dashboard : Type 0 where
  frps frpc : Dashboard

abbrev pub routes_of : Dashboard → List Route
routes_of frps = frps_routes
routes_of frpc = frpc_routes

abbrev pub menu_of : Dashboard → List String
menu_of frps = frps_menu
menu_of frpc = frpc_menu

-- In both dashboards an entry of the menu either opens the help and has no page, or has a route
-- with its very path and opens nothing.
pub menu-Leads :
    (d : Dashboard) (key : String) → has_entry (menu_of d) key ≡ true → Leads (routes_of d) key
menu-Leads frps key h = has_entry-Leads frps_routes frps_menu key frps_leads h
menu-Leads frpc key h = has_entry-Leads frpc_routes frpc_menu key frpc_leads h
