-- ===== src/Web/Routes.antt =====
-- web/frps/src/router/index.ts, web/frpc/src/router/index.ts and the menus of the two App.vue: which
-- page a path shows, and what an entry of the menu does.
pub mod Laws
use chml_frp_frp.Prelude.{
  String, Bool, true, false, ◌||◌, List, [], ◌∷◌, Option, none, some, str_eq, if◌then◌else◌,
}

pub data Component : Type 0 where
  server_overview proxies_tcp proxies_udp proxies_http proxies_https proxies_stcp proxies_sudp :
      Component
  overview client_configure : Component

pub record Route : Type 0 where
  pub path : String
  pub name : String
  pub component : Component

abbrev route : String → String → Component → Route
route path name component = record { path = path; name = name; component = component }

unfoldable pub frps_routes : List Route
frps_routes =
    route "/" "ServerOverview" server_overview
    ∷ route "/proxies/tcp" "ProxiesTCP" proxies_tcp
    ∷ route "/proxies/udp" "ProxiesUDP" proxies_udp
    ∷ route "/proxies/http" "ProxiesHTTP" proxies_http
    ∷ route "/proxies/https" "ProxiesHTTPS" proxies_https
    ∷ route "/proxies/stcp" "ProxiesSTCP" proxies_stcp
    ∷ route "/proxies/sudp" "ProxiesSUDP" proxies_sudp
    ∷ []

unfoldable pub frpc_routes : List Route
frpc_routes =
    route "/" "Overview" overview ∷ route "/configure" "ClientConfigure" client_configure ∷ []

-- The indices of the entries of the menus; the entry "Help" has an empty one.
unfoldable pub frps_menu : List String
frps_menu =
    "/" ∷ "/proxies/tcp" ∷ "/proxies/udp" ∷ "/proxies/http" ∷ "/proxies/https" ∷ "/proxies/stcp"
    ∷ "/proxies/sudp" ∷ "" ∷ []

unfoldable pub frpc_menu : List String
frpc_menu = "/" ∷ "/configure" ∷ "" ∷ []

-- The page of a path: the first route with that path.
unfoldable pub resolve : List Route → String → Option Route
resolve [] path = none
resolve (r ∷ rs) path = if str_eq r.path path then some r else resolve rs path

-- `handleSelect`: the windows that it opens.
unfoldable pub handle_select : String → List String
handle_select key = if str_eq key "" then "https://github.com/fatedier/frp" ∷ [] else []

unfoldable pub has_entry : List String → String → Bool
has_entry [] key = false
has_entry (k ∷ ks) key = str_eq k key || has_entry ks key
