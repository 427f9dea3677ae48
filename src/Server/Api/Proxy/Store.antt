-- ===== src/Server/Api/Proxy/Store.antt =====
-- From the statistics of the server to the tables of the dashboard: pkg/metrics/mem/server.go,
-- server/dashboard_api.go and the pages of web/frps/src/components.
use mathlib.Core.List.{Perm}
use chml_frp_frp.Prelude.{
  ℕ, String, ◌≡◌, refl, sym, subst, Bool, true, Option, none, some, List, [], ◌∷◌, map, keep, inl,
  inr, if◌then◌else◌, Bool-cases, All,
}
use chml_frp_frp.Web.Value.{Value, ok}
use chml_frp_frp.Web.Proxy.{BaseProxy, ProxyClass, class_name}
use chml_frp_frp.Web.Proxies.{fetch_proxies}
use chml_frp_frp.Web.Table.{ProxyLine, proxy_lines, proxy_view}
use chml_frp_frp.Web.Table.Order.{Ascends, IsText, name_of_line, SortsByName, proxy_view_lem}
use chml_frp_frp.Metric.Server.{ServerStatistics}
use chml_frp_frp.Metric.Server.Listing.{ProxyStats, of_kind, get_proxies_by_type}
use chml_frp_frp.Metric.Server.Listed.{name_of, get_proxies_by_type-keep}
use chml_frp_frp.Server.Api.{ServerInfoResp, server_info}
use chml_frp_frp.Server.Api.Conf.{ProxyConf}
use chml_frp_frp.Server.Api.Proxy.{Running, api_proxy_by_type}
use chml_frp_frp.Server.Api.Proxy.Table.{IsOf, line}
use chml_frp_frp.Server.Api.Proxy.Pages.{Listed, serves, is_shown, lines, proxy_lines-api}

All-keep : (q : String → Bool) (xs : List String) → All (λ (x : String). q x ≡ true) (keep q xs)
All-keep q [] = tt
All-keep q (x ∷ xs) = elim (Bool-cases (q x)) [
  | inl e ↦ rw (keep, e) (e, All-keep q xs)
  | inr e ↦ rw (keep, e) (All-keep q xs)
]

module _ (get_by_name : String → Option Running) (c : ProxyClass) (q : String → Bool) where
  -- The proxies of a class that run have a configuration of the class.
  abbrev pub Configured : Type 0
  Configured =
      (x : String) (pxy : Running) → get_by_name x ≡ some pxy → q x ≡ true → IsOf c pxy.conf

  All-Listed :
      (pss : List ProxyStats)
      → Configured
      → All (λ (x : String). q x ≡ true) (map name_of pss)
      → All (λ (ps : ProxyStats). ps.kind ≡ class_name c) pss
      → All (Listed get_by_name c) pss
  All-Listed [] conf names kinds = tt
  All-Listed (ps ∷ pss) conf (name, names) (kind, kinds) = (
    record { of_kind = kind; conf_of = λ pxy e. conf ps.name pxy e name },
    All-Listed pss conf names kinds,
  )

module _ (decodes : ProxyConf → Bool) (get_by_name : String → Option Running)
    (file_size : Value → String) (format : ℕ → String) (day : ℕ) (r : ServerInfoResp)
    (c : ProxyClass) (keys : List String) (m : ServerStatistics) where
  abbrev pub has_kind : String → Bool
  has_kind x = of_kind format day (class_name c) (m.proxy_statistics x)

  -- What the server reports of the proxies of the class.
  abbrev pub report : List ProxyStats
  report = (get_proxies_by_type format day (class_name c) keys m).0

  -- Each line of the page is that of a proxy, and shows its name.
  lines-IsText :
      (pss : List ProxyStats)
      → All (λ (l : ProxyLine). IsText l.traffic_of) (lines decodes get_by_name file_size r c pss)
  lines-IsText [] = tt
  lines-IsText (ps ∷ pss) = elim (Bool-cases (is_shown decodes get_by_name file_size r c ps)) [
    | inl e ↦ rw e (named (get_by_name ps.name), lines-IsText pss)
    | inr e ↦ rw e (lines-IsText pss)
  ]
    where
      named : (o : Option Running) → IsText (line file_size c ps r o).traffic_of
      named none = (ps.name, refl)
      named (some pxy) = (ps.name, refl)

  page_lines : List ProxyLine
  page_lines = if serves r c then lines decodes get_by_name file_size r c report else []

  page_lines-IsText : All (λ (l : ProxyLine). IsText l.traffic_of) page_lines
  unfolding page_lines
  page_lines-IsText = elim (Bool-cases (serves r c)) [
    | inl e ↦ rw e (lines-IsText report)
    | inr e ↦ rw e tt
  ]

  -- The rows of the page of the class, on the answers to /api/serverinfo and /api/proxy/:type.
  abbrev pub page_rows : List BaseProxy
  page_rows =
      fetch_proxies c (ok (server_info r)) (ok (api_proxy_by_type decodes get_by_name report)) []

  -- For the keys of the statistics, in the order in which the server meets them, where the proxies
  -- of a class that run have a configuration of the class, and for a table component that sorts rows
  -- by a text: the report of the class lists those of the keys whose statistics are of its type. The
  -- table of its page, on the answers to /api/serverinfo and /api/proxy/:type, has exactly one line
  -- for each of them, with what the server knows of it, except for those that run with a configuration
  -- which the library does not decode, and its lines ascend by name; a page of a type with a virtual
  -- host is empty where the server has no port for it.
  pub proxy_view-report :
      (sort : String → Bool → List BaseProxy → List BaseProxy)
      → SortsByName sort
      → Configured get_by_name c has_kind
      → (map name_of report ≡ keep has_kind keys)
        × Perm
            (proxy_view file_size sort (class_name c) page_rows)
            (if serves r c then lines decodes get_by_name file_size r c report else [])
        × Ascends name_of_line (proxy_view file_size sort (class_name c) page_rows)
  unfolding page_lines
  proxy_view-report sort sorts conf =
      let (names, kinds) = get_proxies_by_type-keep format day (class_name c) keys m in
      let known =
        subst (All (λ (x : String). has_kind x ≡ true)) (sym names) (All-keep has_kind keys) in
      let unsorted : proxy_lines file_size (class_name c) page_rows ≡ page_lines =
        proxy_lines-api decodes get_by_name file_size r c report
          (All-Listed get_by_name c has_kind report conf known kinds) in
      let texts =
        subst (All (λ (l : ProxyLine). IsText l.traffic_of)) (sym unsorted) page_lines-IsText in
      let (same, ascends) = proxy_view_lem file_size (class_name c) sort page_rows sorts texts in
      (
        names,
        subst (Perm (proxy_view file_size sort (class_name c) page_rows)) unsorted same,
        ascends,
      )
