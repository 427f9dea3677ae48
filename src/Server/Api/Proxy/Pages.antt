-- ===== src/Server/Api/Proxy/Pages.antt =====
-- The pages of the dashboard on the answers of the server: server/dashboard_api.go with
-- web/frps/src/components/Proxies*.vue.
use chml_frp_frp.Prelude.{
  String, ◌≡◌, refl, ap, Bool, true, not, Option, none, some, List, [], ◌∷◌, ◌++◌, map, arith, inl,
  inr, ◌==◌, if◌then◌else◌, Bool-cases, Option-cases, All,
}
use chml_frp_frp.Web.Value.{Value, property, items, elements-items, ok, loosely_num}
use chml_frp_frp.Web.Proxy.{ProxyClass, tcp, udp, http, https, stcp, sudp, class_name}
use chml_frp_frp.Web.Proxies.{fetch_proxies}
use chml_frp_frp.Web.Proxies.Laws.{
  present, rows_of, fetch_proxies_lem, lists, vhost_port, vhost_name,
}
use chml_frp_frp.Web.Table.{ProxyLine, proxy_lines}
use chml_frp_frp.Server.Api.{ServerInfoResp, server_info, config_fields}
use chml_frp_frp.Metric.Server.Listing.{ProxyStats}
use chml_frp_frp.Server.Api.Conf.{ProxyConf}
use chml_frp_frp.Server.Api.Proxy.{
  ProxyStatsInfo, Running, served_conf, info_json, proxy_info, get_proxy_stats_by_type,
  api_proxy_by_type,
}
use chml_frp_frp.Server.Api.Proxy.Table.{
  IsOf, line, port_in, host_in, line_at, line_idle, line_running, line_unversioned,
}

-- A proxy that is listed for a class, and that has a configuration of the class if it runs.
pub record Listed (get_by_name : String → Option Running) (c : ProxyClass) (ps : ProxyStats)
    : Type 0 where
  pub of_kind : ps.kind ≡ class_name c
  pub conf_of : (pxy : Running) → get_by_name ps.name ≡ some pxy → IsOf c pxy.conf

-- Whether the server has a port for the proxies of a class.
abbrev pub serves : ServerInfoResp → ProxyClass → Bool
serves r http = not (r.vhost_http_port == 0)
serves r https = not (r.vhost_https_port == 0)
serves r _ = true

present-objects : (is : List ProxyStatsInfo) → present (map info_json is) ≡ map info_json is
unfolding info_json
present-objects [] = refl
present-objects (i ∷ is) = ap (λ (vs : List Value). info_json i ∷ vs) (present-objects is)

module _ (decodes : ProxyConf → Bool) (get_by_name : String → Option Running)
    (file_size : Value → String) (r : ServerInfoResp) (c : ProxyClass) where
  -- Whether a proxy is shown: where it runs, its configuration must be decoded.
  abbrev pub is_shown : ProxyStats → Bool
  is_shown ps = elim (get_by_name ps.name) [ none ↦ true | some pxy ↦ decodes pxy.conf ]

  abbrev pub lines : List ProxyStats → List ProxyLine
  lines [] = []
  lines (ps ∷ pss) =
      let rest = lines pss in
      if is_shown ps then line file_size c ps r (get_by_name ps.name) ∷ rest else rest

  abbrev view : List ProxyStatsInfo → List ProxyLine
  view is =
      proxy_lines file_size (class_name c)
        (rows_of c (port_in c r) (host_in c r) (map info_json is))

  view-cons :
      (i : ProxyStatsInfo) (is : List ProxyStatsInfo)
      → view (i ∷ is) ≡ line_at file_size r c i ++ view is
  unfolding proxy_lines
  view-cons i is = refl

  abbrev head_of : Option ProxyStatsInfo → List ProxyLine
  head_of none = []
  head_of (some i) = line_at file_size r c i

  abbrev shown_line : ProxyStats → List ProxyLine
  shown_line ps = if is_shown ps then line file_size c ps r (get_by_name ps.name) ∷ [] else []

  running_line :
      (ps : ProxyStats) (conf : ProxyConf) (login : Option String)
      → get_by_name ps.name ≡ some (record { conf = conf; login_version = login })
      → ps.kind ≡ class_name c
      → IsOf c conf
      → decodes conf ≡ true
      → head_of (proxy_info decodes get_by_name ps) ≡ shown_line ps
  unfolding proxy_info
  running_line ps conf none e kind h d =
      rw (proxy_info, is_shown, e, d, ap (λ (k : String). served_conf k conf) kind)
        (line_unversioned file_size r ps h)
  running_line ps conf (some v) e kind h d =
      rw (proxy_info, is_shown, e, d, ap (λ (k : String). served_conf k conf) kind)
        (line_running file_size r ps v h)

  head_lem :
      (ps : ProxyStats)
      → Listed get_by_name c ps
      → head_of (proxy_info decodes get_by_name ps) ≡ shown_line ps
  unfolding proxy_info
  head_lem ps h = elim (Option-cases (get_by_name ps.name)) [
    | inl e ↦ rw (proxy_info, is_shown, e) (line_idle file_size r c ps)
    | inr (pxy, e) ↦ elim (Bool-cases (decodes pxy.conf)) [
      | inl d ↦ running_line ps pxy.conf pxy.login_version e h.of_kind (h.conf_of pxy e) d
      | inr d ↦ rw (proxy_info, is_shown, e, d) refl
    ]
  ]

  view_lem :
      (pss : List ProxyStats)
      → All (Listed get_by_name c) pss
      → view (get_proxy_stats_by_type decodes get_by_name pss) ≡ lines pss
  unfolding get_proxy_stats_by_type proxy_lines
  view_lem [] h = refl
  view_lem (ps ∷ pss) (h, hs) = ground (arith, head_lem ps h, view_lem pss hs)

  lists-server_info : (k : ProxyClass) → lists k (server_info r) ≡ serves r k
  unfolding server_info config_fields property loosely_num
  lists-server_info http = refl
  lists-server_info https = refl
  lists-server_info tcp = refl
  lists-server_info udp = refl
  lists-server_info stcp = refl
  lists-server_info sudp = refl

  vhost-server_info :
      (k : ProxyClass)
      → (vhost_port k (server_info r) ≡ port_in k r) × (vhost_name k (server_info r) ≡ host_in k r)
  unfolding server_info config_fields property
  vhost-server_info http = (refl, refl)
  vhost-server_info https = (refl, refl)
  vhost-server_info tcp = (refl, refl)
  vhost-server_info udp = (refl, refl)
  vhost-server_info stcp = (refl, refl)
  vhost-server_info sudp = (refl, refl)

  -- For the statistics of any proxies that are listed for a class: the table of the page of the class,
  -- on the answers to /api/serverinfo and /api/proxy/:type, has a line for each of them, in their
  -- order, with what the server knows of it, except for those that run with a configuration which
  -- the library does not decode; a page of a type with a virtual host is empty where the server has
  -- no port for it.
  pub proxy_lines-api :
      (pss : List ProxyStats)
      → All (Listed get_by_name c) pss
      → proxy_lines file_size
          (class_name c)
          (fetch_proxies c (ok (server_info r)) (ok (api_proxy_by_type decodes get_by_name pss)) [])
        ≡ (if serves r c then lines pss else [])
  unfolding proxy_lines api_proxy_by_type server_info property
  proxy_lines-api pss h =
      let infos = get_proxy_stats_by_type decodes get_by_name pss in
      rw
        (
          fetch_proxies_lem (server_info r) (api_proxy_by_type decodes get_by_name pss)
              (items (map info_json infos)) [] refl refl refl c,
          elements-items (map info_json infos),
          present-objects infos,
          lists-server_info c,
          (vhost-server_info c).0,
          (vhost-server_info c).1,
        )
        (elim (Bool-cases (serves r c)) [ inl e ↦ rw (e) (view_lem pss h) | inr e ↦ rw (e) refl ])
