-- ===== src/Tests/Proxies.antt =====
-- The proxies of a server on the pages of its dashboard.
use mathlib.Core.List.{Perm}
use chml_frp_frp.Prelude.{
  String, ◌≡◌, refl, subst, map, keep, inl, inr, Bool-cases, arith, show_nat, Bool, true, false,
  Option, none, some, List, [], ◌∷◌, str_eq, if◌then◌else◌, All,
}
use chml_frp_frp.Web.Value.{null, arr, num, str, items, to_text}
use chml_frp_frp.Web.Proxy.{BaseProxy, http}
use chml_frp_frp.Web.Table.{Cell, shown, sized, tagged, proxy_view}
use chml_frp_frp.Web.Table.Order.{Ascends, name_of_line}
use chml_frp_frp.Tests.Sorting.{table_sort, table_sort-SortsByName}
use chml_frp_frp.Server.Api.{int64_json}
use chml_frp_frp.Metric.Server.Listing.{ProxyStats}
use chml_frp_frp.Server.Api.Conf.{BaseProxyConf, ProxyConf, http_conf, sudp_conf}
use chml_frp_frp.Server.Api.Proxy.{Running}
use chml_frp_frp.Server.Api.Proxy.Secrets.{
  served, revealed, group_key_of, secrets, served_conf-secrets,
}
use chml_frp_frp.Server.Api.Proxy.Table.{IsOf, is_http, line}
use chml_frp_frp.Server.Api.Proxy.Pages.{lines}
use chml_frp_frp.Server.Api.Proxy.Store.{Configured, has_kind, report, page_rows, proxy_view-report}
use chml_frp_frp.Metric.Server.{
  ServerStatistics, starts, closes, new_server_metrics, new_proxy_statistics, record_all,
}
use chml_frp_frp.Metric.Server.Listing.{get_proxies_by_type}
use chml_frp_frp.Metric.Server.Listed.{name_of}
use chml_frp_frp.Tests.Dashboard.{server}

abbrev base : String → String → BaseProxyConf
base name kind = record {
  proxy_name = name;
  proxy_type = kind;
  use_encryption = true;
  use_compression = false;
  group = "";
  group_key = "";
  proxy_protocol_version = "";
  bandwidth_limit = "1MB";
  bandwidth_limit_mode = "server";
  metas = null;
  local_ip = "127.0.0.1";
  local_port = 0;
  plugin = "";
  plugin_params = null;
  health_check_type = "";
  health_check_timeout_s = 0;
  health_check_max_failed = 0;
  health_check_interval_s = 0;
  health_check_url = "";
  health_check_addr = "";
}

abbrev dns : ProxyConf
dns = sudp_conf (base "dns" "sudp") (record { role = "server"; sk = "secret"; allow_users = null })

served_conf-secrets_example :
    All (λ (k : String). served dns k ≡ revealed dns k) secrets
    × (served dns "group_key" ≡ str (group_key_of dns))
served_conf-secrets_example = served_conf-secrets dns

abbrev web_conf : ProxyConf
web_conf =
    http_conf (base "web" "http")
      (record { custom_domains = arr (items (str "a.org" ∷ [])); sub_domain = "" })
      (record {
        locations = null;
        http_user = "u";
        http_pwd = "p";
        host_header_rewrite = "";
        headers = null;
        route_by_http_user = "";
      })

abbrev web_runs : Running
web_runs = record { conf = web_conf; login_version = some "0.51.2" }

abbrev known : String → Option Running
known name = if str_eq name "web" then some web_runs else none

abbrev decoded : ProxyConf → Bool
decoded conf = true

abbrev stats_of : String → ProxyStats
stats_of name = record {
  name = name;
  kind = "http";
  today_traffic_in = 3;
  today_traffic_out = 4;
  cur_conns = 1;
  last_start_time = "01-02 15:04:05";
  last_close_time = "";
}

abbrev Has : Option Running → Type 0
Has none = ⊥
Has (some pxy) = IsOf http pxy.conf

-- The statistics of a server on which the two have started, with a third one of another type.
abbrev metrics : ServerStatistics
metrics =
    record_all
      ((20000, 1, starts "web" "http")
        ∷ (20000, 2, starts "ssh" "tcp")
        ∷ (20000, 3, starts "old" "http")
        ∷ (20001, 90000, closes "old" "http")
        ∷ [])
      (new_server_metrics 20000)

abbrev keys : List String
keys = "ssh" ∷ "web" ∷ "old" ∷ []

abbrev listed : List ProxyStats
listed = report decoded known to_text show_nat 20001 server http keys metrics

listed_names : map name_of listed ≡ "web" ∷ "old" ∷ []
unfolding record_all new_server_metrics new_proxy_statistics get_proxies_by_type
listed_names = refl

configured :
    Configured known http (has_kind decoded known to_text show_nat 20001 server http keys metrics)
configured x pxy e h = elim (Bool-cases (str_eq x "web")) [
  | inl at ↦ subst Has (rw (at) at e) (is_http _ _ _)
  | inr at ↦ absurd (ground (arith, e))
]

abbrev rows : List BaseProxy
rows = page_rows decoded known to_text show_nat 20001 server http keys metrics

proxy_view-report_example :
    (map name_of listed
      ≡ keep (has_kind decoded known to_text show_nat 20001 server http keys metrics) keys)
    × Perm
        (proxy_view to_text table_sort "http" rows)
        (lines decoded known to_text server http listed)
    × Ascends name_of_line (proxy_view to_text table_sort "http" rows)
proxy_view-report_example =
    proxy_view-report decoded known to_text show_nat 20001 server http keys metrics table_sort
      table_sort-SortsByName configured

abbrev web_cells : List (String × Cell)
web_cells =
    ("Name", shown (str "web"))
    ∷ ("Port", shown (num 80))
    ∷ ("Connections", shown (num 1))
    ∷ ("Traffic In", sized "3")
    ∷ ("Traffic Out", sized "4")
    ∷ ("ClientVersion", shown (str "0.51.2"))
    ∷ ("Status", tagged "success" (str "online"))
    ∷ []

web_line : (line to_text http (stats_of "web") server (known "web")).cells ≡ web_cells
unfolding to_text show_nat int64_json
web_line = refl
