-- ===== src/Server/Api/Proxy/Table.antt =====
-- What the tables of the dashboard show of the proxies that the server knows: server/dashboard_api.go
-- with web/frps/src/components/Proxies*.vue, ProxyView.vue and ProxyViewExpand.vue.
use chml_frp_frp.Prelude.{
  ℕ, String, ◌≡◌, refl, Bool, false, Option, none, some, List, [], ◌∷◌, ◌++◌, arith, str_eq, ◌+++◌,
  show_nat, if◌then◌else◌,
}
use chml_frp_frp.Web.Value.{
  Value, undefined, null, bool, num, str, obj, fields, property, read, to_text, loosely_text,
}
use chml_frp_frp.Web.Proxy.{ProxyClass, tcp, udp, http, https, stcp, sudp, class_name}
use chml_frp_frp.Web.Proxy.Laws.{row_of}
use chml_frp_frp.Web.View.{Item, plain, status_tag, expand_items}
use chml_frp_frp.Web.Table.{shown, sized, tagged, ProxyLine, proxy_lines}
use chml_frp_frp.Server.Api.{ServerInfoResp, int64_json}
use chml_frp_frp.Metric.Server.Listing.{ProxyStats}
use chml_frp_frp.Server.Api.Conf.{
  BaseProxyConf, DomainConf, HttpProxyConf, RoleServerCommonConf, ProxyConf, tcp_conf, udp_conf,
  http_conf, https_conf, tcpmux_conf, stcp_conf, xtcp_conf, sudp_conf, conf_json, base_json,
}
use chml_frp_frp.Server.Api.Proxy.{
  served_conf, get_conf_by_type, ProxyStatsInfo, Running, info_json,
}

abbrev pub base_of : ProxyConf → BaseProxyConf
base_of (tcp_conf b p) = b
base_of (udp_conf b p) = b
base_of (http_conf b d h) = b
base_of (https_conf b d) = b
base_of (tcpmux_conf b d t) = b
base_of (stcp_conf b s) = b
base_of (xtcp_conf b s) = b
base_of (sudp_conf b s) = b

-- The configuration is one of a class.
pub data IsOf : ProxyClass → ProxyConf → Type 0 where
  is_tcp : (b : BaseProxyConf) (port : ℕ) → IsOf tcp (tcp_conf b port)
  is_udp : (b : BaseProxyConf) (port : ℕ) → IsOf udp (udp_conf b port)
  is_http : (b : BaseProxyConf) (d : DomainConf) (h : HttpProxyConf) → IsOf http (http_conf b d h)
  is_https : (b : BaseProxyConf) (d : DomainConf) → IsOf https (https_conf b d)
  is_stcp : (b : BaseProxyConf) (s : RoleServerCommonConf) → IsOf stcp (stcp_conf b s)
  is_sudp : (b : BaseProxyConf) (s : RoleServerCommonConf) → IsOf sudp (sudp_conf b s)

-- The columns and the form, for each class, of a proxy that runs.
abbrev own_port : ServerInfoResp → ProxyConf → ℕ
own_port r (tcp_conf b p) = p
own_port r (udp_conf b p) = p
own_port r (http_conf b d h) = r.vhost_http_port
own_port r (https_conf b d) = r.vhost_https_port
own_port r _ = 0

abbrev own_addr : ProxyConf → String
own_addr (tcp_conf b p) = ":" +++ show_nat p
own_addr (udp_conf b p) = ":" +++ show_nat p
own_addr _ = ""

abbrev full_name : ServerInfoResp → DomainConf → String
full_name r d = if str_eq d.sub_domain "" then "" else d.sub_domain +++ "." +++ r.subdomain_host

abbrev domains_of : ServerInfoResp → ProxyConf → List Item
domains_of r (http_conf b d h) =
    plain "Domains" d.custom_domains
    ∷ plain "SubDomain" (str (full_name r d))
    ∷ plain "locations" h.locations
    ∷ plain "HostRewrite" (str h.host_header_rewrite)
    ∷ []
domains_of r (https_conf b d) =
    plain "Domains" d.custom_domains
    ∷ plain "SubDomain" (str (full_name r d))
    ∷ plain "locations" (str "")
    ∷ plain "HostRewrite" (str "")
    ∷ []
domains_of r conf = plain "Addr" (str (own_addr conf)) ∷ []

abbrev version_of : Option String → Value
version_of none = undefined
version_of (some v) = if str_eq v "" then undefined else str v

-- The port and the form for a proxy that does not run.
abbrev idle_port : ProxyClass → ServerInfoResp → ℕ
idle_port http r = r.vhost_http_port
idle_port https r = r.vhost_https_port
idle_port _ r = 0

abbrev no_domains : List Item
no_domains =
    plain "Domains" (str "")
    ∷ plain "SubDomain" (str "")
    ∷ plain "locations" (str "")
    ∷ plain "HostRewrite" (str "")
    ∷ []

abbrev idle_domains : ProxyClass → List Item
idle_domains http = no_domains
idle_domains https = no_domains
idle_domains _ = plain "Addr" (str "") ∷ []

module _ (file_size : Value → String) (c : ProxyClass) (ps : ProxyStats) where
  abbrev line_with : ℕ → Value → String × String → List Item → Bool × Bool → ProxyLine
  line_with port version (kind, status) domains (encryption, compression) = record {
    cells =
        ("Name", shown (str ps.name))
        ∷ ("Port", shown (num port))
        ∷ ("Connections", shown (int64_json ps.cur_conns))
        ∷ ("Traffic In", sized (file_size (int64_json ps.today_traffic_in)))
        ∷ ("Traffic Out", sized (file_size (int64_json ps.today_traffic_out)))
        ∷ ("ClientVersion", shown version)
        ∷ ("Status", tagged kind (str status))
        ∷ [];
    traffic_of = str ps.name;
    expanded =
        plain "Name" (str ps.name) ∷ plain "Type" (str (class_name c)) ∷ domains
        ++ plain "Encryption" (bool encryption)
          ∷ plain "Compression" (bool compression)
          ∷ plain "Last Start" (str ps.last_start_time)
          ∷ plain "Last Close" (str ps.last_close_time)
          ∷ [];
  }

  -- The line of a proxy, from what the server knows of it.
  abbrev pub line : ServerInfoResp → Option Running → ProxyLine
  line r (some pxy) =
      line_with (own_port r pxy.conf) (version_of pxy.login_version) ("success", "online")
        (domains_of r pxy.conf)
        ((base_of pxy.conf).use_encryption, (base_of pxy.conf).use_compression)
  line r none =
      line_with (idle_port c r) undefined ("danger", "offline") (idle_domains c) (false, false)

abbrev pub port_in : ProxyClass → ServerInfoResp → Value
port_in http r = num r.vhost_http_port
port_in https r = num r.vhost_https_port
port_in _ r = undefined

abbrev pub host_in : ProxyClass → ServerInfoResp → Value
host_in http r = str r.subdomain_host
host_in https r = str r.subdomain_host
host_in _ r = undefined

module _ (file_size : Value → String) (r : ServerInfoResp) where
  abbrev pub line_at : ProxyClass → ProxyStatsInfo → List ProxyLine
  line_at c i =
      proxy_lines file_size (class_name c)
        (row_of c (port_in c r) (host_in c r) (info_json i) (read (info_json i) "conf") ∷ [])

  pub line_idle :
      (c : ProxyClass) (ps : ProxyStats)
      → line_at c (record { stats = ps; conf = null; client_version = ""; status = "offline" })
        ≡ line file_size c ps r none ∷ []
  unfolding proxy_lines info_json property status_tag expand_items
  line_idle tcp ps = refl
  line_idle udp ps = refl
  line_idle http ps = refl
  line_idle https ps = refl
  line_idle stcp ps = refl
  line_idle sudp ps = refl

  -- What an answer tells of a proxy that runs.
  abbrev pub online : ProxyClass → ProxyStats → ProxyConf → String → ProxyStatsInfo
  online c ps conf version = record {
    stats = ps;
    conf = obj (fields (served_conf (class_name c) conf));
    client_version = version;
    status = "online";
  }

  pub line_running :
      {c : ProxyClass} {conf : ProxyConf} (ps : ProxyStats) (v : String)
      → IsOf c conf
      → line_at c (online c ps conf v)
        ≡ line file_size c ps r (some (record { conf = conf; login_version = some v })) ∷ []
  unfolding proxy_lines info_json property served_conf get_conf_by_type conf_json base_json
      status_tag expand_items to_text loosely_text
  line_running ps v (is_tcp b p) = ground arith
  line_running ps v (is_udp b p) = ground arith
  line_running ps v (is_http b d x) = ground arith
  line_running ps v (is_https b d) = ground arith
  line_running ps v (is_stcp b s) = ground arith
  line_running ps v (is_sudp b s) = ground arith

  -- The same for a client that has sent no version.
  pub line_unversioned :
      {c : ProxyClass} {conf : ProxyConf} (ps : ProxyStats)
      → IsOf c conf
      → line_at c (online c ps conf "")
        ≡ line file_size c ps r (some (record { conf = conf; login_version = none })) ∷ []
  unfolding proxy_lines info_json property served_conf get_conf_by_type conf_json base_json
      status_tag expand_items to_text loosely_text
  line_unversioned ps (is_tcp b p) = ground arith
  line_unversioned ps (is_udp b p) = ground arith
  line_unversioned ps (is_http b d x) = ground arith
  line_unversioned ps (is_https b d) = ground arith
  line_unversioned ps (is_stcp b s) = ground arith
  line_unversioned ps (is_sudp b s) = ground arith
