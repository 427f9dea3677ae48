-- ===== src/Server/Api/Proxy.antt =====
-- server/dashboard_api.go: the answer to /api/proxy/:type.
pub mod Table
pub mod Secrets
pub mod Pages
pub mod Store
use chml_frp_frp.Prelude.{
  ℕ, String, Bool, true, false, ◌&&◌, Option, none, some, List, [], ◌∷◌, ◌++◌, map, leb, ◌+◌,
  if◌then◌else◌, str_eq, code_points,
}
use chml_frp_frp.Web.Value.{Value, null, bool, num, str, arr, obj, fields, items}
use chml_frp_frp.Vhost.Router.{bytes_eq}
use chml_frp_frp.Client.Admin.Status.{sort_by}
use chml_frp_frp.Server.Api.Conf.{
  BaseProxyConf, DomainConf, ProxyConf, Members, base_json, domain_json, conf_json,
}
use chml_frp_frp.Server.Api.{omit_text, int64_json}
use chml_frp_frp.Metric.Server.Listing.{ProxyStats}

abbrev zero_base : BaseProxyConf
zero_base = record {
  proxy_name = "";
  proxy_type = "";
  use_encryption = false;
  use_compression = false;
  group = "";
  group_key = "";
  proxy_protocol_version = "";
  bandwidth_limit = "";
  bandwidth_limit_mode = "";
  metas = null;
  local_ip = "";
  local_port = 0;
  plugin = "";
  plugin_params = null;
  health_check_type = "";
  health_check_timeout_s = 0;
  health_check_max_failed = 0;
  health_check_interval_s = 0;
  health_check_url = "";
  health_check_addr = "";
}

abbrev zero_domain : DomainConf
zero_domain = record { custom_domains = null; sub_domain = "" }

-- `getConfByType`: the fields of the new struct, with their zero values, or `nil`.
unfoldable pub get_conf_by_type : String → Option Members
unfolding base_json
get_conf_by_type proxy_type =
    if str_eq proxy_type "tcp"
    then some (base_json zero_base ++ ("remote_port", num 0) ∷ [])
    else if str_eq proxy_type "tcpmux"
    then some (base_json zero_base ++ domain_json zero_domain ++ ("multiplexer", str "") ∷ [])
    else if str_eq proxy_type "udp"
    then some (base_json zero_base ++ ("remote_port", num 0) ∷ [])
    else if str_eq proxy_type "http"
    then some (
        base_json zero_base
        ++ domain_json zero_domain
        ++ ("locations", null) ∷ ("host_header_rewrite", str "") ∷ [])
    else if str_eq proxy_type "https"
    then some (base_json zero_base ++ domain_json zero_domain)
    else if str_eq proxy_type "stcp"
    then some (base_json zero_base)
    else if str_eq proxy_type "xtcp"
    then some (base_json zero_base)
    else none

abbrev lower : ℕ → ℕ
lower c = if leb b'A' c && leb c b'Z' then c + 32 else c

-- The decoder compares names without regard to case.
abbrev same_name : String → String → Bool
same_name j k = bytes_eq (map lower (code_points j)) (map lower (code_points k))

abbrev member_or : Value → String → Members → Value
member_or z k [] = z
member_or z k ((j, v) ∷ ms) = if same_name j k then v else member_or z k ms

-- `json.Unmarshal` into a struct: the fields that the content names take its values.
abbrev pub unmarshal : Members → Members → Members
unmarshal content fs = map (λ f. (f.0, member_or f.1 f.0 content)) fs

abbrev name_of_member : String × Value → String
name_of_member m = m.0

-- The configuration in the answer. Without a struct, the decoder makes a map of the whole content,
-- whose keys are encoded in order.
unfoldable pub served_conf : String → ProxyConf → Members
unfolding get_conf_by_type conf_json
served_conf proxy_type conf = elim (get_conf_by_type proxy_type) [
  | some fs ↦ unmarshal (conf_json conf) fs
  | none ↦ sort_by name_of_member (conf_json conf)
]

-- A proxy of the proxy manager, with the version that its client has sent.
pub record Running : Type 0 where
  pub conf : ProxyConf
  pub login_version : Option String

pub record ProxyStatsInfo : Type 0 where
  pub stats : ProxyStats
  pub conf : Value
  pub client_version : String
  pub status : String

-- `json.Marshal`, by the field tags of `ProxyStatsInfo`.
unfoldable pub info_json : ProxyStatsInfo → Value
unfolding int64_json
info_json i = obj (
    fields (
      ("name", str i.stats.name) ∷ ("conf", i.conf) ∷ omit_text "client_version" i.client_version
      ++ ("today_traffic_in", int64_json i.stats.today_traffic_in)
        ∷ ("today_traffic_out", int64_json i.stats.today_traffic_out)
        ∷ ("cur_conns", int64_json i.stats.cur_conns)
        ∷ ("last_start_time", str i.stats.last_start_time)
        ∷ ("last_close_time", str i.stats.last_close_time)
        ∷ ("status", str i.status)
        ∷ []))

-- `decodes` is whether the library encodes a configuration and decodes it again without an error,
-- `get_by_name` the proxies of the proxy manager.
module _ (decodes : ProxyConf → Bool) (get_by_name : String → Option Running) where
  -- A round of the loop of `getProxyStatsByType`; some rounds add nothing.
  unfoldable pub proxy_info : ProxyStats → Option ProxyStatsInfo
  unfolding served_conf
  proxy_info ps = elim (get_by_name ps.name) [
    | some pxy ↦
        if decodes pxy.conf
        then some (record {
          stats = ps;
          conf = obj (fields (served_conf ps.kind pxy.conf));
          client_version = elim pxy.login_version [ none ↦ "" | some version ↦ version ];
          status = "online";
        })
        else none
    | none ↦ some (record { stats = ps; conf = null; client_version = ""; status = "offline" })
  ]

  unfoldable pub get_proxy_stats_by_type : List ProxyStats → List ProxyStatsInfo
  unfolding proxy_info
  get_proxy_stats_by_type [] = []
  get_proxy_stats_by_type (ps ∷ rest) =
      let infos = get_proxy_stats_by_type rest in
      elim (proxy_info ps) [ none ↦ infos | some info ↦ info ∷ infos ]

  -- `APIProxyByType`, for the statistics of the type.
  unfoldable pub api_proxy_by_type : List ProxyStats → Value
  unfolding get_proxy_stats_by_type info_json
  api_proxy_by_type pss =
      obj (fields (("proxies", arr (items (map info_json (get_proxy_stats_by_type pss)))) ∷ []))
