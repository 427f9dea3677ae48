-- ===== src/Server/Api/Conf.antt =====
-- pkg/config/proxy.go: the configurations of proxies, and their encoding as JSON by their field tags.
-- A list or a map stands as the JSON value that it is encoded to.
use chml_frp_frp.Prelude.{ℕ, String, Bool, List, [], ◌∷◌, ◌++◌}
use chml_frp_frp.Web.Value.{Value, bool, num, str}
use chml_frp_frp.Server.Api.{omit_text}

pub record BaseProxyConf : Type 0 where
  pub proxy_name : String
  pub proxy_type : String
  pub use_encryption : Bool
  pub use_compression : Bool
  pub group : String
  pub group_key : String
  pub proxy_protocol_version : String
  pub bandwidth_limit : String
  pub bandwidth_limit_mode : String
  pub metas : Value
  pub local_ip : String
  pub local_port : ℕ
  pub plugin : String
  pub plugin_params : Value
  pub health_check_type : String
  pub health_check_timeout_s : ℕ
  pub health_check_max_failed : ℕ
  pub health_check_interval_s : ℕ
  pub health_check_url : String
  pub health_check_addr : String

pub record DomainConf : Type 0 where
  pub custom_domains : Value
  pub sub_domain : String

pub record RoleServerCommonConf : Type 0 where
  pub role : String
  pub sk : String
  pub allow_users : Value

pub record HttpProxyConf : Type 0 where
  pub locations : Value
  pub http_user : String
  pub http_pwd : String
  pub host_header_rewrite : String
  pub headers : Value
  pub route_by_http_user : String

pub record TcpMuxProxyConf : Type 0 where
  pub http_user : String
  pub http_pwd : String
  pub route_by_http_user : String
  pub multiplexer : String

pub data ProxyConf : Type 0 where
  tcp_conf udp_conf : BaseProxyConf → ℕ → ProxyConf
  http_conf : BaseProxyConf → DomainConf → HttpProxyConf → ProxyConf
  https_conf : BaseProxyConf → DomainConf → ProxyConf
  tcpmux_conf : BaseProxyConf → DomainConf → TcpMuxProxyConf → ProxyConf
  stcp_conf xtcp_conf sudp_conf : BaseProxyConf → RoleServerCommonConf → ProxyConf

abbrev pub Members : Type 0
Members = List (String × Value)

-- The encoding of the parts of a configuration, by their field tags; two fields have none.
unfoldable pub base_json : BaseProxyConf → Members
base_json b =
    ("name", str b.proxy_name)
    ∷ ("type", str b.proxy_type)
    ∷ ("use_encryption", bool b.use_encryption)
    ∷ ("use_compression", bool b.use_compression)
    ∷ ("group", str b.group)
    ∷ ("group_key", str b.group_key)
    ∷ ("proxy_protocol_version", str b.proxy_protocol_version)
    ∷ ("bandwidth_limit", str b.bandwidth_limit)
    ∷ ("bandwidth_limit_mode", str b.bandwidth_limit_mode)
    ∷ ("metas", b.metas)
    ∷ ("local_ip", str b.local_ip)
    ∷ ("local_port", num b.local_port)
    ∷ ("plugin", str b.plugin)
    ∷ ("PluginParams", b.plugin_params)
    ∷ ("health_check_type", str b.health_check_type)
    ∷ ("health_check_timeout_s", num b.health_check_timeout_s)
    ∷ ("health_check_max_failed", num b.health_check_max_failed)
    ∷ ("health_check_interval_s", num b.health_check_interval_s)
    ∷ ("health_check_url", str b.health_check_url)
    ∷ ("HealthCheckAddr", str b.health_check_addr)
    ∷ []

abbrev pub domain_json : DomainConf → Members
domain_json d = ("custom_domains", d.custom_domains) ∷ ("subdomain", str d.sub_domain) ∷ []

abbrev role_json : RoleServerCommonConf → Members
role_json s = ("role", str s.role) ∷ ("sk", str s.sk) ∷ ("allow_users", s.allow_users) ∷ []

-- `json.Marshal(pxy.GetConf())`
unfoldable pub conf_json : ProxyConf → Members
unfolding base_json
conf_json (tcp_conf b remote_port) = base_json b ++ ("remote_port", num remote_port) ∷ []
conf_json (udp_conf b remote_port) = base_json b ++ ("remote_port", num remote_port) ∷ []
conf_json (http_conf b d h) =
    base_json b
    ++ domain_json d
    ++ ("locations", h.locations)
      ∷ ("http_user", str h.http_user)
      ∷ ("http_pwd", str h.http_pwd)
      ∷ ("host_header_rewrite", str h.host_header_rewrite)
      ∷ ("headers", h.headers)
      ∷ ("route_by_http_user", str h.route_by_http_user)
      ∷ []
conf_json (https_conf b d) = base_json b ++ domain_json d
conf_json (tcpmux_conf b d t) =
    base_json b
    ++ domain_json d
    ++ omit_text "http_user" t.http_user
    ++ omit_text "http_pwd" t.http_pwd
    ++ ("route_by_http_user", str t.route_by_http_user) ∷ ("Multiplexer", str t.multiplexer) ∷ []
conf_json (stcp_conf b s) = base_json b ++ role_json s
conf_json (xtcp_conf b s) = base_json b ++ role_json s
conf_json (sudp_conf b s) = base_json b ++ role_json s
