-- ===== src/Server/Api/Proxy/Secrets.antt =====
-- Which secrets of a configuration the answer to /api/proxy/:type holds, server/dashboard_api.go.
use chml_frp_frp.Prelude.{String, ◌≡◌, refl, List, [], ◌∷◌, if◌then◌else◌, str_eq, All}
use chml_frp_frp.Web.Value.{Value, undefined, str, obj, fields, property, read}
use chml_frp_frp.Server.Api.Conf.{
  ProxyConf, tcp_conf, udp_conf, http_conf, https_conf, tcpmux_conf, stcp_conf, xtcp_conf,
  sudp_conf, conf_json, base_json,
}
use chml_frp_frp.Server.Api.Proxy.{served_conf, get_conf_by_type}

abbrev pub type_of : ProxyConf → String
type_of (tcp_conf b p) = "tcp"
type_of (udp_conf b p) = "udp"
type_of (http_conf b d h) = "http"
type_of (https_conf b d) = "https"
type_of (tcpmux_conf b d t) = "tcpmux"
type_of (stcp_conf b s) = "stcp"
type_of (xtcp_conf b s) = "xtcp"
type_of (sudp_conf b s) = "sudp"

abbrev pub group_key_of : ProxyConf → String
group_key_of (tcp_conf b p) = b.group_key
group_key_of (udp_conf b p) = b.group_key
group_key_of (http_conf b d h) = b.group_key
group_key_of (https_conf b d) = b.group_key
group_key_of (tcpmux_conf b d t) = b.group_key
group_key_of (stcp_conf b s) = b.group_key
group_key_of (xtcp_conf b s) = b.group_key
group_key_of (sudp_conf b s) = b.group_key

abbrev pub secrets : List String
secrets = "sk" ∷ "http_user" ∷ "http_pwd" ∷ []

abbrev pub revealed : ProxyConf → String → Value
revealed (sudp_conf b s) k = if str_eq k "sk" then str s.sk else undefined
revealed _ k = undefined

abbrev pub served : ProxyConf → String → Value
served conf k = read (obj (fields (served_conf (type_of conf) conf))) k

-- For every configuration: of the fields `sk`, `http_user` and `http_pwd` the answer holds none, with
-- the exception of a proxy of type sudp, whose `sk` it holds; and it holds the `group_key` of a
-- proxy of every type, the secret by which a proxy joins a group.
pub served_conf-secrets :
    (conf : ProxyConf)
    → All (λ (k : String). served conf k ≡ revealed conf k) secrets
      × (served conf "group_key" ≡ str (group_key_of conf))
unfolding served_conf get_conf_by_type conf_json base_json property
served_conf-secrets (tcp_conf b p) = ((refl, (refl, (refl, tt))), refl)
served_conf-secrets (udp_conf b p) = ((refl, (refl, (refl, tt))), refl)
served_conf-secrets (http_conf b d h) = ((refl, (refl, (refl, tt))), refl)
served_conf-secrets (https_conf b d) = ((refl, (refl, (refl, tt))), refl)
served_conf-secrets (tcpmux_conf b d t) = ((refl, (refl, (refl, tt))), refl)
served_conf-secrets (stcp_conf b s) = ((refl, (refl, (refl, tt))), refl)
served_conf-secrets (xtcp_conf b s) = ((refl, (refl, (refl, tt))), refl)
served_conf-secrets (sudp_conf b s) = ((refl, (refl, (refl, tt))), refl)
