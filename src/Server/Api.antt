-- ===== src/Server/Api.antt =====
-- server/dashboard_api.go: the answer to /api/serverinfo, and its encoding as JSON. A value that is
-- not a natural number (a load, a bandwidth) stands as the JSON value that it is encoded to.
pub mod Laws
pub mod Traffic
pub mod Conf
pub mod Proxy
pub mod Chart
use chml_frp_frp.Prelude.{
  ℕ, String, Bool, true, false, List, [], ◌∷◌, ◌++◌, map, if◌then◌else◌, str_eq, ltb, ◌==◌, ◌-◌,
}
use chml_frp_frp.Web.Value.{Value, minus, bool, num, str, obj, fields}

pub record ServerInfoResp : Type 0 where
  pub version : String
  pub bind_port : ℕ
  pub bind_udp_port : ℕ
  pub vhost_http_port : ℕ
  pub vhost_https_port : ℕ
  pub tcpmux_httpconnect_port : ℕ
  pub kcp_bind_port : ℕ
  pub quic_bind_port : ℕ
  pub subdomain_host : String
  pub max_pool_count : ℕ
  pub max_ports_per_client : ℕ
  pub heart_beat_timeout : ℕ
  pub allow_ports_str : String
  pub tls_only : Bool
  pub total_traffic_in : ℕ
  pub total_traffic_out : ℕ
  pub cur_conns : ℕ
  pub client_counts : ℕ
  pub proxy_type_counts : List (String × ℕ)
  pub cpu_usage : Value
  pub cpu_info : String
  pub num_cores : ℕ
  pub memory_total : ℕ
  pub memory_used : ℕ
  pub page_tables : ℕ
  pub storage_total : ℕ
  pub storage_used : ℕ
  pub upload_bandwidth : Value
  pub download_bandwidth : Value
  pub load1 : Value
  pub load5 : Value
  pub load15 : Value
  pub uptime_seconds : ℕ
  pub sent_packets : ℕ
  pub recv_packets : ℕ
  pub active_conn : ℕ
  pub passive_conn : ℕ

counts_json : List (String × ℕ) → Value
counts_json counts = obj (fields (map (λ c. (c.0, num c.1)) counts))

-- An int64 as a JSON number. The values from 2 ^ 63 on stand for the negative ones.
unfoldable pub int64_json : ℕ → Value
int64_json n = if ltb n 9223372036854775808 then num n else minus (18446744073709551615 - n)

-- The tag `omitempty`: an empty text, or `false`, leaves its field out.
abbrev omit_text : String → String → List (String × Value)
omit_text k s = if str_eq s "" then [] else (k, str s) ∷ []

abbrev omit_false : String → Bool → List (String × Value)
omit_false k b = if b then (k, bool true) ∷ [] else []

config_fields : ServerInfoResp → List (String × Value)
config_fields r =
    ("version", str r.version)
    ∷ ("bind_port", num r.bind_port)
    ∷ ("bind_udp_port", num r.bind_udp_port)
    ∷ ("vhost_http_port", num r.vhost_http_port)
    ∷ ("vhost_https_port", num r.vhost_https_port)
    ∷ ("tcpmux_httpconnect_port", num r.tcpmux_httpconnect_port)
    ∷ ("kcp_bind_port", num r.kcp_bind_port)
    ∷ ("quic_bind_port", num r.quic_bind_port)
    ∷ ("subdomain_host", str r.subdomain_host)
    ∷ ("max_pool_count", num r.max_pool_count)
    ∷ ("max_ports_per_client", num r.max_ports_per_client)
    ∷ ("heart_beat_timeout", num r.heart_beat_timeout)
    ∷ []

stats_fields : ServerInfoResp → List (String × Value)
unfolding counts_json
stats_fields r =
    ("total_traffic_in", int64_json r.total_traffic_in)
    ∷ ("total_traffic_out", int64_json r.total_traffic_out)
    ∷ ("cur_conns", int64_json r.cur_conns)
    ∷ ("client_counts", int64_json r.client_counts)
    ∷ ("proxy_type_counts", counts_json r.proxy_type_counts)
    ∷ []

load_fields : ServerInfoResp → List (String × Value)
load_fields r =
    ("cpu_usage", r.cpu_usage)
    ∷ ("cpu_info", str r.cpu_info)
    ∷ ("num_cores", num r.num_cores)
    ∷ ("memory_total", num r.memory_total)
    ∷ ("memory_used", num r.memory_used)
    ∷ ("page_tables", num r.page_tables)
    ∷ ("storage_total", num r.storage_total)
    ∷ ("storage_used", num r.storage_used)
    ∷ ("upload_bandwidth", r.upload_bandwidth)
    ∷ ("download_bandwidth", r.download_bandwidth)
    ∷ ("load1", r.load1)
    ∷ ("load5", r.load5)
    ∷ ("load15", r.load15)
    ∷ ("uptime_seconds", num r.uptime_seconds)
    ∷ ("sent_packets", num r.sent_packets)
    ∷ ("recv_packets", num r.recv_packets)
    ∷ ("active_conn", num r.active_conn)
    ∷ ("passive_conn", num r.passive_conn)
    ∷ []

-- `json.Marshal(&svrResp)`, by the field tags of `serverInfoResp`.
unfoldable pub server_info : ServerInfoResp → Value
unfolding config_fields stats_fields load_fields
server_info r = obj (
    fields (
      config_fields r
      ++ (omit_text "allow_ports_str" r.allow_ports_str
          ++ (omit_false "tls_only" r.tls_only ++ (stats_fields r ++ load_fields r)))))
