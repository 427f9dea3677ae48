-- ===== src/Web/Overview.antt =====
-- web/frps/src/components/ServerOverview.vue: the page with the state of the server.
pub mod Laws
use chml_frp_frp.Prelude.{String, Bool, true, false, List, [], ◌∷◌, ◌++◌, if◌then◌else◌}
use chml_frp_frp.Web.Value.{
  Value, bool, num, str, Result, ok, throw, is_nullish, get, loosely_text, plus,
}
use chml_frp_frp.Web.Chart.{ChartCall, Drawing, draw_traffic_chart, draw_proxy_chart}
use chml_frp_frp.Web.Page.{Message, Handler, ◌>>=◌, ◌>>◌, attempt, modify, done, caught}

pub record Info : Type 0 where
  pub version : Value
  pub bind_port : Value
  pub kcp_bind_port : Value
  pub quic_bind_port : Value
  pub vhost_http_port : Value
  pub vhost_https_port : Value
  pub tcpmux_httpconnect_port : Value
  pub subdomain_host : Value
  pub max_pool_count : Value
  pub max_ports_per_client : Value
  pub allow_ports_str : Value
  pub tls_only : Value
  pub heart_beat_timeout : Value
  pub client_counts : Value
  pub cur_conns : Value
  pub proxy_counts : Value

pub record Overview : Type 0 where
  pub info : Info
  pub charts : List ChartCall
  pub messages : List Message

abbrev pub init : Overview
init = record {
  info = record {
    version = str "";
    bind_port = num 0;
    kcp_bind_port = num 0;
    quic_bind_port = num 0;
    vhost_http_port = num 0;
    vhost_https_port = num 0;
    tcpmux_httpconnect_port = num 0;
    subdomain_host = str "";
    max_pool_count = num 0;
    max_ports_per_client = str "";
    allow_ports_str = str "";
    tls_only = bool false;
    heart_beat_timeout = num 0;
    client_counts = num 0;
    cur_conns = num 0;
    proxy_counts = num 0;
  };
  charts = [];
  messages = [];
}

-- `data.value.f = json.f`
abbrev assign : Value → String → (Value → Info → Info) → Handler Overview (Unit {0})
assign json key write = do
  v ← attempt (get json key)
  modify (λ page. record page { info = write v page.info })

abbrev limit_text : Info → Info
limit_text info =
    if loosely_text info.max_ports_per_client "0"
    then record info { max_ports_per_client = str "no limit" }
    else info

-- One of the seven tests on `json.proxy_type_count`.
unfoldable pub add_count : Value → String → Handler Overview (Unit {0})
add_count json key = do
  counts ← attempt (get json "proxy_type_count")
  count ← attempt (get counts key)
  modify λ page. if is_nullish count then page else record page {
    info = record (page.info) { proxy_counts = plus page.info.proxy_counts count };
  }

unfoldable pub add_counts : Value → Handler Overview (Unit {0})
add_counts json = do
  add_count json "tcp"
  add_count json "udp"
  add_count json "http"
  add_count json "https"
  add_count json "stcp"
  add_count json "sudp"
  add_count json "xtcp"

unfoldable pub copy_info : Value → Handler Overview (Unit {0})
copy_info json = do
  assign json "version" λ v info. record info { version = v }
  assign json "bind_port" λ v info. record info { bind_port = v }
  assign json "kcp_bind_port" λ v info. record info { kcp_bind_port = v }
  assign json "quic_bind_port" λ v info. record info { quic_bind_port = v }
  assign json "vhost_http_port" λ v info. record info { vhost_http_port = v }
  assign json "vhost_https_port" λ v info. record info { vhost_https_port = v }
  assign json "tcpmux_httpconnect_port" λ v info. record info { tcpmux_httpconnect_port = v }
  assign json "subdomain_host" λ v info. record info { subdomain_host = v }
  assign json "max_pool_count" λ v info. record info { max_pool_count = v }
  assign json "max_ports_per_client" λ v info. record info { max_ports_per_client = v }
  modify (λ page. record page { info = limit_text page.info })
  assign json "allow_ports_str" λ v info. record info { allow_ports_str = v }
  assign json "tls_only" λ v info. record info { tls_only = v }
  assign json "heart_beat_timeout" λ v info. record info { heart_beat_timeout = v }
  assign json "client_counts" λ v info. record info { client_counts = v }
  assign json "cur_conns" λ v info. record info { cur_conns = v }

unfoldable pub count_proxies : Value → Handler Overview (Unit {0})
unfolding add_counts
count_proxies json = do
  modify (λ page. record page { info = record (page.info) { proxy_counts = num 0 } })
  counts ← attempt (get json "proxy_type_count")
  if is_nullish counts then done else add_counts json

unfoldable pub draw : Drawing → Handler Overview (Unit {0})
draw (calls, outcome) page = (outcome, record page { charts = page.charts ++ calls })

unfoldable pub show_info : Value → Handler Overview (Unit {0})
show_info json = do
  copy_info json
  count_proxies json
  total_in ← attempt (get json "total_traffic_in")
  total_out ← attempt (get json "total_traffic_out")
  draw (draw_traffic_chart "traffic" total_in total_out)
  draw (draw_proxy_chart "proxies" json)

abbrev pub failure : Message
failure = record { text = "Get server info from frps failed!"; kind = "warning" }

-- `fetchData`, for the outcome of the request to ../api/serverinfo.
unfoldable pub fetch_data : Result Value → Overview → Overview
fetch_data answer page =
    caught (λ _ p. record p { messages = p.messages ++ failure ∷ [] })
      (◌>>=◌ (attempt answer) (λ json. show_info json) page)
