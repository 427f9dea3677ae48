-- ===== src/Tests/Dashboard.antt =====
-- The pages of the dashboards on small answers.
use chml_frp_frp.Prelude.{String, ◌≡◌, ◌≢◌, ◌↔◌, refl, inl, inr, true, false, [], ◌∷◌}
use chml_frp_frp.Web.Value.{
  Value, bool, num, str, obj, fields, Thrown, ok, get, read, property, loosely_num, loosely_text,
}
use chml_frp_frp.Web.Proxy.{http, construct}
use chml_frp_frp.Web.Proxy.Laws.{row_of, construct_row}
use chml_frp_frp.Web.Chart.{drawn, pie, draw_proxy_chart}
use chml_frp_frp.Web.Chart.Laws.{pie_of, slices_of, draw_proxy_chart_lem}
use chml_frp_frp.Web.Page.{Message}
use chml_frp_frp.Web.Overview.{init, fetch_data}
use chml_frp_frp.Web.Overview.Laws.{shown_uncounted, HasCounts}
use chml_frp_frp.Web.Configure.{answered, Configure, Outcomes, upload_config}
use chml_frp_frp.Web.Configure.Laws.{upload_config-success_iff, success, is_answered}
use chml_frp_frp.Server.Api.{ServerInfoResp, server_info}
use chml_frp_frp.Server.Api.Laws.{fetch_data-server_info}

abbrev web : Value
web = obj (
    fields (
      ("name", str "web")
      ∷ ("status", str "online")
      ∷ ("conf", obj (fields (("subdomain", str "www") ∷ ("use_encryption", bool true) ∷ [])))
      ∷ []))

construct_row_example :
    construct http (num 80) (str "frp.com") web
    ≡ ok (row_of http (num 80) (str "frp.com") web (read web "conf"))
construct_row_example = construct_row http (num 80) (str "frp.com") web

web_runs : (row_of http (num 80) (str "frp.com") web (read web "conf")).subdomain ≡ "www.frp.com"
unfolding property loosely_text construct
web_runs = refl

abbrev counts : Value
counts = obj (fields (("tcp", num 2) ∷ ("udp", num 0) ∷ ("xtcp", num 1) ∷ []))

abbrev info : Value
info = obj (fields (("version", str "0.51.2") ∷ ("proxy_type_count", counts) ∷ []))

slices_run :
    slices_of counts
    ≡ record { value = num 2; name = "TCP" } ∷ record { value = num 1; name = "XTCP" } ∷ []
unfolding property loosely_num
slices_run = refl

draw_proxy_chart_lem_example :
    draw_proxy_chart "proxies" info ≡ drawn "proxies" (ok (pie (pie_of (slices_of counts))))
unfolding get
draw_proxy_chart_lem_example = draw_proxy_chart_lem "proxies" info counts refl

counts-HasCounts : HasCounts counts
unfolding property
counts-HasCounts = (
  inr (2, refl),
  (inr (0, refl), (inl refl, (inl refl, (inl refl, (inl refl, (inr (1, refl), tt)))))),
)

abbrev pub server : ServerInfoResp
server = record {
  version = "0.51.2";
  bind_port = 7000;
  bind_udp_port = 0;
  vhost_http_port = 80;
  vhost_https_port = 0;
  tcpmux_httpconnect_port = 0;
  kcp_bind_port = 7000;
  quic_bind_port = 0;
  subdomain_host = "";
  max_pool_count = 5;
  max_ports_per_client = 0;
  heart_beat_timeout = 90;
  allow_ports_str = "";
  tls_only = false;
  total_traffic_in = 1;
  total_traffic_out = 2;
  cur_conns = 0;
  client_counts = 1;
  proxy_type_counts = ("tcp", 2) ∷ [];
  cpu_usage = num 3;
  cpu_info = "cpu";
  num_cores = 4;
  memory_total = 8;
  memory_used = 4;
  page_tables = 0;
  storage_total = 9;
  storage_used = 1;
  upload_bandwidth = num 0;
  download_bandwidth = num 0;
  load1 = num 0;
  load5 = num 0;
  load15 = num 0;
  uptime_seconds = 60;
  sent_packets = 1;
  recv_packets = 1;
  active_conn = 1;
  passive_conn = 0;
}

fetch_data-server_info_example :
    fetch_data (ok (server_info server)) init ≡ shown_uncounted (server_info server) init
fetch_data-server_info_example = fetch_data-server_info server init

abbrev thirty : String
thirty = "1000-2000,2001,2002,3000-40000"

abbrev text_of : Thrown → String
text_of e = "TypeError"

abbrev edited : Configure
edited = record { textarea = "[common]"; requests = []; messages = [] }

-- The client rejects the configuration, and the reload.
abbrev rejected : Outcomes
rejected = record {
  confirmed = true;
  put = answered 400 "body can't be empty";
  reloaded = answered 500 "reload error";
}

upload_config-success_iff_example :
    (m : Message) × ((upload_config text_of rejected edited).messages ≡ m ∷ [])
    × ((m ≡ success) ↔ (
        (rejected.confirmed ≡ true)
        × (edited.textarea ≢ "")
        × (is_answered rejected.put ≡ true)
        × (is_answered rejected.reloaded ≡ true)))
upload_config-success_iff_example = upload_config-success_iff text_of rejected edited
