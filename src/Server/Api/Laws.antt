-- ===== src/Server/Api/Laws.antt =====
-- The answer of the server on the page of the dashboard.
use chml_frp_frp.Prelude.{
  ℕ, String, ◌≡◌, refl, ◌∙◌, true, false, ◌==◌, arith, Option, none, some, List, if◌then◌else◌,
  eq_iff,
}
use chml_frp_frp.Web.Value.{
  undefined, bool, num, str, ok, is_nullish, throw, type_error, read, property, loosely_text,
  loosely_num, text_number,
}
use chml_frp_frp.Web.Overview.{Overview, Info, fetch_data}
use chml_frp_frp.Web.Overview.Laws.{fetch_data_lem, shown_uncounted, info_of}
use chml_frp_frp.Web.View.{
  Item, plain, long, long_span, overview_items, find_item, find_item-shown_if,
}
use chml_frp_frp.Server.Api.{ServerInfoResp, server_info}

no_counts : (r : ServerInfoResp) → read (server_info r) "proxy_type_count" ≡ undefined
unfolding server_info property
no_counts r = ground arith

is_object : (r : ServerInfoResp) → is_nullish (server_info r) ≡ false
unfolding server_info
is_object r = refl

-- Whatever the server answers, the page adds the message of a failed request, shows 0 proxies, and
-- leaves the chart of the proxies in its loading state: the answer holds `proxy_type_counts`, and
-- the page reads `proxy_type_count`.
pub fetch_data-server_info :
    (r : ServerInfoResp) (page : Overview)
    → fetch_data (ok (server_info r)) page ≡ shown_uncounted (server_info r) page
fetch_data-server_info r page = fetch_data_lem (server_info r) page (is_object r) ∙ rw (no_counts r)

abbrev info_shown : ServerInfoResp → Overview → Info
info_shown r page = (fetch_data (ok (server_info r)) page).info

abbrev optional_port : String → ℕ → Option Item
optional_port l n = if n == 0 then none else some (plain l (num n))

-- The items of the page that depend on the answer.
pub record ShowsAnswer (r : ServerInfoResp) (items : List Item) : Type 0 where
  pub kcp : find_item "KCP Bind Port" items ≡ optional_port "KCP Bind Port" r.kcp_bind_port
  pub quic : find_item "QUIC Bind Port" items ≡ optional_port "QUIC Bind Port" r.quic_bind_port
  pub http : find_item "Http Port" items ≡ optional_port "Http Port" r.vhost_http_port
  pub https : find_item "Https Port" items ≡ optional_port "Https Port" r.vhost_https_port
  pub tcpmux :
      find_item "TCPMux HTTPConnect Port" items
      ≡ optional_port "TCPMux HTTPConnect Port" r.tcpmux_httpconnect_port
  pub tls_only :
      find_item "TLS Only" items
      ≡ (if r.tls_only then some (plain "TLS Only" (bool true)) else none)
  pub max_ports :
      find_item "Max Ports Per Client" items
      ≡ some (
          plain "Max Ports Per Client"
            (if r.max_ports_per_client == 0 then str "no limit" else num r.max_ports_per_client))

-- What `read` finds in the answer.
zero_text : text_number "0" ≡ some 0
unfolding text_number
zero_text = refl

shows : (r : ServerInfoResp) → ShowsAnswer r (overview_items (info_of (server_info r) (num 0)))
unfolding overview_items find_item server_info property loosely_num loosely_text
shows r = record {
  kcp = simp find_item-shown_if (ground arith);
  quic = simp find_item-shown_if (ground arith);
  http = simp find_item-shown_if (ground arith);
  https = simp find_item-shown_if (ground arith);
  tcpmux = simp find_item-shown_if (ground arith);
  tls_only = simp find_item-shown_if (ground arith);
  max_ports = simp find_item-shown_if (ground (arith, zero_text));
}

-- On the page that has received an answer: each optional port is listed exactly when it is not 0,
-- the flag `tls_only` exactly when it is set, and a limit of 0 ports reads "no limit".
pub fetch_data-ShowsAnswer :
    (r : ServerInfoResp) (page : Overview)
    → ShowsAnswer r (overview_items (fetch_data (ok (server_info r)) page).info)
fetch_data-ShowsAnswer r page = rw (fetch_data-server_info r page) (shows r)

allow_ports_item :
    (r : ServerInfoResp)
    → r.allow_ports_str ≡ ""
    → find_item "Allow Ports" (overview_items (info_of (server_info r) (num 0)))
      ≡ some (long "Allow Ports" undefined 30)
unfolding overview_items find_item server_info property loosely_num loosely_text
allow_ports_item r h = simp find_item-shown_if (ground (arith, eq_iff r.allow_ports_str ""))

-- If the server restricts no ports, its answer leaves out `allow_ports_str`; the page lists the item
-- "Allow Ports" all the same, with `undefined` as its text, and the span of that item throws.
pub allow_ports_unrestricted :
    (r : ServerInfoResp) (page : Overview)
    → r.allow_ports_str ≡ ""
    → (find_item "Allow Ports" (overview_items (fetch_data (ok (server_info r)) page).info)
        ≡ some (long "Allow Ports" undefined 30))
      × (long_span undefined 30 ≡ throw type_error)
unfolding long_span
allow_ports_unrestricted r page h =
    (rw (fetch_data-server_info r page) (allow_ports_item r h), refl)
