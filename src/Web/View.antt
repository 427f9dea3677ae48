-- ===== src/Web/View.antt =====
-- The templates of web/frps: ServerOverview.vue, LongSpan.vue, ProxyView.vue, ProxyViewExpand.vue.
-- What a template shows is a list of labelled items; the layout is left out.
pub mod Laws
use native.Mathlib.Omega.{arith}
use chml_frp_frp.Prelude.{
  ◌≡◌, ℕ, zero, suc, String, Bool, true, false, not, ◌||◌, List, [], ◌∷◌, ◌++◌, Option, none, some,
  ◌<◌, ltb, ◌==◌, str_eq, ◌+++◌, code_points, length, if◌then◌else◌,
}
use Prim.Native.String
use chml_frp_frp.Web.Value.{
  Value, undefined, bool, num, str, Result, ok, throw, type_error, loosely_num, loosely_text,
}
use chml_frp_frp.Web.Proxy.{BaseProxy}
use chml_frp_frp.Web.Overview.{Info}

-- `content.slice(0, n)`, for a text in which every character is one code unit.
unfoldable pub slice_text : ℕ → String → String
slice_text zero s = ""
slice_text (suc n) String.[] = ""
slice_text (suc n) (String.◌∷◌ c s) = String.◌∷◌ c (slice_text n s)

-- The two spans of LongSpan.vue: a text where the span is visible.
pub record Spans : Type 0 where
  pub short : Option String
  pub full : Option String

-- `content.length` throws on `undefined` and `null`, and is `undefined`, which no number is
-- compared with, on a value that is neither text nor array; arrays are not passed here.
unfoldable pub long_span : Value → ℕ → Result Spans
unfolding slice_text
long_span Value.undefined n = throw type_error
long_span Value.null n = throw type_error
long_span (str s) n = ok (record {
  short = if ltb n (length (code_points s)) then some (slice_text n s +++ "...") else none;
  full = if ltb (length (code_points s)) 30 then some s else none;
})
long_span _ n = ok (record { short = none; full = none })

-- An item of a form: a value in a span, or in a `LongSpan` of a length.
pub data Item : Type 0 where
  plain : String → Value → Item
  long : String → Value → ℕ → Item

abbrev pub label_of : Item → String
label_of (plain l v) = l
label_of (long l v n) = l

-- `v-if`
pub shown_if : Bool → Item → List Item
shown_if test item = if test then item ∷ [] else []

abbrev is_true : Value → Bool
is_true (bool true) = true
is_true _ = false

unfoldable pub overview_items : Info → List Item
overview_items info =
    plain "Version" info.version
    ∷ plain "BindPort" info.bind_port
    ∷ (shown_if (not (loosely_num info.kcp_bind_port 0)) (plain "KCP Bind Port" info.kcp_bind_port)
        ++ (shown_if (not (loosely_num info.quic_bind_port 0))
              (plain "QUIC Bind Port" info.quic_bind_port)
            ++ (shown_if (not (loosely_num info.vhost_http_port 0))
                  (plain "Http Port" info.vhost_http_port)
                ++ (shown_if (not (loosely_num info.vhost_https_port 0))
                      (plain "Https Port" info.vhost_https_port)
                    ++ (shown_if (not (loosely_num info.tcpmux_httpconnect_port 0))
                          (plain "TCPMux HTTPConnect Port" info.tcpmux_httpconnect_port)
                        ++ (shown_if (not (loosely_text info.subdomain_host ""))
                              (long "Subdomain Host" info.subdomain_host 30)
                            ++ (plain "Max PoolCount" info.max_pool_count
                                ∷ plain "Max Ports Per Client" info.max_ports_per_client
                                ∷ (shown_if (not (loosely_text info.allow_ports_str ""))
                                      (long "Allow Ports" info.allow_ports_str 30)
                                    ++ (shown_if (is_true info.tls_only)
                                          (plain "TLS Only" info.tls_only)
                                        ++ (plain "HeartBeat Timeout" info.heart_beat_timeout
                                            ∷ plain "Client Counts" info.client_counts
                                            ∷ plain "Current Connections" info.cur_conns
                                            ∷ plain "Proxy Counts" info.proxy_counts
                                            ∷ []))))))))))

-- The item with a label.
unfoldable pub find_item : String → List Item → Option Item
find_item l [] = none
find_item l (i ∷ is) = if str_eq (label_of i) l then some i else find_item l is

pub find_item-shown_if :
    (l : String) (b : Bool) (i : Item) (rest : List Item)
    → find_item l (shown_if b i ++ rest)
      ≡ (if str_eq (label_of i) l then if b then some i else find_item l rest else find_item l rest)
unfolding find_item shown_if
find_item-shown_if l b i rest = ground arith

-- The form below a row of a proxy table.
unfoldable pub expand_items : String → BaseProxy → List Item
expand_items proxy_type row =
    if str_eq proxy_type "http" || str_eq proxy_type "https"
    then plain "Name" row.name
      ∷ plain "Type" (str row.kind)
      ∷ plain "Domains" row.custom_domains
      ∷ plain "SubDomain" (str row.subdomain)
      ∷ plain "locations" row.locations
      ∷ plain "HostRewrite" row.host_header_rewrite
      ∷ plain "Encryption" row.encryption
      ∷ plain "Compression" row.compression
      ∷ plain "Last Start" row.last_start_time
      ∷ plain "Last Close" row.last_close_time
      ∷ []
    else plain "Name" row.name
      ∷ plain "Type" (str row.kind)
      ∷ plain "Addr" (str row.addr)
      ∷ plain "Encryption" row.encryption
      ∷ plain "Compression" row.compression
      ∷ plain "Last Start" row.last_start_time
      ∷ plain "Last Close" row.last_close_time
      ∷ []

-- The tag of the column for the status: `v-if` and `v-else`.
unfoldable pub status_tag : Value → String
status_tag (str s) = if str_eq s "online" then "success" else "danger"
status_tag _ = "danger"
