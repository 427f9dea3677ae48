-- ===== src/Web/Overview/Laws.antt =====
-- What the page of web/frps/src/components/ServerOverview.vue shows for an answer of the server.
use chml_frp_frp.Prelude.{
  ℕ, ◌+◌, String, ◌≡◌, refl, ap, ◌∙◌, true, false, List, [], ◌∷◌, ◌++◌, map, arith, keep,
  Bool-cases, inl, inr, ◌⊎◌, if◌then◌else◌, All,
}
use chml_frp_frp.Web.Value.{
  Value, undefined, null, num, str, obj, ok, is_nullish, get, read, get-eq-read, loosely_text,
  loosely_num, plus,
}
use chml_frp_frp.Web.Chart.{
  ChartCall, Slice, opened, drawn, pie, draw_traffic_chart, draw_proxy_chart,
}
use chml_frp_frp.Web.Chart.Laws.{
  draw_proxy_chart_lem, pie_of, slices_of, chart_types, is_visible, slice_of,
}
use chml_frp_frp.Web.Overview.{
  Info, Overview, add_count, add_counts, copy_info, count_proxies, draw, show_info, failure,
  fetch_data,
}

abbrev limit_of : Value → Value
limit_of v = if loosely_text v "0" then str "no limit" else v

-- The fields of the page as a table over the answer, with the number of proxies given.
abbrev pub info_of : Value → Value → Info
info_of json count = record {
  version = read json "version";
  bind_port = read json "bind_port";
  kcp_bind_port = read json "kcp_bind_port";
  quic_bind_port = read json "quic_bind_port";
  vhost_http_port = read json "vhost_http_port";
  vhost_https_port = read json "vhost_https_port";
  tcpmux_httpconnect_port = read json "tcpmux_httpconnect_port";
  subdomain_host = read json "subdomain_host";
  max_pool_count = read json "max_pool_count";
  max_ports_per_client = limit_of (read json "max_ports_per_client");
  allow_ports_str = read json "allow_ports_str";
  tls_only = read json "tls_only";
  heart_beat_timeout = read json "heart_beat_timeout";
  client_counts = read json "client_counts";
  cur_conns = read json "cur_conns";
  proxy_counts = count;
}

copy_info_lem :
    (json : Value) (page : Overview)
    → is_nullish json ≡ false
    → copy_info json page ≡ (ok tt, record page { info = info_of json page.info.proxy_counts })
unfolding copy_info get loosely_text
copy_info_lem (obj fs) page h = ground arith
copy_info_lem undefined page h = cc
copy_info_lem null page h = cc
copy_info_lem _ page h = refl

-- A count that is there is added, by the `+` of the language.
abbrev add_to : Value → Value → Value
add_to total count = if is_nullish count then total else plus total count

abbrev total_from : Value → Value → List (String × String) → Value
total_from counts total [] = total
total_from counts total (t ∷ ts) = total_from counts (add_to total (read counts t.0)) ts

-- The number of proxies that the page shows for a table of counts.
abbrev pub total_of : Value → Value
total_of counts = total_from counts (num 0) chart_types

abbrev with_total : Overview → Value → Overview
with_total page total = record page { info = record (page.info) { proxy_counts = total } }

module _ (json counts : Value) (has : get json "proxy_type_count" ≡ ok counts)
    (there : is_nullish counts ≡ false) where
  add_count_lem :
      (key : String) (page : Overview) (total : Value)
      → add_count json key (with_total page total)
        ≡ (ok tt, with_total page (add_to total (read counts key)))
  unfolding add_count
  add_count_lem key page total = rw (has, get-eq-read counts key there) (ground arith)

  add_counts_lem :
      (page : Overview) (total : Value)
      → add_counts json (with_total page total)
        ≡ (ok tt, with_total page (total_from counts total chart_types))
  unfolding add_counts
  add_counts_lem page total = simp add_count_lem

abbrev traffic_calls : Value → List ChartCall
traffic_calls json =
    (draw_traffic_chart "traffic" (read json "total_traffic_in") (read json "total_traffic_out")).0

-- The page after an answer that holds a table of counts, and after one that holds none.
abbrev pub shown : Value → Value → Overview → Overview
shown json counts page = record page {
  info = info_of json (total_of counts);
  charts =
      (page.charts ++ traffic_calls json)
      ++ (drawn "proxies" (ok (pie (pie_of (slices_of counts))))).0;
}

abbrev pub shown_uncounted : Value → Overview → Overview
shown_uncounted json page = record page {
  info = info_of json (num 0);
  charts = (page.charts ++ traffic_calls json) ++ opened "proxies";
  messages = page.messages ++ failure ∷ [];
}

module _ (json : Value) (page : Overview) (object : is_nullish json ≡ false) where
  has_counts : get json "proxy_type_count" ≡ ok (read json "proxy_type_count")
  has_counts = get-eq-read json "proxy_type_count" object

  counting : Overview
  counting = record page { info = info_of json (num 0) }

  count_proxies_lem :
      is_nullish (read json "proxy_type_count") ≡ false
      → count_proxies json (record page { info = info_of json page.info.proxy_counts })
        ≡ (ok tt, with_total counting (total_of (read json "proxy_type_count")))
  unfolding count_proxies counting
  count_proxies_lem there =
      rw (has_counts, there)
        (add_counts_lem json (read json "proxy_type_count") has_counts there counting (num 0))

  fetch_data_counted :
      is_nullish (read json "proxy_type_count") ≡ false
      → fetch_data (ok json) page ≡ shown json (read json "proxy_type_count") page
  unfolding fetch_data show_info draw draw_traffic_chart counting
  fetch_data_counted there = rw (
    copy_info_lem json page object,
    count_proxies_lem there,
    get-eq-read json "total_traffic_in" object,
    get-eq-read json "total_traffic_out" object,
    draw_proxy_chart_lem "proxies" json (read json "proxy_type_count") has_counts,
    there,
  )

  fetch_data_uncounted :
      is_nullish (read json "proxy_type_count") ≡ true
      → fetch_data (ok json) page ≡ shown_uncounted json page
  unfolding fetch_data show_info draw draw_traffic_chart count_proxies
  fetch_data_uncounted gone = rw (
    copy_info_lem json page object,
    has_counts,
    gone,
    get-eq-read json "total_traffic_in" object,
    get-eq-read json "total_traffic_out" object,
    draw_proxy_chart_lem "proxies" json (read json "proxy_type_count") has_counts,
    gone,
  )

-- For an answer that is neither `null` nor `undefined` the page shows its fields. If the answer
-- holds a table `proxy_type_count`, both charts are drawn, the number of proxies is the total of
-- the table, and no message is shown; if not, the number is 0, the chart of the proxies stays in
-- its loading state, and the message of a failure is added.
pub fetch_data_lem :
    (json : Value) (page : Overview)
    → is_nullish json ≡ false
    → fetch_data (ok json) page ≡ (
        if is_nullish (read json "proxy_type_count")
        then shown_uncounted json page
        else shown json (read json "proxy_type_count") page)
fetch_data_lem json page object = elim (Bool-cases (is_nullish (read json "proxy_type_count"))) [
  | inl gone ↦ rw gone (fetch_data_uncounted json page object gone)
  | inr there ↦ rw there (fetch_data_counted json page object there)
]

-- A table of counts whose entries are numbers or missing.
abbrev IsCount : Value → Type 0
IsCount v = (is_nullish v ≡ true) ⊎ ((n : ℕ) × (v ≡ num n))

abbrev pub HasCounts : Value → Type 0
HasCounts counts = All (λ (t : String × String). IsCount (read counts t.0)) chart_types

-- The sum of the numbers among the values of some slices.
abbrev number : Value → ℕ
number (num n) = n
number _ = 0

abbrev pub slices_sum : List Slice → ℕ
slices_sum [] = 0
slices_sum (s ∷ ss) = number s.value + slices_sum ss

total_from-slices :
    (counts : Value) (acc : ℕ) (ts : List (String × String))
    → All (λ (t : String × String). IsCount (read counts t.0)) ts
    → total_from counts (num acc) ts
      ≡ num (acc + slices_sum (keep is_visible (map (slice_of counts) ts)))
unfolding plus loosely_num
total_from-slices counts acc [] h = ap num (omega arith)
total_from-slices counts acc (t ∷ ts) (inl gone, h) =
    ground (arith, total_from-slices counts acc ts h)
total_from-slices counts acc (t ∷ ts) (inr (n, e), h) =
    rw e (ground (arith, total_from-slices counts (acc + n) ts h))

total_of-slices :
    (counts : Value) → HasCounts counts → total_of counts ≡ num (slices_sum (slices_of counts))
total_of-slices counts h = total_from-slices counts 0 chart_types h ∙ ap num (omega arith)

-- For an answer with a table of counts that are numbers or missing, the number of proxies that the
-- page shows is the sum of the slices of the chart beside it.
pub fetch_data-slices :
    (json : Value) (page : Overview)
    → is_nullish json ≡ false
    → is_nullish (read json "proxy_type_count") ≡ false
    → HasCounts (read json "proxy_type_count")
    → ((fetch_data (ok json) page).info.proxy_counts
        ≡ num (slices_sum (slices_of (read json "proxy_type_count"))))
      × (draw_proxy_chart "proxies" json
          ≡ drawn "proxies" (ok (pie (pie_of (slices_of (read json "proxy_type_count"))))))
fetch_data-slices json page object there counted = (
  rw (fetch_data_counted json page object there)
      (total_of-slices (read json "proxy_type_count") counted),
  draw_proxy_chart_lem "proxies" json (read json "proxy_type_count")
        (get-eq-read json "proxy_type_count" object)
      ∙ rw there,
)
