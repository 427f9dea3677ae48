-- ===== src/Server/Api/Traffic.antt =====
-- The answer of server/dashboard_api.go to /api/traffic/:name, from the two counters of a proxy in
-- pkg/metrics/mem/server.go, and what the dashboard draws of it.
use chml_frp_frp.Prelude.{
  ℕ, Option, none, zero, suc, ◌+◌, ◌-◌, ◌*◌, ◌<◌, String, ◌≡◌, refl, ap, ◌∙◌, List, [], ◌∷◌, ◌++◌,
  map, reverse, some, arith, length, length-map, get_elem?,
}
use mathlib.Core.Option
use chml_frp_frp.Web.Value.{
  elements-items, Value, str, arr, obj, fields, property, items, elements, Items, Thrown, ok,
}
use chml_frp_frp.Server.Api.{int64_json}
use chml_frp_frp.Metric.Server.{reserve_days, ProxyStatistics, ServerStatistics}
use chml_frp_frp.Web.Calendar.{Date, IsDate, label, days_before}
use chml_frp_frp.Web.Chart.{bar, drawn, week_labels}
use chml_frp_frp.Web.Chart.Traffic.{bar_of, draw_proxy_traffic_chart_lem}
use chml_frp_frp.Web.Traffic.{Traffic, fetch_traffic}
use chml_frp_frp.Web.Traffic.Laws.{fetch_traffic-drawn}
use chml_frp_frp.Metric.DateCounter.{new_date_counter, get_last_days_count}
use chml_frp_frp.Metric.DateCounter.Days.{
  Update, run, ledger, Ordered, get_last_days_count_lem, length-get_last_days_count,
}

unfoldable pub counts_items : List ℕ → Items
unfolding int64_json
counts_items counts = items (map int64_json counts)

unfoldable pub get_proxy_traffic : ℕ → ProxyStatistics → List ℕ × List ℕ
get_proxy_traffic today stats = (
  (get_last_days_count today reserve_days stats.traffic_in).0,
  (get_last_days_count today reserve_days stats.traffic_out).0,
)

unfoldable pub api_proxy_traffic : String → ℕ → ProxyStatistics → Value
api_proxy_traffic name today stats = obj (
    fields (
      ("name", str name)
      ∷ ("traffic_in", arr (counts_items (get_proxy_traffic today stats).0))
      ∷ ("traffic_out", arr (counts_items (get_proxy_traffic today stats).1))
      ∷ []))

get_elem?-map :
    (f : ℕ → Value) (ns : List ℕ) (k : ℕ) → get_elem? (map f ns) k ≡ Option.map f (get_elem? ns k)
get_elem?-map f [] k = refl
get_elem?-map f (n ∷ ns) zero = refl
get_elem?-map f (n ∷ ns) (suc k) = get_elem?-map f ns k

-- The same for a name; the code answers with the status 404 where there are no statistics.
unfoldable pub api_traffic : String → ℕ → ServerStatistics → Option Value
unfolding api_proxy_traffic
api_traffic name today m = elim (m.proxy_statistics name) [
  | none ↦ none
  | some s ↦ some (api_proxy_traffic name today s)
]

-- Statistics whose counters started on the day `d`, after the updates of the two.
abbrev pub statistics :
    ℕ → List (ℕ × Update) → List (ℕ × Update) → ProxyStatistics → ProxyStatistics
statistics d ins outs s = record s {
  traffic_in = run ins (new_date_counter reserve_days (d * 86400));
  traffic_out = run outs (new_date_counter reserve_days (d * 86400));
}

module _ (d e : ℕ) (us : List (ℕ × Update)) (order : Ordered d us e) where
  reported : List ℕ
  reported =
      (get_last_days_count (e * 86400) reserve_days
        (run us (new_date_counter reserve_days (d * 86400)))).0

  length-reported : length (elements (counts_items reported)) ≡ 7
  unfolding counts_items reported
  length-reported =
      ap length (elements-items (map int64_json reported))
      ∙ length-map int64_json reported
      ∙ length-get_last_days_count 7 7 d e us (omega arith) order

  reported_entry :
      (k j : ℕ)
      → k + j ≡ e
      → k < 7
      → get_elem? (elements (counts_items reported)) k ≡ some (int64_json (ledger (λ _. 0) us j))
  unfolding counts_items reported
  reported_entry k j at fits =
      ap (λ (l : List Value). get_elem? l k) (elements-items (map int64_json reported))
      ∙ get_elem?-map int64_json reported k
      ∙ ap (Option.map int64_json)
          (get_last_days_count_lem 7 7 d e k j us (omega arith) order at fits fits)

-- What stands at one position of the chart: the label of the day that lies `k` days back, and the
-- amounts of the day `j` in the two ledgers.
pub record ShowsLedgers (today : Date) (xs ys : Items) (ins outs : List (ℕ × Update)) (k j : ℕ)
    : Type 0 where
  pub labelled : get_elem? (week_labels today) (6 - k) ≡ some (label (days_before k today))
  pub traffic_in :
      get_elem? (reverse (elements xs)) (6 - k) ≡ some (int64_json (ledger (λ _. 0) ins j))
  pub traffic_out :
      get_elem? (reverse (elements ys)) (6 - k) ≡ some (int64_json (ledger (λ _. 0) outs j))

abbrev pub reported_items : ℕ → ℕ → List (ℕ × Update) → Items
reported_items d e us =
    counts_items
      (get_last_days_count (e * 86400) reserve_days
        (run us (new_date_counter reserve_days (d * 86400)))).0

module _ (error_text : Thrown → String) (name : String) (today : Date) (d e : ℕ)
    (ins outs : List (ℕ × Update)) (stats : ProxyStatistics) (page : Traffic) where
  -- From the counters of the server to the chart of the dashboard: on the day `e`, whatever updates
  -- came before with days that do not go back, the page draws the answer of the server without a
  -- message, and for each of the last seven days shows, at the label of that day, the amounts that
  -- the ledgers of the updates have for it.
  pub fetch_traffic-ledger :
      (k j : ℕ)
      → IsDate today
      → 100 < today.year
      → Ordered d ins e
      → Ordered d outs e
      → k + j ≡ e
      → k < 7
      → (fetch_traffic error_text name today
            (ok (api_proxy_traffic name (e * 86400) (statistics d ins outs stats)))
            page
          ≡ record page {
            charts =
                page.charts
                ++ (drawn name
                    (ok (bar (bar_of today (reported_items d e ins) (reported_items d e outs))))).0;
          })
        × ShowsLedgers today (reported_items d e ins) (reported_items d e outs) ins outs k j
  unfolding api_proxy_traffic get_proxy_traffic reported property
  fetch_traffic-ledger k j date year order_in order_out at fits =
      let xs = reported_items d e ins in
      let ys = reported_items d e outs in
      let (_, _, day) =
        draw_proxy_traffic_chart_lem name today xs ys k date year (length-reported d e ins order_in)
          (length-reported d e outs order_out) fits in
      (
        fetch_traffic-drawn error_text name today page
            (api_proxy_traffic name (e * 86400) (statistics d ins outs stats)) xs ys refl refl refl,
        record {
          labelled = day.labelled;
          traffic_in = day.traffic_in ∙ reported_entry d e ins order_in k j at fits;
          traffic_out = day.traffic_out ∙ reported_entry d e outs order_out k j at fits;
        },
      )
