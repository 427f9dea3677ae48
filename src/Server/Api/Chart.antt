-- ===== src/Server/Api/Chart.antt =====
-- From the calls that the server makes on its statistics to the chart of the dashboard:
-- pkg/metrics/mem/server.go, server/dashboard_api.go and web/frps/src/components/Traffic.vue.
use chml_frp_frp.Prelude.{
  ℕ, ◌+◌, ◌*◌, ◌≤◌, ◌<◌, String, ◌≡◌, refl, Bool, true, false, none, some, List, [], ◌∷◌, ◌++◌,
  arith, str_eq, if◌then◌else◌, eq_refl, ◌⊎◌, inl, inr,
}
use chml_frp_frp.Web.Value.{Value, Thrown, ok}
use chml_frp_frp.Web.Calendar.{Date, IsDate}
use chml_frp_frp.Web.Chart.{bar, drawn}
use chml_frp_frp.Web.Chart.Traffic.{bar_of}
use chml_frp_frp.Web.Traffic.{Traffic, fetch_traffic}
use chml_frp_frp.Metric.DateCounter.Days.{Update, incs, Ordered}
use chml_frp_frp.Metric.Server.{
  ProxyStatistics, ServerStatistics, Event, starts, adds_in, adds_out, record_event, record_all,
  new_proxy, new_proxy_statistics,
}
use chml_frp_frp.Metric.Server.Track.{
  History, leave, in_of, out_of, ins, outs, tracked, record_all-tracked,
}
use chml_frp_frp.Server.Api.Traffic.{
  api_proxy_traffic, api_traffic, statistics, ShowsLedgers, reported_items, fetch_traffic-ledger,
}

-- The days of a history do not go back, from one day to another.
abbrev pub InOrder : ℕ → History → ℕ → Type 0
InOrder d [] e = d ≤ e
InOrder d ((day, now, event) ∷ rest) e = (d ≤ day) × InOrder day rest e

Ordered-earlier : (us : List (ℕ × Update)) (c d e : ℕ) → c ≤ d → Ordered d us e → Ordered c us e
Ordered-earlier [] c d e h order = omega arith
Ordered-earlier ((day, u) ∷ us) c d e h (first, rest) = (omega arith, rest)

-- A list of at most one update of a day.
abbrev AtMostOne : ℕ → List (ℕ × Update) → Type 0
AtMostOne day us = (us ≡ []) ⊎ ((u : Update) × (us ≡ (day, u) ∷ []))

Ordered-append :
    (us vs : List (ℕ × Update)) (d day e : ℕ)
    → AtMostOne day us
    → d ≤ day
    → Ordered day vs e
    → Ordered d (us ++ vs) e
Ordered-append us vs d day e (inl none_) h order = rw (none_) (Ordered-earlier vs d day e h order)
Ordered-append us vs d day e (inr (u, one)) h order = rw (one) (h, order)

one_if : (b : Bool) (day : ℕ) (u : Update) → AtMostOne day (if b then (day, u) ∷ [] else [])
one_if true day u = inr (u, refl)
one_if false day u = inl refl

in_of-AtMostOne : (name : String) (day : ℕ) (e : Event) → AtMostOne day (in_of name day e)
in_of-AtMostOne name day (adds_in x bytes) = one_if (str_eq name x) day (incs bytes)
in_of-AtMostOne name day _ = inl refl

out_of-AtMostOne : (name : String) (day : ℕ) (e : Event) → AtMostOne day (out_of name day e)
out_of-AtMostOne name day (adds_out x bytes) = one_if (str_eq name x) day (incs bytes)
out_of-AtMostOne name day _ = inl refl

ins-Ordered : (name : String) (d e : ℕ) (h : History) → InOrder d h e → Ordered d (ins name h) e
ins-Ordered name d e [] order = order
ins-Ordered name d e ((day, now, event) ∷ rest) (first, later) =
    Ordered-append (in_of name day event) (ins name rest) d day e (in_of-AtMostOne name day event)
      first (ins-Ordered name day e rest later)

outs-Ordered : (name : String) (d e : ℕ) (h : History) → InOrder d h e → Ordered d (outs name h) e
outs-Ordered name d e [] order = order
outs-Ordered name d e ((day, now, event) ∷ rest) (first, later) =
    Ordered-append (out_of name day event) (outs name rest) d day e
      (out_of-AtMostOne name day event) first (outs-Ordered name day e rest later)

-- The page on the answer of the server, after the calls on its statistics.
pub record ShowsCalls (error_text : Thrown → String) (name : String) (today : Date) (d e : ℕ)
    (h : History) (page : Traffic) (m : ServerStatistics) (k j : ℕ) : Type 0 where
  pub answer : Value
  pub answered : api_traffic name (e * 86400) m ≡ some answer
  pub drawn_chart : fetch_traffic error_text name today (ok answer) page ≡ record page {
    charts =
        page.charts
        ++ (drawn name (
            ok (
              bar (
                bar_of today
                  (reported_items d e (ins name h))
                  (reported_items d e (outs name h)))))).0;
  }
  pub ledgers :
      ShowsLedgers today
        (reported_items d e (ins name h))
        (reported_items d e (outs name h))
        (ins name h)
        (outs name h)
        k
        j

module _ (error_text : Thrown → String) (name kind : String) (today : Date) (d now e : ℕ)
    (h : History) (m : ServerStatistics) (page : Traffic) where
  -- The statistics with which a proxy starts that had none.
  abbrev begun : ProxyStatistics
  begun = record (new_proxy_statistics d name kind) { last_start_time = some now }

  -- The server after the proxy has started and the calls of the history.
  abbrev pub after : ServerStatistics
  after = record_all h (record_event d now (starts name kind) m)

  begun_stands :
      m.proxy_statistics name ≡ none
      → (record_event d now (starts name kind) m).proxy_statistics name ≡ some begun
  unfolding record_event new_proxy
  begun_stands fresh = rw (eq_refl name, fresh) refl

  served_statistics :
      after.proxy_statistics name ≡ some (tracked name h begun)
      → api_traffic name (e * 86400) after
        ≡ some (
            api_proxy_traffic name
              (e * 86400)
              (statistics d (ins name h) (outs name h) (tracked name h begun)))
  unfolding new_proxy_statistics api_traffic
  served_statistics stands = rw (api_traffic, stands)

  -- A proxy without statistics starts on the day `d`; then come calls whose days do not go back, of
  -- which none starts or closes it. On the day `e` the server has an answer for its page, which
  -- draws it without a message, and for each of the last seven days shows, at the label of that day,
  -- the amounts that the ledgers of the bytes added for this proxy have for it, whatever was
  -- recorded of other proxies, and however often useless statistics were cleared.
  pub fetch_traffic-record_all :
      (k j : ℕ)
      → m.proxy_statistics name ≡ none
      → leave name h ≡ true
      → InOrder d h e
      → IsDate today
      → 100 < today.year
      → k + j ≡ e
      → k < 7
      → ShowsCalls error_text name today d e h page after k j
  unfolding new_proxy_statistics
  fetch_traffic-record_all k j fresh others order date year at fits =
      let s = tracked name h begun in
      let stands =
        record_all-tracked name h (record_event d now (starts name kind) m) begun
          (begun_stands fresh) refl others in
      let (chart, shows) =
        fetch_traffic-ledger error_text name today d e (ins name h) (outs name h) s page k j date
          year (ins-Ordered name d e h order) (outs-Ordered name d e h order) at fits in
      record {
        answer = api_proxy_traffic name (e * 86400) (statistics d (ins name h) (outs name h) s);
        answered = served_statistics stands;
        drawn_chart = chart;
        ledgers = shows;
      }
