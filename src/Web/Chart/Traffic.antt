-- ===== src/Web/Chart/Traffic.antt =====
-- The chart of a week's traffic, in web/frps/src/utils/chart.ts: which day each pair of bars is shown at.
use chml_frp_frp.Prelude.{
  ℕ, zero, suc, ◌+◌, ◌-◌, ◌≤◌, ◌<◌, String, ◌≡◌, refl, ap, List, [], ◌∷◌, map, reverse, some, arith,
  length, get_elem?, get_elem?-reverse,
}
use chml_frp_frp.Web.Value.{arr, Items, elements, ok}
use chml_frp_frp.Web.Calendar.{Date, IsDate, label, days_before, days_after}
use chml_frp_frp.Web.Calendar.Laws.{next_day-days_before}
use chml_frp_frp.Web.Chart.{
  BarOption, bar, drawn, reverse_array, date_labels, week_labels, draw_proxy_traffic_chart,
}

abbrev countdown : ℕ → List ℕ
countdown zero = 0 ∷ []
countdown (suc n) = suc n ∷ countdown n

get_elem?-countdown :
    (f : ℕ → String) (n i j : ℕ) → i + j ≡ n → get_elem? (map f (countdown n)) i ≡ some (f j)
get_elem?-countdown f zero zero j h = ap (λ (k : ℕ). some (f k)) (omega arith)
get_elem?-countdown f zero (suc i) j h = absurd (omega arith)
get_elem?-countdown f (suc n) zero j h = ap (λ (k : ℕ). some (f k)) (omega arith)
get_elem?-countdown f (suc n) (suc i) j h = get_elem?-countdown f n i j (omega arith)

date_labels-countdown :
    (n : ℕ) (d : Date)
    → IsDate d
    → n ≤ d.year
    → date_labels (suc n) (days_before n d) ≡ map (λ k. label (days_before k d)) (countdown n)
unfolding date_labels days_after
date_labels-countdown zero d v h = refl
date_labels-countdown (suc n) d v h =
    ap (λ (l : List String). label (days_before (suc n) d) ∷ l)
      (rw (next_day-days_before n d v (omega arith)) (date_labels-countdown n d v (omega arith)))

week_labels-countdown :
    (d : Date)
    → IsDate d
    → 100 < d.year
    → week_labels d ≡ map (λ k. label (days_before k d)) (countdown 6)
unfolding week_labels
week_labels-countdown d v h = date_labels-countdown 6 d v (omega arith)

-- The option of the chart for two arrays, the newest entry first.
abbrev pub bar_of : Date → Items → Items → BarOption
bar_of today xs ys = record {
  legend = "Traffic In" ∷ "Traffic Out" ∷ [];
  dates = week_labels today;
  series =
      record { name = "Traffic In"; bars = reverse (elements xs) }
      ∷ record { name = "Traffic Out"; bars = reverse (elements ys) }
      ∷ [];
}

-- What the chart shows for the day that lies `k` days back: the same position holds the label of
-- that day and the values that stand at index `k` of the two arrays.
pub record ShowsDay (today : Date) (xs ys : Items) (k : ℕ) : Type 0 where
  pub labelled : get_elem? (week_labels today) (6 - k) ≡ some (label (days_before k today))
  pub traffic_in : get_elem? (reverse (elements xs)) (6 - k) ≡ get_elem? (elements xs) k
  pub traffic_out : get_elem? (reverse (elements ys)) (6 - k) ≡ get_elem? (elements ys) k

-- For two arrays of seven entries, newest first, the chart is drawn with seven labels, and shows
-- each of the last seven days, today included, with the entries of that day.
pub draw_proxy_traffic_chart_lem :
    (id : String) (today : Date) (xs ys : Items) (k : ℕ)
    → IsDate today
    → 100 < today.year
    → length (elements xs) ≡ 7
    → length (elements ys) ≡ 7
    → k < 7
    → (draw_proxy_traffic_chart id today (arr xs) (arr ys)
        ≡ drawn id (ok (bar (bar_of today xs ys))))
      × (length (week_labels today) ≡ 7)
      × ShowsDay today xs ys k
unfolding draw_proxy_traffic_chart reverse_array
draw_proxy_traffic_chart_lem id today xs ys k v y hx hy h =
    let labels = week_labels-countdown today v y in
    (
      refl,
      rw labels refl,
      record {
        labelled =
            rw labels
              (get_elem?-countdown (λ k. label (days_before k today)) 6 (6 - k) k (omega arith));
        traffic_in = get_elem?-reverse (elements xs) (6 - k) k (omega arith);
        traffic_out = get_elem?-reverse (elements ys) (6 - k) k (omega arith);
      },
    )
