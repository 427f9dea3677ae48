-- ===== src/Web/Traffic/Laws.antt =====
-- What Traffic.vue shows: the chart, or the message of a failure.
use chml_frp_frp.Prelude.{false, String, ◌≡◌, ◌⊎◌, [], ◌∷◌, ◌++◌, arith}
use chml_frp_frp.Web.Value.{
  Value, Thrown, type_error, arr, Items, ok, throw, is_nullish, read, get-eq-read,
}
use chml_frp_frp.Web.Calendar.{Date}
use chml_frp_frp.Web.Chart.{drawn, opened, bar, draw_proxy_traffic_chart, reverse_array}
use chml_frp_frp.Web.Chart.Traffic.{bar_of}
use chml_frp_frp.Web.Traffic.{Traffic, traffic_failure, fetch_traffic}

module _ (error_text : Thrown → String) (proxy_name : String) (today : Date) (page : Traffic) where
  -- An answer with two arrays is drawn, and adds no message.
  pub fetch_traffic-drawn :
      (json : Value) (xs ys : Items)
      → is_nullish json ≡ false
      → read json "traffic_in" ≡ arr xs
      → read json "traffic_out" ≡ arr ys
      → fetch_traffic error_text proxy_name today (ok json) page ≡ record page {
        charts = page.charts ++ (drawn proxy_name (ok (bar (bar_of today xs ys)))).0;
      }
  unfolding fetch_traffic draw_proxy_traffic_chart reverse_array
  fetch_traffic-drawn json xs ys object has_in has_out =
      rw (
        get-eq-read json "traffic_in" object,
        get-eq-read json "traffic_out" object,
        has_in,
        has_out,
      )

  -- An answer in which one of the two is no array adds one message, and leaves the chart in its
  -- loading state.
  pub fetch_traffic_unlisted :
      (json : Value)
      → is_nullish json ≡ false
      → (reverse_array (read json "traffic_in") ≡ throw type_error)
        ⊎ (reverse_array (read json "traffic_out") ≡ throw type_error)
      → fetch_traffic error_text proxy_name today (ok json) page ≡ record page {
        charts = page.charts ++ opened proxy_name;
        messages = page.messages ++ traffic_failure error_text type_error ∷ [];
      }
  unfolding fetch_traffic draw_proxy_traffic_chart reverse_array
  fetch_traffic_unlisted json object h =
      rw (get-eq-read json "traffic_in" object, get-eq-read json "traffic_out" object)
        (ground arith)
