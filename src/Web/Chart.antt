-- ===== src/Web/Chart.antt =====
-- web/frps/src/utils/chart.ts: the three charts. The chart library is not part of the repository:
-- what a chart is told is a list of calls, and an exception leaves the calls made so far. The
-- constants that only set colours, sizes and positions are left out.
pub mod Laws
pub mod Traffic
use chml_frp_frp.Prelude.{
  ℕ, zero, suc, String, Bool, true, false, not, ◌&&◌, List, [], ◌∷◌, ◌++◌, reverse, ◌+++◌,
  if◌then◌else◌,
}
use chml_frp_frp.Web.Value.{
  Value, arr, elements, Result, ok, throw, type_error, ◌>>=◌, is_nullish, get, loosely_num, to_text,
}
use chml_frp_frp.Web.Calendar.{Date, label, days_before, days_after}

pub record Slice : Type 0 where
  pub value : Value
  pub name : String

pub record PieOption : Type 0 where
  pub text : String
  pub subtext : String
  pub legend : List String
  pub slices : List Slice

pub record Series : Type 0 where
  pub name : String
  pub bars : List Value

pub record BarOption : Type 0 where
  pub legend : List String
  pub dates : List String
  pub series : List Series

pub data ChartOption : Type 0 where
  pie : PieOption → ChartOption
  bar : BarOption → ChartOption

-- Calls on the chart of a page element.
pub data ChartCall : Type 0 where
  init_chart : String → ChartCall
  show_loading : String → ChartCall
  set_option : String → ChartOption → ChartCall
  hide_loading : String → ChartCall

-- The calls that were made, and how the function ended.
abbrev pub Drawing : Type 0
Drawing = List ChartCall × Result (Unit {0})

abbrev pub opened : String → List ChartCall
opened id = init_chart id ∷ show_loading id ∷ []

-- From `echarts.init` to `hideLoading`, with the option that is computed in between.
abbrev pub drawn : String → Result ChartOption → Drawing
drawn id (ok option) = (opened id ++ set_option id option ∷ hide_loading id ∷ [], ok tt)
drawn id (throw e) = (opened id, throw e)

unfoldable pub draw_traffic_chart : String → Value → Value → Drawing
draw_traffic_chart id traffic_in traffic_out = drawn id (
    ok (
      pie (record {
        text = "Network Traffic";
        subtext = "today";
        legend = "Traffic In" ∷ "Traffic Out" ∷ [];
        slices =
            record { value = traffic_in; name = "Traffic In" }
            ∷ record { value = traffic_out; name = "Traffic Out" }
            ∷ [];
      })))

-- One of the seven tests on `proxy_type_count`: a count that is there and not 0 gets a slice.
unfoldable pub push_count : Value → String → String → PieOption → Result PieOption
push_count info key name option = do
  counts ← get info "proxy_type_count"
  count ← get counts key
  ok (
      if not (is_nullish count) && not (loosely_num count 0)
      then record option {
        legend = option.legend ++ name ∷ [];
        slices = option.slices ++ record { value = count; name = name } ∷ [];
      }
      else option)

abbrev empty_pie : PieOption
empty_pie = record { text = "Proxies"; subtext = "now"; legend = []; slices = [] }

unfoldable pub proxy_option : Value → Result ChartOption
proxy_option info = do
  with_tcp ← push_count info "tcp" "TCP" empty_pie
  with_udp ← push_count info "udp" "UDP" with_tcp
  with_http ← push_count info "http" "HTTP" with_udp
  with_https ← push_count info "https" "HTTPS" with_http
  with_stcp ← push_count info "stcp" "STCP" with_https
  with_sudp ← push_count info "sudp" "SUDP" with_stcp
  with_xtcp ← push_count info "xtcp" "XTCP" with_sudp
  ok (pie with_xtcp)

unfoldable pub draw_proxy_chart : String → Value → Drawing
unfolding proxy_option
draw_proxy_chart id info = drawn id (proxy_option info)

-- `v.reverse()`: only an array has that method.
unfoldable pub reverse_array : Value → Result (List Value)
reverse_array (arr xs) = ok (reverse (elements xs))
reverse_array _ = throw type_error

-- The loop over the days: the label of each, and the day after it for the next round.
unfoldable pub date_labels : ℕ → Date → List String
date_labels zero now = []
date_labels (suc n) now = label now ∷ date_labels n (days_after 1 now)

unfoldable pub week_labels : Date → List String
unfolding date_labels
week_labels today = date_labels 7 (days_before 6 today)

unfoldable pub draw_proxy_traffic_chart : String → Date → Value → Value → Drawing
draw_proxy_traffic_chart id today traffic_in traffic_out = drawn id (do
  bars_in ← reverse_array traffic_in
  bars_out ← reverse_array traffic_out
  ok (
      bar (record {
        legend = "Traffic In" ∷ "Traffic Out" ∷ [];
        dates = week_labels today;
        series =
            record { name = "Traffic In"; bars = bars_in }
            ∷ record { name = "Traffic Out"; bars = bars_out }
            ∷ [];
      })))

-- The tooltips. `file_size` is `Humanize.fileSize`.
module _ (file_size : Value → String) where
  pub traffic_tooltip : Value → Value → String
  traffic_tooltip value percent = file_size value +++ " (" +++ to_text percent +++ "%)"

  -- What the chart library tells of a bar under the pointer.
  pub record Hovered : Type 0 where
    pub name : String
    pub series_name : String
    pub color : String
    pub value : Value

  hovered_line : Hovered → String
  hovered_line v =
      "<span style=\"display:inline-block;margin-right:5px;border-radius:10px;width:9px;height:9px;background-color:"
      +++ v.color
      +++ "\"></span>"
      +++ v.series_name
      +++ ": "
      +++ file_size v.value
      +++ "<br/>"

  hovered_lines : String → List Hovered → String
  hovered_lines html [] = html
  hovered_lines html (v ∷ vs) = hovered_lines (html +++ hovered_line v) vs

  pub bar_tooltip : List Hovered → String
  unfolding hovered_lines
  bar_tooltip [] = hovered_lines "" []
  bar_tooltip (v ∷ vs) = hovered_lines (v.name +++ "<br/>") (v ∷ vs)
