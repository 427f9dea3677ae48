-- ===== src/Web/Traffic.antt =====
-- web/frps/src/components/Traffic.vue: the week's traffic of one proxy.
pub mod Laws
use chml_frp_frp.Prelude.{String, List, [], ◌∷◌, ◌++◌, ◌+++◌}
use chml_frp_frp.Web.Value.{Value, Thrown, Result, ok, throw, get}
use chml_frp_frp.Web.Calendar.{Date}
use chml_frp_frp.Web.Chart.{ChartCall, Drawing, draw_proxy_traffic_chart}
use chml_frp_frp.Web.Page.{Message, Handler, ◌>>=◌, attempt, caught}

pub record Traffic : Type 0 where
  pub charts : List ChartCall
  pub messages : List Message

-- The path that is fetched.
unfoldable pub traffic_url : String → String
traffic_url proxy_name = "../api/traffic/" +++ proxy_name

-- `error_text` is how the language prints what was thrown.
module _ (error_text : Thrown → String) where
  pub traffic_failure : Thrown → Message
  traffic_failure e = record {
    text = "Get traffic info failed!" +++ error_text e;
    kind = "warning";
  }

abbrev draw : Drawing → Handler Traffic (Unit {0})
draw (calls, outcome) page = (outcome, record page { charts = page.charts ++ calls })

module _ (error_text : Thrown → String) (proxy_name : String) (today : Date) where
  pub fetch_traffic : Result Value → Traffic → Traffic
  fetch_traffic answer page =
      caught (λ e p. record p { messages = p.messages ++ traffic_failure error_text e ∷ [] })
        (work page)
    where
      work : Handler Traffic (Unit {0})
      work = do
        json ← attempt answer
        traffic_in ← attempt (get json "traffic_in")
        traffic_out ← attempt (get json "traffic_out")
        draw (draw_proxy_traffic_chart proxy_name today traffic_in traffic_out)
