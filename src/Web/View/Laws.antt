-- ===== src/Web/View/Laws.antt =====
-- What LongSpan.vue and the templates of web/frps show.
use chml_frp_frp.Prelude.{
  String, ◌≡◌, ◌↔◌, arith, none, some, code_points, length, ◌+++◌, ltb, ◌==◌, if◌then◌else◌,
}
use chml_frp_frp.Web.Value.{str, ok}
use chml_frp_frp.Web.View.{Spans, long_span, slice_text}

abbrev hidden : Spans
hidden = record { short = none; full = none }

-- At the length 30, with which the page uses it, a text is shown in full below 30 characters and
-- cut above; nothing is shown for exactly the texts of 30 characters.
pub long_span_30 :
    (s : String)
    → (long_span (str s) 30
        ≡ ok (
            if ltb (length (code_points s)) 30
            then record { short = none; full = some s }
            else if length (code_points s) == 30
            then hidden
            else record { short = some (slice_text 30 s +++ "..."); full = none }))
      × ((long_span (str s) 30 ≡ ok hidden) ↔ (length (code_points s) ≡ 30))
unfolding long_span
long_span_30 s = (ground arith, ground arith)
