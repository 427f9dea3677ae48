-- ===== src/Web/Chart/Laws.antt =====
-- The chart of the proxies by type, in web/frps/src/utils/chart.ts, against a description by a table.
use chml_frp_frp.Prelude.{
  String, ◌≡◌, refl, sym, ap, ◌∙◌, Bool, true, false, not, ◌&&◌, List, [], ◌∷◌, ◌++◌, map,
  append_assoc, append-nil, arith, keep, Bool-cases, inl, inr, if◌then◌else◌,
}
use chml_frp_frp.Web.Value.{
  Value, Result, ok, throw, type_error, ◌>>=◌, >>=_assoc, is_nullish, get, read, get-eq-read,
  get-eq-throw, loosely_num,
}
use chml_frp_frp.Web.Chart.{
  Slice, PieOption, pie, opened, drawn, push_count, proxy_option, draw_proxy_chart,
}

-- The types of proxy, by their keys in the answer of the server, and their names in the chart.
abbrev pub chart_types : List (String × String)
chart_types =
    ("tcp", "TCP")
    ∷ ("udp", "UDP")
    ∷ ("http", "HTTP")
    ∷ ("https", "HTTPS")
    ∷ ("stcp", "STCP")
    ∷ ("sudp", "SUDP")
    ∷ ("xtcp", "XTCP")
    ∷ []

abbrev pub is_visible : Slice → Bool
is_visible s = not (is_nullish s.value) && not (loosely_num s.value 0)

abbrev pub slice_of : Value → String × String → Slice
slice_of counts t = record { value = read counts t.0; name = t.1 }

-- The slices that a table of counts calls for: one for each type with a count other than 0.
abbrev pub slices_of : Value → List Slice
slices_of counts = keep is_visible (map (slice_of counts) chart_types)

-- The option with given slices: its legend names them in their order.
abbrev pub pie_of : List Slice → PieOption
pie_of ss = record { text = "Proxies"; subtext = "now"; legend = map (λ s. s.name) ss; slices = ss }

map-append_one :
    (ss : List Slice) (s : Slice)
    → map (λ (x : Slice). x.name) (ss ++ s ∷ []) ≡ map (λ x. x.name) ss ++ s.name ∷ []
map-append_one [] s = refl
map-append_one (x ∷ ss) s = rw (map-append_one ss s)

module _ (info counts : Value) (has : get info "proxy_type_count" ≡ ok counts) where
  push_count-pie_of :
      (t : String × String) (ss : List Slice)
      → is_nullish counts ≡ false
      → push_count info t.0 t.1 (pie_of ss)
        ≡ ok (pie_of (ss ++ keep is_visible (slice_of counts t ∷ [])))
  unfolding push_count
  push_count-pie_of t ss h =
      rw (has, get-eq-read counts t.0 h)
        (ground (arith, map-append_one ss (slice_of counts t), append-nil ss))

  keep-cons :
      (s : Slice) (ss : List Slice)
      → keep is_visible (s ∷ ss) ≡ keep is_visible (s ∷ []) ++ keep is_visible ss
  keep-cons s ss = ground arith

  pushes : PieOption → List (String × String) → Result PieOption
  pushes option [] = ok option
  pushes option (t ∷ ts) = push_count info t.0 t.1 option >>= λ next. pushes next ts

  pushes-pie_of :
      (ts : List (String × String)) (ss : List Slice)
      → is_nullish counts ≡ false
      → pushes (pie_of ss) ts ≡ ok (pie_of (ss ++ keep is_visible (map (slice_of counts) ts)))
  unfolding pushes
  pushes-pie_of [] ss h = rw append-nil
  pushes-pie_of (t ∷ ts) ss h =
      rw
        (
          push_count-pie_of t ss h,
          pushes-pie_of ts (ss ++ keep is_visible (slice_of counts t ∷ [])) h,
        )
        (ap (λ (l : List Slice). ok (pie_of l))
          (append_assoc ss (keep is_visible (slice_of counts t ∷ []))
              (keep is_visible (map (slice_of counts) ts))
            ∙ ap (λ (l : List Slice). ss ++ l)
                (sym (keep-cons (slice_of counts t) (map (slice_of counts) ts)))))

  proxy_option-pushes : proxy_option info ≡ (pushes (pie_of []) chart_types >>= λ o. ok (pie o))
  unfolding proxy_option pushes
  proxy_option-pushes = simp >>=_assoc

  proxy_option-slices :
      is_nullish counts ≡ false → proxy_option info ≡ ok (pie (pie_of (slices_of counts)))
  proxy_option-slices h = rw (proxy_option-pushes, pushes-pie_of chart_types [] h)

  proxy_option_missing : is_nullish counts ≡ true → proxy_option info ≡ throw type_error
  unfolding proxy_option push_count
  proxy_option_missing h = rw (has, get-eq-throw counts "tcp" h)

-- Where the answer of the server has a table of counts, the chart gets one slice for each type whose
-- count is there and not 0, in the order of the table, and the legend names just these slices;
-- where it has none the function throws and leaves the chart in its loading state.
pub draw_proxy_chart_lem :
    (id : String) (info counts : Value)
    → get info "proxy_type_count" ≡ ok counts
    → draw_proxy_chart id info ≡ (
        if is_nullish counts
        then (opened id, throw type_error)
        else drawn id (ok (pie (pie_of (slices_of counts)))))
unfolding draw_proxy_chart
draw_proxy_chart_lem id info counts has = elim (Bool-cases (is_nullish counts)) [
  | inl gone ↦ rw (proxy_option_missing info counts has gone, gone)
  | inr there ↦ rw (proxy_option-slices info counts has there, there)
]
