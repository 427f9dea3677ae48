-- ===== src/Metric/Server/Track.antt =====
-- What the statistics hold of a proxy that keeps running, pkg/metrics/mem/server.go.
use chml_frp_frp.Prelude.{
  ℕ, String, ◌≡◌, refl, sym, ap, ◌∙◌, Bool, true, false, not, ◌&&◌, Option, some, List, [], ◌∷◌,
  ◌++◌, append-nil, arith, str_eq, eq_iff, inl, inr, if◌then◌else◌, Bool-cases,
}
use chml_frp_frp.Metric.DateCounter.{DateCounter, inc}
use chml_frp_frp.Metric.DateCounter.Days.{Update, incs, update, run}
use chml_frp_frp.Metric.Server.{
  ProxyStatistics, ServerStatistics, count_up, count_down, midnight, before, change, Event,
  new_client, close_client, starts, closes, opens_connection, closes_connection, adds_in, adds_out,
  clears, record_event, record_all,
}

abbrev pub History : Type 0
History = List (ℕ × ℕ × Event)

-- No call starts or closes the proxy of a name.
abbrev leaves : String → Event → Bool
leaves name (starts x kind) = not (str_eq name x)
leaves name (closes x kind) = not (str_eq name x)
leaves name _ = true

abbrev pub leave : String → History → Bool
leave name [] = true
leave name ((day, now, e) ∷ rest) = leaves name e && leave name rest

-- The bytes that a history adds to a proxy, by days, and what it does to the number of its
-- connections.
abbrev pub in_of : String → ℕ → Event → List (ℕ × Update)
in_of name day (adds_in x bytes) = if str_eq name x then (day, incs bytes) ∷ [] else []
in_of name day _ = []

abbrev pub out_of : String → ℕ → Event → List (ℕ × Update)
out_of name day (adds_out x bytes) = if str_eq name x then (day, incs bytes) ∷ [] else []
out_of name day _ = []

abbrev conns_of : String → Event → ℕ → ℕ
conns_of name (opens_connection x) n = if str_eq name x then count_up n else n
conns_of name (closes_connection x) n = if str_eq name x then count_down n else n
conns_of name _ n = n

abbrev pub ins : String → History → List (ℕ × Update)
ins name [] = []
ins name ((day, now, e) ∷ rest) = in_of name day e ++ ins name rest

abbrev pub outs : String → History → List (ℕ × Update)
outs name [] = []
outs name ((day, now, e) ∷ rest) = out_of name day e ++ outs name rest

abbrev pub conns : String → History → ℕ → ℕ
conns name [] n = n
conns name ((day, now, e) ∷ rest) n = conns name rest (conns_of name e n)

abbrev pub tracked : String → History → ProxyStatistics → ProxyStatistics
tracked name h s = record s {
  traffic_in = run (ins name h) s.traffic_in;
  traffic_out = run (outs name h) s.traffic_out;
  cur_conns = conns name h s.cur_conns;
}

change_lem :
    (name x : String) (f : ProxyStatistics → ProxyStatistics)
    (stats : String → Option ProxyStatistics) (s : ProxyStatistics)
    → stats name ≡ some s
    → change x f stats name ≡ some (if str_eq name x then f s else s)
change_lem name x f stats s known = elim (Bool-cases (str_eq name x)) [
  | inl e ↦ rw (e, ap stats (sym ((eq_iff name x).0 e)) ∙ known) refl
  | inr e ↦ rw (e, known) refl
]

step_tracked :
    (name : String) (day now : ℕ) (e : Event) (m : ServerStatistics) (s : ProxyStatistics)
    → m.proxy_statistics name ≡ some s
    → before s.last_start_time s.last_close_time ≡ false
    → leaves name e ≡ true
    → (record_event day now e m).proxy_statistics name ≡ some (tracked name ((day, now, e) ∷ []) s)
unfolding record_event
step_tracked name day now new_client m s known runs h = known
step_tracked name day now close_client m s known runs h = known
step_tracked name day now (starts x kind) m s known runs h = ground (arith, known)
step_tracked name day now (closes x kind) m s known runs h = ground (arith, known)
step_tracked name day now (opens_connection x) m s known runs h = ground (
  arith,
  change_lem name x (λ v. record v { cur_conns = count_up v.cur_conns }) m.proxy_statistics s known,
)
step_tracked name day now (closes_connection x) m s known runs h = ground (
  arith,
  change_lem name x (λ v. record v { cur_conns = count_down v.cur_conns }) m.proxy_statistics s
      known,
)
step_tracked name day now (adds_in x bytes) m s known runs h = ground (
  arith,
  change_lem name x (λ v. record v { traffic_in = inc (midnight day) bytes v.traffic_in })
      m.proxy_statistics s known,
)
step_tracked name day now (adds_out x bytes) m s known runs h = ground (
  arith,
  change_lem name x (λ v. record v { traffic_out = inc (midnight day) bytes v.traffic_out })
      m.proxy_statistics s known,
)
step_tracked name day now clears m s known runs h = rw (known, runs) refl

run-append : (us vs : List (ℕ × Update)) (c : DateCounter) → run (us ++ vs) c ≡ run vs (run us c)
run-append [] vs c = refl
run-append (u ∷ us) vs c = run-append us vs (update u c)

-- A proxy that has statistics, and that was not closed since its last start: after any history that
-- neither starts nor closes it, whatever becomes of other proxies and however often useless
-- statistics are cleared, the statistics of the proxy are still there; its counters have taken the
-- bytes that were added for it, and no others, in their order; and its connections are those that
-- were opened for it, less those that were closed.
pub record_all-tracked :
    (name : String) (h : History) (m : ServerStatistics) (s : ProxyStatistics)
    → m.proxy_statistics name ≡ some s
    → before s.last_start_time s.last_close_time ≡ false
    → leave name h ≡ true
    → (record_all h m).proxy_statistics name ≡ some (tracked name h s)
unfolding record_all
record_all-tracked name [] m s known runs h = known
record_all-tracked name ((day, now, e) ∷ rest) m s known runs h =
    let first = step_tracked name day now e m s known runs (ground arith) in
    record_all-tracked name rest (record_event day now e m) (tracked name ((day, now, e) ∷ []) s)
      first runs (ground arith)
    ∙ rw
        (
          append-nil (in_of name day e),
          append-nil (out_of name day e),
          run-append (in_of name day e) (ins name rest) s.traffic_in,
          run-append (out_of name day e) (outs name rest) s.traffic_out,
        )
        refl
