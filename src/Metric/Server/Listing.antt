-- ===== src/Metric/Server/Listing.antt =====
-- The reports of pkg/metrics/mem/server.go: GetServer, GetProxiesByType and
-- GetProxiesByTypeAndName. A counter that is asked for the count of today is rotated, so that the
-- reports return the statistics too. The text of a time is a parameter.
use chml_frp_frp.Prelude.{
  ℕ, ◌+◌, ◌-◌, String, Bool, false, ◌&&◌, Option, none, some, List, [], ◌∷◌, ltb, ◌==◌, str_eq,
  if◌then◌else◌,
}
use chml_frp_frp.Metric.DateCounter.{today_count}
use chml_frp_frp.Metric.Server.{ProxyStatistics, ServerStatistics, int32_mod, midnight, put}

pub record ServerStats : Type 0 where
  pub total_traffic_in : ℕ
  pub total_traffic_out : ℕ
  pub cur_conns : ℕ
  pub client_counts : ℕ
  pub proxy_type_counts : List (String × ℕ)

pub record ProxyStats : Type 0 where
  pub name : String
  pub kind : String
  pub today_traffic_in : ℕ
  pub today_traffic_out : ℕ
  pub cur_conns : ℕ
  pub last_start_time : String
  pub last_close_time : String

-- `int64(c.Count())`: the residue modulo 2 ^ 64 of the number that a residue modulo 2 ^ 32 stands for.
abbrev pub widen : ℕ → ℕ
widen n = if ltb n 2147483648 then n else n + (18446744073709551616 - int32_mod)

-- The loop over the counters of the types, whose keys it meets in an order.
abbrev type_counts : (String → Option ℕ) → List String → List (String × ℕ)
type_counts counts [] = []
type_counts counts (k ∷ ks) =
    let rest = type_counts counts ks in
    elim (counts k) [ none ↦ rest | some n ↦ (k, widen n) ∷ rest ]

-- `GetServer`, for the traffic of the system on this day and the keys of the counters; if the system
-- reports none, then the traffic of the proxies is taken.
unfoldable pub get_server :
    ℕ → ℕ × ℕ → List String → ServerStatistics → ServerStats × ServerStatistics
get_server day (net_in, net_out) keys m =
    let (ins, counter_in) = today_count (midnight day) m.total_traffic_in in
    let (outs, counter_out) = today_count (midnight day) m.total_traffic_out in
    let fallback = net_in == 0 && net_out == 0 in
    (
      record {
        total_traffic_in = if fallback then ins else net_in;
        total_traffic_out = if fallback then outs else net_out;
        cur_conns = widen m.cur_conns;
        client_counts = widen m.client_counts;
        proxy_type_counts = type_counts m.proxy_type_counts keys;
      },
      if fallback
          then record m { total_traffic_in = counter_in; total_traffic_out = counter_out }
          else m,
    )

module _ (format : ℕ → String) (day : ℕ) where
  abbrev time_text : Option ℕ → String
  time_text none = ""
  time_text (some t) = format t

  -- The report of a proxy, under the key of its statistics.
  unfoldable pub proxy_stats : String → ProxyStatistics → ProxyStats × ProxyStatistics
  proxy_stats name s =
      let (ins, counter_in) = today_count (midnight day) s.traffic_in in
      let (outs, counter_out) = today_count (midnight day) s.traffic_out in
      (
        record {
          name = name;
          kind = s.proxy_type;
          today_traffic_in = ins;
          today_traffic_out = outs;
          cur_conns = widen s.cur_conns;
          last_start_time = time_text s.last_start_time;
          last_close_time = time_text s.last_close_time;
        },
        record s { traffic_in = counter_in; traffic_out = counter_out },
      )

  abbrev pub of_kind : String → Option ProxyStatistics → Bool
  of_kind kind none = false
  of_kind kind (some s) = str_eq s.proxy_type kind

  -- A round of the loop, which passes over a proxy of another type.
  abbrev pub report : String → String → ServerStatistics → Option ProxyStats × ServerStatistics
  report kind x m = elim (m.proxy_statistics x) [
    | none ↦ (none, m)
    | some s ↦
        if str_eq s.proxy_type kind
        then (
          some (proxy_stats x s).0,
          record m { proxy_statistics = put x (some (proxy_stats x s).1) m.proxy_statistics },
        )
        else (none, m)
  ]

  -- `GetProxiesByType`, for the keys in the order in which the loop meets them.
  unfoldable pub get_proxies_by_type :
      String → List String → ServerStatistics → List ProxyStats × ServerStatistics
  unfolding proxy_stats
  get_proxies_by_type kind [] m = ([], m)
  get_proxies_by_type kind (x ∷ xs) m =
      let (first, m1) = report kind x m in
      let (rest, m2) = get_proxies_by_type kind xs m1 in
      (elim first [ none ↦ rest | some ps ↦ ps ∷ rest ], m2)

  -- `GetProxiesByTypeAndName`: the keys are all different, so that the loop finds the name or not.
  unfoldable pub get_proxies_by_type_and_name :
      String → String → ServerStatistics → Option ProxyStats × ServerStatistics
  unfolding proxy_stats
  get_proxies_by_type_and_name kind name m = report kind name m
