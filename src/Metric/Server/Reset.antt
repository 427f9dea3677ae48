-- ===== src/Metric/Server/Reset.antt =====
-- Statistics that start again while connections are open, pkg/metrics/mem/server.go.
use chml_frp_frp.Prelude.{ℕ, ◌-◌, String, ◌≡◌, refl, false, some, str_eq, eq_refl}
use mathlib.Core.Option
use chml_frp_frp.Metric.Server.{
  ProxyStatistics, ServerStatistics, count_down, new_proxy, close_proxy, close_connection,
  new_proxy_statistics,
}
use chml_frp_frp.Metric.Server.Listing.{proxy_stats}

module _ (format : ℕ → String) (day t0 t1 : ℕ) (name old kind : String) (m : ServerStatistics)
    (s : ProxyStatistics) where
  abbrev closed : ServerStatistics
  closed = close_proxy t0 name old m

  -- The proxy is closed, one of another type starts under its name, and a connection of the first
  -- one ends.
  abbrev pub ended : ServerStatistics
  ended = close_connection name (new_proxy day t1 name kind closed)

  closed_stands :
      m.proxy_statistics name ≡ some s
      → closed.proxy_statistics name ≡ some (record s { last_close_time = some t0 })
  unfolding close_proxy
  closed_stands known = rw (eq_refl name, known) refl

  total : ended.cur_conns ≡ count_down m.cur_conns
  unfolding close_proxy new_proxy close_connection
  total = refl

  -- A proxy is closed while some of its connections are open, and a proxy of another type starts
  -- under its name, with new statistics. When one of the old connections ends, the new statistics
  -- count it, and report -1 connections, for which the residue modulo 2 ^ 64 stands; the number of
  -- all connections is right.
  pub close_connection-negative :
      m.proxy_statistics name ≡ some s
      → str_eq s.proxy_type kind ≡ false
      → (Option.map
            (λ (v : ProxyStatistics). (proxy_stats format day name v).0.cur_conns)
            (ended.proxy_statistics name)
          ≡ some (18446744073709551616 - 1))
        × (ended.cur_conns ≡ count_down m.cur_conns)
  unfolding close_connection new_proxy proxy_stats new_proxy_statistics
  close_connection-negative known other =
      (rw (eq_refl name, closed_stands known, other) refl, total)
