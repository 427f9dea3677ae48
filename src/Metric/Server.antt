-- ===== src/Metric/Server.antt =====
-- pkg/metrics/mem/server.go, with pkg/util/metric/counter.go: the statistics of the server and of its
-- proxies. A time is a number of seconds, and `none` the zero time; a call tells the day too, to
-- whose midnight the counters truncate its time. A counter holds an int32 as its residue modulo
-- 2 ^ 32. A map is a function; the loops that visit one take its keys in the order that they meet.
pub mod Track
pub mod Listing
pub mod Listed
pub mod Reset
use chml_frp_frp.Prelude.{
  ℕ, ◌+◌, ◌-◌, ◌*◌, ◌%◌, String, Bool, true, false, not, ◌&&◌, Option, none, some, List, [], ◌∷◌,
  ltb, if◌then◌else◌, str_eq,
}
use chml_frp_frp.Metric.DateCounter.{DateCounter, new_date_counter, inc}

abbrev pub reserve_days : ℕ
reserve_days = 7

abbrev pub int32_mod : ℕ
int32_mod = 4294967296

-- `Inc(1)` and `Dec(1)` of a counter.
abbrev pub count_up : ℕ → ℕ
count_up n = (n + 1) % int32_mod

abbrev pub count_down : ℕ → ℕ
count_down n = (n + (int32_mod - 1)) % int32_mod

pub record ProxyStatistics : Type 0 where
  pub name : String
  pub proxy_type : String
  pub traffic_in : DateCounter
  pub traffic_out : DateCounter
  pub cur_conns : ℕ
  pub last_start_time : Option ℕ
  pub last_close_time : Option ℕ

pub record ServerStatistics : Type 0 where
  pub total_traffic_in : DateCounter
  pub total_traffic_out : DateCounter
  pub cur_conns : ℕ
  pub client_counts : ℕ
  pub proxy_type_counts : String → Option ℕ
  pub proxy_statistics : String → Option ProxyStatistics

-- The midnight of a day.
abbrev pub midnight : ℕ → ℕ
midnight day = day * 86400

abbrev pub put {ℓ} : {A : Type ℓ} → String → A → (String → A) → String → A
put k a f x = if str_eq x k then a else f x

unfoldable pub new_server_metrics : ℕ → ServerStatistics
new_server_metrics day = record {
  total_traffic_in = new_date_counter reserve_days (midnight day);
  total_traffic_out = new_date_counter reserve_days (midnight day);
  cur_conns = 0;
  client_counts = 0;
  proxy_type_counts = λ _. none;
  proxy_statistics = λ _. none;
}

abbrev pub count_or : Option ℕ → ℕ
count_or none = 0
count_or (some n) = n

unfoldable pub new_proxy_statistics : ℕ → String → String → ProxyStatistics
new_proxy_statistics day name kind = record {
  name = name;
  proxy_type = kind;
  traffic_in = new_date_counter reserve_days (midnight day);
  traffic_out = new_date_counter reserve_days (midnight day);
  cur_conns = 0;
  last_start_time = none;
  last_close_time = none;
}

-- The statistics that `NewProxy` starts: those of the name, if they are of the type.
abbrev pub started_statistics : ℕ → String → String → Option ProxyStatistics → ProxyStatistics
started_statistics day name kind none = new_proxy_statistics day name kind
started_statistics day name kind (some s) =
    if str_eq s.proxy_type kind then s else new_proxy_statistics day name kind

unfoldable pub new_proxy : ℕ → ℕ → String → String → ServerStatistics → ServerStatistics
unfolding new_proxy_statistics
new_proxy day now name kind m = record m {
  proxy_type_counts =
      put kind (some (count_up (count_or (m.proxy_type_counts kind)))) m.proxy_type_counts;
  proxy_statistics =
      put name
        (some (record (started_statistics day name kind (m.proxy_statistics name)) {
          last_start_time = some now;
        }))
        m.proxy_statistics;
}

-- A change of the statistics of a name, where there are any.
abbrev pub change :
    String
    → (ProxyStatistics → ProxyStatistics)
    → (String → Option ProxyStatistics)
    → String
    → Option ProxyStatistics
change name f stats x =
    if str_eq x name then elim (stats name) [ none ↦ none | some s ↦ some (f s) ] else stats x

abbrev lessened : Option ℕ → Option ℕ
lessened none = none
lessened (some n) = some (count_down n)

unfoldable pub close_proxy : ℕ → String → String → ServerStatistics → ServerStatistics
close_proxy now name kind m = record m {
  proxy_type_counts = put kind (lessened (m.proxy_type_counts kind)) m.proxy_type_counts;
  proxy_statistics = change name (λ s. record s { last_close_time = some now }) m.proxy_statistics;
}

unfoldable pub open_connection : String → ServerStatistics → ServerStatistics
open_connection name m = record m {
  cur_conns = count_up m.cur_conns;
  proxy_statistics =
      change name (λ s. record s { cur_conns = count_up s.cur_conns }) m.proxy_statistics;
}

unfoldable pub close_connection : String → ServerStatistics → ServerStatistics
close_connection name m = record m {
  cur_conns = count_down m.cur_conns;
  proxy_statistics =
      change name (λ s. record s { cur_conns = count_down s.cur_conns }) m.proxy_statistics;
}

unfoldable pub add_traffic_in : ℕ → String → ℕ → ServerStatistics → ServerStatistics
add_traffic_in day name bytes m = record m {
  total_traffic_in = inc (midnight day) bytes m.total_traffic_in;
  proxy_statistics =
      change name (λ s. record s { traffic_in = inc (midnight day) bytes s.traffic_in })
        m.proxy_statistics;
}

unfoldable pub add_traffic_out : ℕ → String → ℕ → ServerStatistics → ServerStatistics
add_traffic_out day name bytes m = record m {
  total_traffic_out = inc (midnight day) bytes m.total_traffic_out;
  proxy_statistics =
      change name (λ s. record s { traffic_out = inc (midnight day) bytes s.traffic_out })
        m.proxy_statistics;
}

-- `a.Before(b)`
abbrev pub before : Option ℕ → Option ℕ → Bool
before a none = false
before none (some b) = true
before (some a) (some b) = ltb a b

-- More than seven days after a time.
abbrev pub long_since : ℕ → Option ℕ → Bool
long_since now none = false
long_since now (some t) = ltb 604800 (now - t)

abbrev pub is_useless : ℕ → ProxyStatistics → Bool
is_useless now s = before s.last_start_time s.last_close_time && long_since now s.last_close_time

-- `clearUselessInfo`, less the two numbers that it logs.
unfoldable pub clear_useless_info : ℕ → ServerStatistics → ServerStatistics
clear_useless_info now m = record m {
  proxy_statistics = λ x. elim (m.proxy_statistics x) [
    | none ↦ none
    | some s ↦ if is_useless now s then none else some s
  ];
}

pub data Event : Type 0 where
  new_client close_client : Event
  starts closes : (name kind : String) → Event
  opens_connection closes_connection : (name : String) → Event
  adds_in adds_out : (name : String) (bytes : ℕ) → Event
  clears : Event

-- A call, on a day at a time.
unfoldable pub record_event : ℕ → ℕ → Event → ServerStatistics → ServerStatistics
unfolding new_proxy close_proxy open_connection close_connection add_traffic_in add_traffic_out
    clear_useless_info
record_event day now new_client m = record m { client_counts = count_up m.client_counts }
record_event day now close_client m = record m { client_counts = count_down m.client_counts }
record_event day now (starts name kind) m = new_proxy day now name kind m
record_event day now (closes name kind) m = close_proxy now name kind m
record_event day now (opens_connection name) m = open_connection name m
record_event day now (closes_connection name) m = close_connection name m
record_event day now (adds_in name bytes) m = add_traffic_in day name bytes m
record_event day now (adds_out name bytes) m = add_traffic_out day name bytes m
record_event day now clears m = clear_useless_info now m

-- The calls of a history, each with its day and its time.
unfoldable pub record_all : List (ℕ × ℕ × Event) → ServerStatistics → ServerStatistics
unfolding record_event
record_all [] m = m
record_all ((day, now, event) ∷ rest) m = record_all rest (record_event day now event m)
