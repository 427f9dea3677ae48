-- ===== src/Tests/Statistics.antt =====
-- The counters of the server and the chart that is drawn of them.
use chml_frp_frp.Prelude.{ℕ, ◌*◌, String, ◌≡◌, refl, List, [], ◌∷◌, ◌-◌, some, arith, show_nat}
use mathlib.Core.Option
use chml_frp_frp.Web.Value.{num, Items, items, Thrown}
use chml_frp_frp.Web.Calendar.{Date, IsDate, days_in, days_before, days_after, label}
use chml_frp_frp.Web.Chart.{week_labels}
use chml_frp_frp.Web.Traffic.{Traffic}
use chml_frp_frp.Metric.DateCounter.Laws.{Holds, changed}
use chml_frp_frp.Metric.DateCounter.{DateCounter, new_date_counter, inc}
use chml_frp_frp.Metric.DateCounter.Days.{
  Update, incs, decs, effect, update-Holds, new_date_counter-Holds,
}
use chml_frp_frp.Metric.Server.{
  ProxyStatistics, ServerStatistics, count_down, open_connection, new_server_metrics,
  new_proxy_statistics, new_proxy, starts, closes, adds_in, adds_out, clears, record_event,
}
use chml_frp_frp.Metric.Server.Track.{History, ins}
use chml_frp_frp.Server.Api.Chart.{ShowsCalls, after, fetch_traffic-record_all}
use chml_frp_frp.Metric.Server.Listing.{proxy_stats}
use chml_frp_frp.Metric.Server.Reset.{ended, close_connection-negative}

-- 100 on the first day, 7 more the day after, 2 less the day after that.
abbrev history : List (ℕ × Update)
history = (20000, incs 100) ∷ (20001, incs 7) ∷ (20001, incs 1) ∷ (20003, decs 2) ∷ []

abbrev leap_day_after : Date
leap_day_after = record { year = 2024; month = 2; day = 3 }

leap_day_after-IsDate : IsDate leap_day_after
unfolding days_in
leap_day_after-IsDate = omega arith

week_runs :
    week_labels leap_day_after
    ≡ "2024-2-26" ∷ "2024-2-27" ∷ "2024-2-28" ∷ "2024-2-29" ∷ "2024-3-1" ∷ "2024-3-2" ∷ "2024-3-3"
      ∷ []
unfolding week_labels label days_before days_after show_nat
week_runs = refl

abbrev used : DateCounter
used = record { reserve_days = 2; counts = 5 ∷ 4 ∷ []; last_update = 1711839600 }

abbrev counted : DateCounter
counted = inc (20000 * 86400) 5 (new_date_counter 7 (20000 * 86400))

counted-Holds : Holds counted 20000 (changed 20000 (effect (incs 5)) (λ _. 0))
counted-Holds =
    update-Holds (new_date_counter 7 (20000 * 86400)) 20000 20000 (incs 5) (λ _. 0)
      (new_date_counter-Holds 7 20000 (omega arith)) (omega arith)

abbrev week : Items
week = items (num 1 ∷ num 2 ∷ num 3 ∷ num 4 ∷ num 5 ∷ num 6 ∷ num 7 ∷ [])

abbrev error_text : Thrown → String
error_text e = "TypeError"

abbrev blank_page : Traffic
blank_page = record { charts = []; messages = [] }

abbrev ssh_stats : ProxyStatistics
ssh_stats = new_proxy_statistics 20000 "ssh" "tcp"

-- The proxy "ssh" starts, and another one comes and goes while bytes are added.
abbrev calls : History
calls =
    (20000, 8, adds_in "ssh" 100)
    ∷ (20001, 90000, starts "web" "http")
    ∷ (20001, 90001, adds_in "web" 5)
    ∷ (20001, 90002, adds_in "ssh" 8)
    ∷ (20002, 180000, closes "web" "http")
    ∷ (20003, 900000, clears)
    ∷ (20003, 900001, adds_out "ssh" 2)
    ∷ []

ssh_ins : ins "ssh" calls ≡ (20000, incs 100) ∷ (20001, incs 8) ∷ []
ssh_ins = refl

fetch_traffic-record_all_example :
    ShowsCalls error_text "ssh" leap_day_after 20000 20003 calls blank_page
      (after error_text "ssh" "tcp" leap_day_after 20000 7 20003 calls
        (new_server_metrics 20000)
        blank_page)
      2
      20001
unfolding new_server_metrics
fetch_traffic-record_all_example =
    fetch_traffic-record_all error_text "ssh" "tcp" leap_day_after 20000 7 20003 calls
      (new_server_metrics 20000) blank_page 2 20001 refl refl (omega arith) leap_day_after-IsDate
      (omega arith) (omega arith) (omega arith)

abbrev stamp : ℕ → String
stamp t = show_nat t

abbrev started : ServerStatistics
started = record_event 20000 7 (starts "ssh" "tcp") (new_server_metrics 20000)

close_connection-negative_example :
    (Option.map
        (λ (v : ProxyStatistics). (proxy_stats stamp 20000 "ssh" v).0.cur_conns)
        ((ended stamp 20000 9 10 "ssh" "tcp" "udp"
            (open_connection "ssh" started)
            (record ssh_stats { last_start_time = some 7; cur_conns = 1 })).proxy_statistics
          "ssh")
      ≡ some (18446744073709551616 - 1))
    × ((ended stamp 20000 9 10 "ssh" "tcp" "udp"
          (open_connection "ssh" started)
          (record ssh_stats { last_start_time = some 7; cur_conns = 1 })).cur_conns
        ≡ count_down (open_connection "ssh" started).cur_conns)
unfolding record_event new_proxy new_proxy_statistics new_server_metrics open_connection
close_connection-negative_example =
    close_connection-negative stamp 20000 9 10 "ssh" "tcp" "udp" (open_connection "ssh" started)
      (record ssh_stats { last_start_time = some 7; cur_conns = 1 }) refl refl
