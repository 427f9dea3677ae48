-- ===== src/Client/Wrapper.antt =====
-- client/proxy/proxy_wrapper.go: the life of a proxy on the client. A time is a number of
-- nanoseconds; sections under the lock are one step each. The messages to the server are a list, the
-- last one first; whether the proxy can run is an argument. The channels that wake the worker early
-- are left out, as a round may come at any time.
pub mod Valid
pub mod Laws
pub mod Restart
use chml_frp_frp.Prelude.{
  zero, suc, ℕ, ◌+◌, String, Bool, true, false, not, ◌||◌, ◌&&◌, Option, none, some, List, [], ◌∷◌,
  ltb, str_eq, if◌then◌else◌,
}

pub data Phase : Type 0 where
  new wait_start start_err running check_failed closed : Phase

pub data Event : Type 0 where
  start_proxy close_proxy : Event

-- 20 and 30 seconds.
abbrev pub wait_response_timeout : ℕ
wait_response_timeout = 20000000000

abbrev pub start_err_timeout : ℕ
start_err_timeout = 30000000000

pub record Wrapper : Type 0 where
  pub phase : Phase
  pub err : String
  pub remote_addr : String
  pub health : ℕ
  pub last_send_start_msg : ℕ
  pub last_start_err : ℕ
  pub stopped : Bool
  pub sent : List Event

-- A wrapper whose configuration has a health check, or none. The times are zero until they are set.
unfoldable pub new_wrapper : Bool → Wrapper
new_wrapper checked = record {
  phase = new;
  err = "";
  remote_addr = "";
  health = if checked then 1 else 0;
  last_send_start_msg = 0;
  last_start_err = 0;
  stopped = false;
  sent = [];
}

abbrev pub is_wait_start : Phase → Bool
is_wait_start wait_start = true
is_wait_start _ = false

abbrev pub is_running : Phase → Bool
is_running running = true
is_running _ = false

-- `pw.close()`
abbrev pub send_close : Wrapper → Wrapper
send_close w = record w { sent = close_proxy ∷ w.sent }

-- `SetRunningStatus`: the answer of the server, with an address or an error, and the error of
-- `Run`, if it is called and fails. It returns its error.
unfoldable pub set_running_status :
    String → String → Option String → Wrapper → Option String × Wrapper
set_running_status remote resp_err run_err w =
    if not (is_wait_start w.phase)
    then (some "status not wait start, ignore start message", w)
    else if not (str_eq resp_err "")
    then (some resp_err, record w { remote_addr = remote; phase = closed; err = resp_err })
    else elim run_err [
      | some e ↦ (some e, record (send_close w) { remote_addr = remote; phase = closed; err = e })
      | none ↦ (none, record w { remote_addr = remote; phase = running; err = "" })
    ]

-- `Stop`; a second call closes a closed channel, which panics.
unfoldable pub stop : Wrapper → Option Wrapper
stop w = if w.stopped then none else some (record (send_close w) { phase = closed; stopped = true })

-- The test that comes before a start message.
abbrev pub is_due : ℕ → Wrapper → Phase → Bool
is_due now w new = true
is_due now w check_failed = true
is_due now w wait_start = ltb (w.last_send_start_msg + wait_response_timeout) now
is_due now w start_err = ltb (w.last_start_err + start_err_timeout) now
is_due now w running = false
is_due now w closed = false

abbrev pub is_announced : Phase → Bool
is_announced running = true
is_announced wait_start = true
is_announced _ = false

-- A round of `checkWorker`.
unfoldable pub check_round : ℕ → Wrapper → Wrapper
check_round now w = elim w.health [
  | zero ↦
      if is_due now w w.phase
      then record w { phase = wait_start; last_send_start_msg = now; sent = start_proxy ∷ w.sent }
      else w
  | suc _ ↦ if is_announced w.phase then record (send_close w) { phase = check_failed } else w
]

unfoldable pub status_normal_callback : Wrapper → Wrapper
status_normal_callback w = record w { health = 0 }

unfoldable pub status_failed_callback : Wrapper → Wrapper
status_failed_callback w = record w { health = 1 }

-- `InWorkConn`: whether the connection is handed to the proxy; if not, it is closed.
unfoldable pub in_work_conn : Wrapper → Bool
in_work_conn w = is_running w.phase

pub data Call : Type 0 where
  answered : String → String → Option String → Call
  stops : Call
  round : ℕ → Call
  well ill : Call

-- A call; a `Stop` that panics changes nothing.
unfoldable pub call : Call → Wrapper → Wrapper
unfolding set_running_status stop check_round status_normal_callback status_failed_callback
call (answered remote resp_err run_err) w = (set_running_status remote resp_err run_err w).1
call stops w = elim (stop w) [ none ↦ w | some v ↦ v ]
call (round now) w = check_round now w
call well w = status_normal_callback w
call ill w = status_failed_callback w

unfoldable pub run : List Call → Wrapper → Wrapper
run [] w = w
run (c ∷ cs) w = run cs (call c w)
