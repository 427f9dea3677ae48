-- ===== src/Client/Health.antt =====
-- client/health/health.go: the rounds of a monitor. A round is given by what its check returned; the
-- times and the check itself, which talk to the network, are not modelled. Both callbacks are set, as
-- they are for the one monitor that the client makes.
pub mod Laws
use chml_frp_frp.Prelude.{
  ℕ, suc, ◌+◌, ◌%◌, Bool, true, false, not, ◌&&◌, List, [], ◌∷◌, ◌++◌, ltb, leb, ◌==◌,
  if◌then◌else◌,
}

abbrev pub uint64_mod : ℕ
uint64_mod = 18446744073709551616

abbrev pub int64_bound : ℕ
int64_bound = 9223372036854775808

pub record Monitor : Type 0 where
  pub max_failed_times : ℕ
  pub failed_times : ℕ
  pub status_ok : Bool

-- A call of `statusNormalFn` or of `statusFailedFn`.
pub data Event : Type 0 where
  status_normal status_failed : Event

unfoldable pub new_monitor : ℕ → Monitor
new_monitor max_failed_times = record {
  max_failed_times = if leb max_failed_times 0 then 1 else max_failed_times;
  failed_times = 0;
  status_ok = false;
}

-- `int(monitor.failedTimes) >= monitor.maxFailedTimes`: from 2 ^ 63 on the left side is negative.
abbrev pub reaches_limit : ℕ → ℕ → Bool
reaches_limit failed_times max = ltb failed_times int64_bound && leb max failed_times

abbrev pub succeed : Monitor → Monitor × List Event
succeed m = if not m.status_ok then (record m { status_ok = true }, status_normal ∷ []) else (m, [])

abbrev pub fail : Monitor → Monitor × List Event
fail m =
    let failed = (m.failed_times + 1) % uint64_mod in
    if m.status_ok && reaches_limit failed m.max_failed_times
    then (record m { failed_times = failed; status_ok = false }, status_failed ∷ [])
    else (record m { failed_times = failed }, [])

-- A round of `checkWorker`, for a check that returned no error or one.
unfoldable pub check_round : Bool → Monitor → Monitor × List Event
check_round true m = succeed m
check_round false m = fail m

unfoldable pub check_worker : List Bool → Monitor → Monitor × List Event
unfolding check_round
check_worker [] m = (m, [])
check_worker (passed ∷ rest) m =
    let (next, events) = check_round passed m in
    let (last, later) = check_worker rest next in (last, events ++ later)
