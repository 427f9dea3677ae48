-- ===== src/Web/Calendar/Laws.antt =====
-- Going a day back and a day on.
use chml_frp_frp.Prelude.{ℕ, zero, suc, ◌+◌, ◌-◌, ◌≤◌, ◌<◌, ◌≡◌, refl, arith}
use chml_frp_frp.Web.Calendar.{Date, IsDate, days_in, next_day, last_day, days_before}

pub days_in_bounds : (y m : ℕ) → (28 ≤ days_in y m) × (days_in y m ≤ 31)
unfolding days_in
days_in_bounds y m = ground arith

days_in_december : (y : ℕ) → days_in y 11 ≡ 31
unfolding days_in
days_in_december y = refl

pub last_day-IsDate : (d : Date) → IsDate d → IsDate (last_day d)
unfolding last_day
last_day-IsDate d v =
    ground (arith, days_in_december (d.year - 1), days_in_bounds d.year (d.month - 1))

pub next_day-last_day : (d : Date) → IsDate d → 0 < d.year → next_day (last_day d) ≡ d
unfolding last_day next_day
next_day-last_day d v h =
    ground (arith, days_in_december (d.year - 1), days_in_bounds d.year (d.month - 1))

year-last_day : (d : Date) → d.year ≤ (last_day d).year + 1
unfolding last_day
year-last_day d = ground arith

pub days_before-IsDate : (n : ℕ) (d : Date) → IsDate d → IsDate (days_before n d)
unfolding days_before
days_before-IsDate zero d v = v
days_before-IsDate (suc n) d v = days_before-IsDate n (last_day d) (last_day-IsDate d v)

-- The day after the day that lies `n + 1` days back lies `n` days back.
pub next_day-days_before :
    (n : ℕ) (d : Date) → IsDate d → n < d.year → next_day (days_before (suc n) d) ≡ days_before n d
unfolding days_before
next_day-days_before zero d v h = next_day-last_day d v h
next_day-days_before (suc n) d v h =
    next_day-days_before n (last_day d) (last_day-IsDate d v) (omega (arith, year-last_day d))

pub next_day-IsDate : (d : Date) → IsDate d → IsDate (next_day d)
unfolding next_day
next_day-IsDate d v =
    ground (arith, days_in_bounds d.year (d.month + 1), days_in_bounds (d.year + 1) 0)
