-- ===== src/Web/Calendar.antt =====
-- The local dates that web/frps/src/utils/chart.ts computes with, as the language does them: months
-- are counted from 0, and a day past either end of its month runs over into the next or the last
-- one. A year below 100 has another meaning there, and is left out.
pub mod Laws
use chml_frp_frp.Prelude.{
  ℕ, zero, suc, ◌+◌, ◌-◌, ◌%◌, ◌≤◌, ◌<◌, ◌≡◌, refl, Bool, not, ◌&&◌, ◌||◌, String, ◌+++◌, ltb, ◌==◌,
  if◌then◌else◌, show_nat,
}

pub record Date : Type 0 where
  pub year : ℕ
  pub month : ℕ
  pub day : ℕ

is_leap : ℕ → Bool
is_leap y = y % 4 == 0 && (not (y % 100 == 0) || y % 400 == 0)

unfoldable pub days_in : ℕ → ℕ → ℕ
unfolding is_leap
days_in y m =
    if m == 1
    then if is_leap y then 29 else 28
    else if m == 3 || m == 5 || m == 8 || m == 10
    then 30
    else 31

unfoldable pub next_day : Date → Date
unfolding days_in
next_day d =
    if ltb d.day (days_in d.year d.month)
    then record d { day = d.day + 1 }
    else if ltb d.month 11
    then record { year = d.year; month = d.month + 1; day = 1 }
    else record { year = d.year + 1; month = 0; day = 1 }

unfoldable pub last_day : Date → Date
unfolding days_in
last_day d =
    if ltb 1 d.day
    then record d { day = d.day - 1 }
    else if ltb 0 d.month
    then record { year = d.year; month = d.month - 1; day = days_in d.year (d.month - 1) }
    else record { year = d.year - 1; month = 11; day = 31 }

-- `new Date(y, m, d + n)` and `new Date(y, m, d - n)` for the fields `y`, `m`, `d` of a date.
unfoldable pub days_after : ℕ → Date → Date
unfolding next_day
days_after zero d = d
days_after (suc n) d = days_after n (next_day d)

unfoldable pub days_before : ℕ → Date → Date
unfolding last_day
days_before zero d = d
days_before (suc n) d = days_before n (last_day d)

-- `getFullYear() + '-' + (getMonth() + 1) + '-' + getDate()`
unfoldable pub label : Date → String
label d = show_nat d.year +++ "-" +++ show_nat (d.month + 1) +++ "-" +++ show_nat d.day

-- A day of the calendar.
pub record IsDate (d : Date) : Type 0 where
  pub month_fits : d.month < 12
  pub day_starts : 1 ≤ d.day
  pub day_fits : d.day ≤ days_in d.year d.month
