-- ===== src/Metric/DateCounter.antt =====
-- pkg/util/metric/date_counter.go: a counter for each of the last days. A time is the number of
-- seconds of a local midnight, to which the code truncates each time that it reads; the two methods
-- that the lock brackets are one step. A count is an int64, kept as its residue modulo 2 ^ 64.
pub mod Laws
pub mod Days
use chml_frp_frp.Prelude.{
  ℕ, zero, suc, ◌+◌, ◌-◌, ◌*◌, ◌/◌, ◌%◌, ◌<◌, ◌≤◌, List, [], ◌∷◌, ◌++◌, Bool, ltb, leb,
  if◌then◌else◌, take, replicate,
}

abbrev pub int64_mod : ℕ
int64_mod = 18446744073709551616

abbrev pub day_seconds : ℕ
day_seconds = 86400

pub record DateCounter : Type 0 where
  pub reserve_days : ℕ
  pub counts : List ℕ
  pub last_update : ℕ

-- `NewDateCounter`, at a day.
unfoldable pub new_date_counter : ℕ → ℕ → DateCounter
new_date_counter reserve today = record {
  reserve_days = if leb reserve 0 then 1 else reserve;
  counts = replicate (if leb reserve 0 then 1 else reserve) 0;
  last_update = today;
}

-- The loop of `rotate`: zeros for the days that passed, then the counts that are still reserved.
unfoldable pub shift_counts : ℕ → ℕ → List ℕ → List ℕ
shift_counts days reserve counts = replicate days 0 ++ take (reserve - days) counts

-- `rotate` after `days` days.
unfoldable pub rotate_by : ℕ → ℕ → DateCounter → DateCounter
rotate_by days today c =
    if leb days 0
    then record c { last_update = today }
    else if leb c.reserve_days days
    then record c { counts = replicate c.reserve_days 0; last_update = today }
    else record c { counts = shift_counts days c.reserve_days c.counts; last_update = today }

unfoldable pub rotate : ℕ → DateCounter → DateCounter
rotate today c = rotate_by ((today - c.last_update) / day_seconds) today c

-- `c.counts[0] = f(c.counts[0])`
abbrev change_head : (ℕ → ℕ) → List ℕ → List ℕ
change_head f [] = []
change_head f (n ∷ ns) = f n ∷ ns

abbrev head_or : ℕ → List ℕ → ℕ
head_or d [] = d
head_or d (n ∷ ns) = n

unfoldable pub inc : ℕ → ℕ → DateCounter → DateCounter
inc today count c =
    let r = rotate today c in
    record r { counts = change_head (λ n. (n + count) % int64_mod) r.counts }

unfoldable pub dec : ℕ → ℕ → DateCounter → DateCounter
dec today count c =
    let r = rotate today c in
    record r {
      counts = change_head (λ n. (n + (int64_mod - count % int64_mod)) % int64_mod) r.counts;
    }

-- The methods that read return the counter too, which they rotate.
unfoldable pub today_count : ℕ → DateCounter → ℕ × DateCounter
today_count today c = let r = rotate today c in (head_or 0 r.counts, r)

unfoldable pub get_last_days_count : ℕ → ℕ → DateCounter → List ℕ × DateCounter
get_last_days_count today lastdays c =
    let r = rotate today c in
    (take (if ltb c.reserve_days lastdays then c.reserve_days else lastdays) r.counts, r)

-- `Snapshot` copies the counts into a new counter, which is stamped with the day of the call.
unfoldable pub snapshot : ℕ → DateCounter → DateCounter
unfolding new_date_counter
snapshot today c = record (new_date_counter c.reserve_days today) {
  counts = take c.reserve_days c.counts;
}

unfoldable pub clear : DateCounter → DateCounter
clear c = record c { counts = replicate c.reserve_days 0 }
