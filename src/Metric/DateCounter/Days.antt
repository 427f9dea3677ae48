-- ===== src/Metric/DateCounter/Days.antt =====
-- Histories of updates: what the counter reports for each of the last days, where a day has 24 hours;
-- and two ways in which it reports something else.
use chml_frp_frp.Prelude.{
  ℕ, ◌+◌, ◌-◌, ◌*◌, ◌%◌, ◌≤◌, ◌<◌, ◌≡◌, refl, ◌∙◌, List, [], ◌∷◌, some, arith, ltb, if◌then◌else◌,
  length, get_elem?, take, length-replicate, get_elem?-replicate, get_elem?-take, length-take,
}
use chml_frp_frp.Metric.DateCounter.{
  DateCounter, int64_mod, new_date_counter, rotate_by, rotate, inc, dec, today_count,
  get_last_days_count, snapshot, head_or,
}
use chml_frp_frp.Metric.DateCounter.Laws.{Holds, rotate-Holds, changed, change_head-Holds}

pub data Update : Type 0 where
  incs decs : ℕ → Update

-- What an update does to a count.
abbrev pub effect : Update → ℕ → ℕ
effect (incs n) count = (count + n) % int64_mod
effect (decs n) count = (count + (int64_mod - n % int64_mod)) % int64_mod

abbrev pub update : ℕ × Update → DateCounter → DateCounter
update (day, incs n) c = inc (day * 86400) n c
update (day, decs n) c = dec (day * 86400) n c

abbrev pub run : List (ℕ × Update) → DateCounter → DateCounter
run [] c = c
run (u ∷ us) c = run us (update u c)

-- The ledger: the amount of each day, after the updates of that day alone.
abbrev pub ledger : (ℕ → ℕ) → List (ℕ × Update) → ℕ → ℕ
ledger amount [] = amount
ledger amount ((day, u) ∷ us) = ledger (changed day (effect u) amount) us

-- The days of a history do not go back, from one day to another.
abbrev pub Ordered : ℕ → List (ℕ × Update) → ℕ → Type 0
Ordered d [] e = d ≤ e
Ordered d ((day, u) ∷ us) e = (d ≤ day) × Ordered day us e

pub update-Holds :
    (c : DateCounter) (d day : ℕ) (u : Update) (amount : ℕ → ℕ)
    → Holds c d amount
    → d ≤ day
    → Holds (update (day, u) c) day (changed day (effect u) amount)
unfolding inc dec
update-Holds c d day (incs n) amount holds later =
    change_head-Holds (effect (incs n)) (rotate (day * 86400) c) day amount
      (rotate-Holds c d day amount holds later)
update-Holds c d day (decs n) amount holds later =
    change_head-Holds (effect (decs n)) (rotate (day * 86400) c) day amount
      (rotate-Holds c d day amount holds later)

run-Holds :
    (us : List (ℕ × Update)) (c : DateCounter) (d e : ℕ) (amount : ℕ → ℕ)
    → Holds c d amount
    → Ordered d us e
    → Holds (rotate (e * 86400) (run us c)) e (ledger amount us)
run-Holds [] c d e amount holds later = rotate-Holds c d e amount holds later
run-Holds ((day, u) ∷ us) c d e amount holds (later, rest) =
    run-Holds us (update (day, u) c) day e (changed day (effect u) amount)
      (update-Holds c d day u amount holds later) rest

pub new_date_counter-Holds :
    (reserve d : ℕ) → 0 < reserve → Holds (new_date_counter reserve (d * 86400)) d (λ _. 0)
unfolding new_date_counter
new_date_counter-Holds reserve d h = record {
  reserved = ground arith;
  sized = length-replicate _ 0;
  stamped = refl;
  entry = λ k j at fits. get_elem?-replicate _ k 0 fits;
  future = λ j later. refl;
}

rotate_reserve : (t : ℕ) (c : DateCounter) → (rotate t c).reserve_days ≡ c.reserve_days
unfolding rotate rotate_by
rotate_reserve t c = ground arith

update_reserve : (u : ℕ × Update) (c : DateCounter) → (update u c).reserve_days ≡ c.reserve_days
unfolding inc dec
update_reserve (day, incs n) c = rotate_reserve (day * 86400) c
update_reserve (day, decs n) c = rotate_reserve (day * 86400) c

run_reserve : (us : List (ℕ × Update)) (c : DateCounter) → (run us c).reserve_days ≡ c.reserve_days
run_reserve [] c = refl
run_reserve (u ∷ us) c = run_reserve us (update u c) ∙ update_reserve u c

module _ (reserve d : ℕ) (pos : 0 < reserve) (us : List (ℕ × Update)) where
  counter : DateCounter
  counter = run us (new_date_counter reserve (d * 86400))

  counter_reserve : counter.reserve_days ≡ reserve
  unfolding counter new_date_counter
  counter_reserve = run_reserve us (new_date_counter reserve (d * 86400)) ∙ ground arith

  length-counter : (e : ℕ) → Ordered d us e → length (rotate (e * 86400) counter).counts ≡ reserve
  unfolding counter
  length-counter e order =
      let held = run-Holds us _ d e (λ _. 0) (new_date_counter-Holds reserve d pos) order in
      omega (arith, held.sized, rotate_reserve (e * 86400) counter, counter_reserve)

  counter_entry :
      (e k j : ℕ)
      → Ordered d us e
      → k + j ≡ e
      → k < reserve
      → get_elem? (rotate (e * 86400) counter).counts k ≡ some (ledger (λ _. 0) us j)
  unfolding counter
  counter_entry e k j order at fits =
      let held = run-Holds us _ d e (λ _. 0) (new_date_counter-Holds reserve d pos) order in
      held.entry k j at (omega (arith, rotate_reserve (e * 86400) counter, counter_reserve))

-- After any history of updates whose days do not go back, the counter reports on a later day the
-- amount of each day that it reserves, as the ledger has it: the entry `k` is that of the day that
-- lies `k` days back.
pub get_last_days_count_lem :
    (reserve lastdays d e k j : ℕ) (us : List (ℕ × Update))
    → 0 < reserve
    → Ordered d us e
    → k + j ≡ e
    → k < lastdays
    → k < reserve
    → get_elem?
        (get_last_days_count (e * 86400) lastdays (run us (new_date_counter reserve (d * 86400)))).0
        k
      ≡ some (ledger (λ _. 0) us j)
unfolding get_last_days_count counter
get_last_days_count_lem reserve lastdays d e k j us pos order at asked fits =
    get_elem?-take _ k _ (ground (arith, counter_reserve reserve d pos us))
    ∙ counter_entry reserve d pos us e k j order at fits

-- It reports as many days as it is asked for, but no more than it reserves.
pub length-get_last_days_count :
    (reserve lastdays d e : ℕ) (us : List (ℕ × Update))
    → 0 < reserve
    → Ordered d us e
    → length
        (get_last_days_count (e * 86400) lastdays (run us (new_date_counter reserve (d * 86400)))).0
      ≡ (if ltb reserve lastdays then reserve else lastdays)
unfolding get_last_days_count counter
length-get_last_days_count reserve lastdays d e us pos order =
    length-take _ _
      (ground (arith, counter_reserve reserve d pos us, length-counter reserve d pos us e order))
    ∙ ground (arith, counter_reserve reserve d pos us)

-- A day of less than 24 hours is not counted as one: the counts stay where they are, so that the
-- count of the day that ended goes on as that of the new day.
pub rotate_short_day :
    (c : DateCounter) (s : ℕ)
    → s < 86400
    → rotate (c.last_update + s) c ≡ record c { last_update = c.last_update + s }
unfolding rotate rotate_by
rotate_short_day c s h = ground arith

head_or-get_elem? : (ns : List ℕ) (n : ℕ) → get_elem? ns 0 ≡ some n → head_or 0 ns ≡ n
head_or-get_elem? [] n h = cc
head_or-get_elem? (m ∷ ns) n h = cc

today_count-Holds :
    (c : DateCounter) (d e : ℕ) (amount : ℕ → ℕ)
    → Holds c d amount
    → d ≤ e
    → (today_count (e * 86400) c).0 ≡ amount e
unfolding today_count
today_count-Holds c d e amount holds later =
    let held = rotate-Holds c d e amount holds later in
    head_or-get_elem? _ (amount e) (held.entry 0 e (omega arith) held.reserved)

rotate-snapshot :
    (c : DateCounter) (e : ℕ)
    → 0 < c.reserve_days
    → (rotate (e * 86400) (snapshot (e * 86400) c)).counts ≡ take c.reserve_days c.counts
unfolding snapshot rotate rotate_by
rotate-snapshot c e h = ground arith

-- A snapshot that is taken before the counter was used on a new day reports the amount of the last
-- day of its use as that of the new day; the counter itself reports 0.
pub snapshot_stale :
    (c : DateCounter) (d e : ℕ) (amount : ℕ → ℕ)
    → Holds c d amount
    → d < e
    → ((today_count (e * 86400) (snapshot (e * 86400) c)).0 ≡ amount d)
      × ((today_count (e * 86400) c).0 ≡ 0)
unfolding today_count
snapshot_stale c d e amount holds later = (
  rw (rotate-snapshot c e holds.reserved) (
      head_or-get_elem? _ (amount d) (
        get_elem?-take c.reserve_days 0 c.counts holds.reserved
        ∙ holds.entry 0 d (omega arith) holds.reserved)),
  today_count-Holds c d e amount holds (omega arith) ∙ holds.future e later,
)
