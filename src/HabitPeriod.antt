-- ===== src/HabitPeriod.antt =====
-- internal/habitperiod/period.go: the periods of a habit's cadence. A date is a day number of
-- Calendar; a frequency is the source's string, and any string but the named ones acts as "daily".
pub mod Periods
pub mod Count
pub mod Streaks
pub mod Runs
pub mod Current
mod Tests
use text.Mathlib.Text.{◌==◌ as str_eq}
use sajni_api.Prelude.{
  ℕ, zero, suc, ◌+◌, ◌-◌, ◌%◌, ◌==◌, Bool, not, ◌||◌, Option, none, some, String, ltb,
  if◌then◌else◌,
}
use sajni_api.Prelude.Int.{quot, rem, pos_part, neg_part}
use sajni_api.Calendar.{date, weekday, year, month, add_days, sub_days, days_between}

abbrev pub daily : String
daily = "daily"

abbrev pub weekly : String
weekly = "weekly"

abbrev pub fortnightly : String
fortnightly = "fortnightly"

abbrev pub monthly : String
monthly = "monthly"

-- `fortnightEpoch`
unfoldable pub fortnight_epoch : ℕ
fortnight_epoch = date 1970 1 12

pub record Period : Type 0 where
  pub start : ℕ
  pub end : ℕ

unfoldable pub valid_frequency : String → Bool
valid_frequency frequency =
    str_eq frequency daily
    || str_eq frequency weekly
    || str_eq frequency fortnightly
    || str_eq frequency monthly

unfoldable pub week_start : ℕ → ℕ
week_start d = let offset = (weekday d + 6) % 7 in sub_days d offset

-- The Monday of the fortnight, from the Monday of the week.
unfoldable pub fortnight_start : ℕ → ℕ
fortnight_start monday =
    let weeks = quot (days_between monday fortnight_epoch) 7 in
    if not (pos_part (rem weeks 2) + neg_part (rem weeks 2) == 0) then sub_days monday 7 else monday

-- The end of `ForDate`: the day before the next period.
abbrev pub period : ℕ → ℕ → Period
period start next_start = record { start = start; end = sub_days next_start 1 }

unfoldable pub for_date : ℕ → String → Period
for_date d frequency =
    if str_eq frequency weekly
    then (let start = week_start d in period start (add_days start 7))
    else if str_eq frequency fortnightly
    then (let start = fortnight_start (week_start d) in period start (add_days start 14))
    else if str_eq frequency monthly
    then (let start = date (year d) (month d) 1 in
        period start (date (year start) (month start + 1) 1))
    else period d (add_days d 1)

unfoldable pub next : ℕ → String → ℕ
next period_start frequency =
    if str_eq frequency weekly
    then add_days period_start 7
    else if str_eq frequency fortnightly
    then add_days period_start 14
    else if str_eq frequency monthly
    then date (year period_start) (month period_start + 1) 1
    else add_days period_start 1

unfoldable pub previous : ℕ → String → ℕ
previous period_start frequency =
    if str_eq frequency weekly
    then sub_days period_start 7
    else if str_eq frequency fortnightly
    then sub_days period_start 14
    else if str_eq frequency monthly
    then date (year period_start) (month period_start - 1) 1
    else sub_days period_start 1

unfoldable pub unit : String → String
unit frequency =
    if str_eq frequency weekly
    then "week"
    else if str_eq frequency fortnightly
    then "fortnight"
    else if str_eq frequency monthly
    then "month"
    else "day"

-- The loop of `CountOverlapping` at `cursor`; `none` means that the fuel ran out.
unfoldable pub count_from : ℕ → ℕ → ℕ → String → ℕ → Option ℕ
count_from zero cursor to frequency count = none
count_from (suc fuel) cursor to frequency count =
    let rest = count_from fuel (next cursor frequency) to frequency (count + 1) in
    if not (ltb to cursor) then rest else some count

unfoldable pub count_overlapping : ℕ → ℕ → String → Option ℕ
count_overlapping from to frequency =
    if ltb to from
    then some 0
    else count_from (to + 2) (for_date from frequency).start to frequency 0
