-- ===== src/HabitPeriod/Tests.antt =====
-- The cases of internal/habitperiod/period_test.go, and each theorem at an input.
use sajni_api.Prelude.{ℕ, suc, ◌+◌, ◌≤◌, ◌≡◌, ◌↔◌, refl, List, [], ◌∷◌, some, arith}
use sajni_api.Calendar.{
  date, month_start, days_before_year, days_before_month, month_length, is_leap, year, month,
  day_of_month, month_index, find_month, weekday, days_between,
}
use sajni_api.Calendar.Text.{Text, format_date, parse_date, checked_date}
use sajni_api.HabitPeriod.{
  for_date, next, previous, week_start, fortnight_start, fortnight_epoch, fortnightly, monthly,
  count_overlapping,
}
use sajni_api.HabitPeriod.Streaks.{
  add_log, completed_from, completed_periods, count_back, insert_sorted, sort, next_run,
  longest_run, streak_cursor, streaks_of, streaks,
}
use sajni_api.HabitPeriod.Periods.{for_date_tiles, next_neighbours}
use sajni_api.HabitPeriod.Count.{nth_start, count_overlapping_steps}
use sajni_api.HabitPeriod.Current.{Back, streaks_kept}

-- 2026-07-01
abbrev july_first : ℕ
july_first = 739797

july_first-eq : date 2026 7 1 ≡ july_first
unfolding date month_start days_before_year days_before_month month_length is_leap
july_first-eq = refl

-- The bounds of the dates that the theorems speak of.
first_date-eq : date 1677 10 11 ≡ 612430
unfolding date month_start days_before_year days_before_month month_length is_leap
first_date-eq = refl

first_log-eq : date 1677 12 20 ≡ 612500
unfolding date month_start days_before_year days_before_month month_length is_leap
first_log-eq = refl

last_date-eq : date 2262 4 22 ≡ 825924
unfolding date month_start days_before_year days_before_month month_length is_leap
last_date-eq = refl

-- 2026-06-29, the Monday of the fortnight
fortnight_of_july_first : (for_date july_first fortnightly).start ≡ 739795
unfolding for_date week_start fortnight_start fortnight_epoch weekday days_between date month_start
    days_before_year days_before_month
fortnight_of_july_first = refl

-- `TestStreaksGroupLegacyDatesByCadence`
abbrev logs : List Text
unfolding format_date year month day_of_month month_index find_month month_start days_before_year
    days_before_month month_length is_leap
logs =
    format_date 739796
    ∷ format_date 739800
    ∷ format_date 739810
    ∷ format_date 739824
    ∷ format_date 739830
    ∷ []

streaks_by_fortnight : streaks logs fortnightly 739832 ≡ some (3, 3)
unfolding streaks streaks_of streak_cursor completed_periods completed_from add_log count_back sort
    insert_sorted longest_run next_run previous next for_date week_start fortnight_start
    fortnight_epoch weekday days_between date year month day_of_month month_index find_month
    month_start days_before_year days_before_month month_length is_leap parse_date checked_date
    format_date
streaks_by_fortnight = refl

for_date_tiles_example :
    ((for_date 739797 monthly).start ≤ 739797)
    × (739797 ≤ (for_date 739797 monthly).end)
    × (((for_date 739797 monthly).start ≤ 739800) × (739800 ≤ (for_date 739797 monthly).end)
        ↔ (for_date 739800 monthly ≡ for_date 739797 monthly))
for_date_tiles_example = for_date_tiles 739797 739800 monthly (omega arith) (omega arith)

next_neighbours_example :
    (next (for_date 739797 fortnightly).start fortnightly ≡ (for_date 739797 fortnightly).end + 1)
    × ((for_date (next (for_date 739797 fortnightly).start fortnightly) fortnightly).start
        ≡ next (for_date 739797 fortnightly).start fortnightly)
    × (previous (next (for_date 739797 fortnightly).start fortnightly) fortnightly
        ≡ (for_date 739797 fortnightly).start)
unfolding for_date week_start fortnight_start fortnight_epoch weekday days_between date month_start
    days_before_year days_before_month next
next_neighbours_example = next_neighbours 739797 fortnightly (omega arith) (omega arith)

count_overlapping_steps_example :
    (c : ℕ) × (count_overlapping 739797 739900 monthly ≡ some (suc c))
    × (nth_start c (for_date 739797 monthly).start monthly ≡ (for_date 739900 monthly).start)
count_overlapping_steps_example =
    count_overlapping_steps 739797 739900 monthly (omega arith) (omega arith) (omega arith)

streaks_kept_example :
    (current longest : ℕ) × (streaks logs fortnightly 739832 ≡ some (current, longest))
    × (current ≤ longest)
    × Back
        (completed_periods logs fortnightly)
        fortnightly
        current
        (streak_cursor (completed_periods logs fortnightly) fortnightly 739832)
unfolding date year month day_of_month month_index find_month month_start days_before_year
    days_before_month month_length is_leap parse_date checked_date format_date
streaks_kept_example = streaks_kept logs fortnightly 739832 (omega arith)
