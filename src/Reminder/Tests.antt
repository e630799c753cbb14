-- ===== src/Reminder/Tests.antt =====
-- The cases of internal/reminder/recurrence_test.go in Asia/Kolkata, and each theorem at an input.
use sajni_api.Prelude.{ok, ℕ}
use sajni_api.Prelude.{◌+◌, ◌≤◌, ◌≡◌, refl, [], ◌∷◌, some, arith}
use sajni_api.Prelude.Int.{pos, negsuc, ◌-ℤ◌}
use sajni_api.Calendar.{
  date, month_start, days_before_year, days_before_month, month_length, is_leap, year, month,
  day_of_month, month_index, find_month, weekday, days_between,
}
use sajni_api.Calendar.Text.{format_date, text_ltb}
use sajni_api.Calendar.Zone.{local_day, clock, at}
use sajni_api.Calendar.Kolkata.{kolkata, kolkata-IsSteady, monday, four_o_clock}
use sajni_api.Reminder.Rule.{
  Rule, no_rule, recurring, days_in_month, contains_int, out_of_range, distinct_weekdays,
  insert_int, sort_ints, normalize, normalize_basics, normalize_weekdays, normalize_monthly,
}
use sajni_api.Reminder.Normal.{IsNormal, normalize-IsNormal, normalize_fixed}
use sajni_api.Reminder.Next.{
  add_date, monday_date, local_date_time, weekly_candidate, week_delta, weekly_matches, weekly_loop,
  next_weekly, last_weekday, nth_weekday, candidate_after, within_until, occurs, next,
}
use sajni_api.Reminder.Next.ActiveDay.{FirstActive, next_weekly-FirstActive}
use sajni_api.Reminder.Next.Monthly.{IsNth, nth_weekday-IsNth}
use sajni_api.Reminder.Next.Occurrence.{IsLater, next-IsLater, next_until}

monday-eq : date 2026 8 17 ≡ monday
unfolding date month_start days_before_year days_before_month month_length is_leap
monday-eq = refl

abbrev fortnightly_rule : Rule
fortnightly_rule = record no_rule {
  frequency = "weekly";
  interval = pos 2;
  weekdays = pos 4 ∷ pos 1 ∷ pos 4 ∷ [];
}

abbrev fortnightly_kept : Rule
fortnightly_kept = record fortnightly_rule { weekdays = pos 1 ∷ pos 4 ∷ [] }

normalize-fortnightly : normalize fortnightly_rule monday ≡ ok fortnightly_kept
unfolding normalize normalize_basics normalize_weekdays normalize_monthly distinct_weekdays
    contains_int sort_ints insert_int out_of_range
normalize-fortnightly = refl

-- `TestWeeklyCadenceUsesSelectedWeekdays`: Thursday of the same week, then the Monday of the next
-- active one.
next-thursday :
    next (four_o_clock monday) (four_o_clock monday) 1 fortnightly_kept (some kolkata)
    ≡ occurs (four_o_clock (monday + 3))
unfolding next recurring candidate_after within_until next_weekly weekly_loop weekly_candidate
    weekly_matches week_delta monday_date add_date local_date_time contains_int days_in_month
    local_day clock at ◌-ℤ◌ date month_start days_before_year days_before_month month_length is_leap
    year month day_of_month month_index find_month weekday days_between
next-thursday = refl

next-monday :
    next (four_o_clock monday) (four_o_clock (monday + 3)) 2 fortnightly_kept (some kolkata)
    ≡ occurs (four_o_clock (monday + 14))
unfolding next recurring candidate_after within_until next_weekly weekly_loop weekly_candidate
    weekly_matches week_delta monday_date add_date local_date_time contains_int days_in_month
    local_day clock at ◌-ℤ◌ date month_start days_before_year days_before_month month_length is_leap
    year month day_of_month month_index find_month weekday days_between
next-monday = refl

normalize-IsNormal_example : IsNormal fortnightly_kept
unfolding recurring
normalize-IsNormal_example =
    normalize-IsNormal fortnightly_rule fortnightly_kept monday refl normalize-fortnightly

normalize_fixed_example : normalize fortnightly_kept 5 ≡ ok fortnightly_kept
unfolding recurring
normalize_fixed_example = normalize_fixed fortnightly_kept 5 refl normalize-IsNormal_example

next_weekly-FirstActive_example :
    (t : ℕ) × (next_weekly kolkata (four_o_clock monday) (four_o_clock monday) fortnightly_kept
      ≡ some t)
    × FirstActive kolkata (four_o_clock monday) (four_o_clock monday) fortnightly_kept 2 t
unfolding local_day
next_weekly-FirstActive_example =
    next_weekly-FirstActive kolkata (four_o_clock monday) (four_o_clock monday) fortnightly_kept
      kolkata-IsSteady normalize-IsNormal_example refl (omega arith) (omega arith) (omega arith)
      (omega arith)

next-IsLater_example :
    IsLater kolkata
      (four_o_clock monday)
      (clock kolkata (four_o_clock monday))
      (four_o_clock (monday + 3))
unfolding local_day
next-IsLater_example =
    next-IsLater kolkata (four_o_clock monday) (four_o_clock monday) 1 fortnightly_kept
      (four_o_clock (monday + 3)) kolkata-IsSteady normalize-IsNormal_example (omega arith) refl
      next-thursday

abbrev daily_until : Rule
daily_until = record no_rule {
  frequency = "daily";
  interval = pos 1;
  until = format_date (monday + 2);
}

next-tuesday :
    next (four_o_clock monday) (four_o_clock monday) 1 daily_until (some kolkata)
    ≡ occurs (four_o_clock (monday + 1))
unfolding next recurring candidate_after within_until add_date local_day clock at date month_start
    days_before_year days_before_month month_length is_leap year month day_of_month month_index
    find_month format_date text_ltb
next-tuesday = refl

next_until_example : local_day kolkata (four_o_clock (monday + 1)) ≤ monday + 2
unfolding year local_day
next_until_example =
    next_until kolkata (four_o_clock monday) (four_o_clock monday) 1 daily_until
      (four_o_clock (monday + 1)) (monday + 2) refl (omega arith) (omega arith) next-tuesday

-- The last Monday of August 2026 is the 31st.
nth_weekday-IsNth_example :
    IsNth kolkata 2026 8
      (pos 1)
      (negsuc 0)
      (clock kolkata (four_o_clock monday))
      (four_o_clock (monday + 14))
unfolding nth_weekday last_weekday local_date_time days_in_month local_day clock at date month_start
    days_before_year days_before_month month_length is_leap day_of_month month_index find_month year
    weekday out_of_range
nth_weekday-IsNth_example =
    nth_weekday-IsNth kolkata 2026 8 (four_o_clock monday) kolkata-IsSteady (omega arith)
      (omega arith) (omega arith) (omega arith) (pos 1) (negsuc 0) refl refl refl
