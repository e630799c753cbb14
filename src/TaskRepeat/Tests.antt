-- ===== src/TaskRepeat/Tests.antt =====
-- Runs of internal/taskrepeat/taskrepeat.go, and the theorems at inputs where they hold: a task of
-- the week of 2026-08-17 that repeats every two weeks, of a user in Asia/Kolkata.
use sajni_api.Prelude.{
  ℕ, ◌+◌, ◌*◌, ◌≤◌, ◌<◌, ◌≡◌, ◌≢◌, refl, [], ◌∷◌, some, none, arith, ok, true, false,
}
use sajni_api.Prelude.Int.{pos}
use sajni_api.Calendar.{
  date, month_start, days_before_year, days_before_month, month_length, is_leap, year, month,
  day_of_month, month_index, find_month, weekday,
}
use sajni_api.Calendar.Text.{text_ltb, format_date, parse_date, checked_date}
use sajni_api.Calendar.Zone.{utc, day_length, local_day, clock, at}
use sajni_api.Reminder.Rule.{Rule, no_rule, recurring, out_of_range}
use sajni_api.Reminder.Next.{occurs, add_date}
use sajni_api.Calendar.Kolkata.{kolkata, monday, four_o_clock}
use sajni_api.TaskRepeat.Rules.{
  day, week, step, interval, anchor, anchor_at, normalize, normalize_at, normalize_kind,
  advance_date, next_loop, next,
}
use sajni_api.TaskRepeat.Fitting.{IsEndless, normalize_again}
use sajni_api.TaskRepeat.Stored.{fit_again}
use sajni_api.TaskRepeat.Sweep.{
  sweep, sweep_loop, limit_rows, candidates, insert_by_id, is_candidate, advance_one, enqueue,
  arm_reminders,
}
use sajni_api.TaskRepeat.Advance.{
  moved_reminders, new_scheduled, Task, Store, scope, find_task, is_row, not_before, date_of,
  skip_before, advance, advance_from, advance_task, fit, fit_rule, encode, Moved, update_task,
  write_move,
}
use sajni_api.TaskRepeat.Advance.Series.{IsDate, FirstFrom, next_first, next_found}
use sajni_api.TaskRepeat.Advance.Lapse.{IsReopened, others, advance_again, advance-IsReopened}

abbrev two_weekly : Rule
two_weekly = record no_rule { frequency = "weekly"; interval = pos 2 }

abbrev start : ℕ
start = monday * day_length

start-IsDate : IsDate start
unfolding local_day clock
start-IsDate = record { second_day = omega arith; midnight = refl }

week_not_day : week ≢ day
week_not_day h = cc

next-two_weekly :
    next two_weekly week start ((monday + 7) * day_length) ≡ occurs ((monday + 14) * day_length)
unfolding next next_loop advance_date step add_date local_day clock at recurring
next-two_weekly = refl

next_first_example :
    FirstFrom two_weekly week start ((monday + 7) * day_length) start ((monday + 14) * day_length)
    × ((monday + 7) * day_length ≤ (monday + 14) * day_length)
    × (local_day utc start < local_day utc ((monday + 14) * day_length))
    × (clock utc ((monday + 14) * day_length) ≡ 0)
next_first_example =
    next_first two_weekly week start ((monday + 7) * day_length) ((monday + 14) * day_length)
      (λ e. absurd (week_not_day e)) start-IsDate next-two_weekly

next_found_example : (t : ℕ) × (next two_weekly week start ((monday + 7) * day_length) ≡ occurs t)
unfolding local_day clock recurring
next_found_example =
    next_found two_weekly week start ((monday + 7) * day_length) week_not_day refl start-IsDate refl
      (omega arith)

abbrev review : Task
review = record {
  plan_id = none;
  id = 4;
  user_id = "u";
  title = [];
  status = "done";
  due_date = none;
  week_of = some (format_date monday);
  month_of = none;
  scheduled_at = none;
  remind = false;
  recurrence = two_weekly;
  steps = some (record { text = []; done = true; rest = [] } ∷ []);
  reminded_at = none;
  reminder_claimed_until = none;
}

abbrev store : Store
store = record { tasks = review ∷ []; history = []; events = []; reminders = [] }

-- The Wednesday after, at 16:00.
abbrev wednesday : ℕ
wednesday = four_o_clock (monday + 9)

review_sits : anchor (scope review) ≡ some (week, monday)
unfolding anchor anchor_at scope format_date parse_date checked_date date month_start
    days_before_year days_before_month month_length is_leap year month day_of_month month_index
    find_month
review_sits = refl

review-next :
    next two_weekly week (at utc monday 0) (not_before week (date_of kolkata wednesday))
    ≡ occurs ((monday + 14) * day_length)
unfolding next next_loop advance_date step add_date local_day clock at recurring not_before date_of
    weekday
review-next = refl

abbrev there : ℕ
there = (monday + 14) * day_length

there-year : year (local_day utc there) ≤ 9999
unfolding year month_index find_month days_before_year local_day
there-year = omega arith

abbrev after : Moved × Store
after = write_move kolkata false "u" 4 week (at utc monday 0) there review store

review_found : find_task "u" 4 store.tasks ≡ some review
unfolding find_task is_row
review_found = refl

advance-review : advance kolkata false "u" 4 wednesday store ≡ ok (some (after.0, after.1))
unfolding advance advance_task advance_from find_task is_row recurring anchor anchor_at scope
    format_date parse_date checked_date date month_start days_before_year days_before_month
    month_length is_leap year month day_of_month month_index find_month next next_loop advance_date
    step add_date local_day clock at not_before date_of weekday skip_before
advance-review = refl

-- The sweep finds the review, moves it and arms nothing.
swept : sweep (λ uid. kolkata) (λ i. wednesday) (monday + 9) store ≡ (after.0 ∷ [], [], after.1)
unfolding sweep sweep_loop limit_rows candidates insert_by_id is_candidate advance_one enqueue
    arm_reminders text_ltb advance advance_task advance_from find_task is_row recurring anchor
    anchor_at scope format_date parse_date checked_date date month_start days_before_year
    days_before_month month_length is_leap year month day_of_month month_index find_month next
    next_loop advance_date step add_date local_day clock at not_before date_of weekday skip_before
    write_move moved_reminders new_scheduled
swept = refl

advance_again_example : advance kolkata false "u" 4 wednesday after.1 ≡ ok none
advance_again_example =
    advance_again kolkata "u" 4 wednesday store after.0 after.1 review week monday there
      review_found review_sits review-next there-year advance-review

advance-IsReopened_example :
    (not_before week (date_of kolkata wednesday) ≤ there)
    × ((row : Task) × (find_task "u" 4 after.1.tasks ≡ some row)
        × IsReopened kolkata week there review row)
    × (others "u" 4 after.1.tasks ≡ others "u" 4 store.tasks)
unfolding skip_before
advance-IsReopened_example =
    advance-IsReopened kolkata false "u" 4 wednesday store after.0 after.1 review week monday there
      review_found review_sits review-next there-year advance-review

normalize-review :
    normalize (record two_weekly { until = format_date monday }) (scope review) ≡ ok two_weekly
unfolding normalize normalize_at normalize_kind interval out_of_range recurring anchor anchor_at
    scope format_date parse_date checked_date date month_start days_before_year days_before_month
    month_length is_leap year month day_of_month month_index find_month
normalize-review = refl

normalize_again_example :
    IsEndless two_weekly × (normalize two_weekly (scope review) ≡ ok two_weekly)
normalize_again_example =
    normalize_again (record two_weekly { until = format_date monday }) two_weekly (scope review)
      normalize-review

fit-review : fit "u" 4 none store ≡ ok store
unfolding fit fit_rule update_task is_row find_task encode normalize normalize_at normalize_kind
    interval out_of_range recurring anchor anchor_at scope format_date parse_date checked_date date
    month_start days_before_year days_before_month month_length is_leap year month day_of_month
    month_index find_month
fit-review = refl

fit_again_example : fit "u" 4 none store ≡ ok store
fit_again_example = fit_again "u" 4 none store store fit-review
