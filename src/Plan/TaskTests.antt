-- ===== src/Plan/TaskTests.antt =====
-- A run of `AddTask`, and its theorems at that run: a timed task that was due on Sunday moves to Monday a week
-- on, into a plan at nine o'clock.
use sajni_api.Prelude.{ℕ, ◌+◌, ◌-◌, ◌≡◌, true, some, none, [], ◌∷◌, All, refl, ok}
use sajni_api.Calendar.{
  year, month, date, day_of_month, month_index, find_month, month_start, days_before_year,
  days_before_month, month_length, is_leap, weekday,
}
use sajni_api.Calendar.Text.{Text, format_date, parse_date, checked_date, text_ltb}
use sajni_api.Calendar.Zone.{local_day, clock, at}
use sajni_api.Calendar.Kolkata.{kolkata, kolkata-IsSteady, monday, four_o_clock}
use sajni_api.Reminder.Rule.{no_rule}
use sajni_api.Reminder.Next.{add_date}
use sajni_api.TaskRepeat.Advance.{Task, Store, is_row, find_task, update_task, has_row}
use sajni_api.Plan.{PlanRow, on, get, start_clock, start_at, next_day, next, next_one, occurrence}
use sajni_api.Plan.Saved.{find_plan}
use sajni_api.Plan.AddTask.{
  moved_time, note_history, note_move, write_rescheduled, mark_rescheduled, planned, add_to,
  add_task,
}
use sajni_api.Plan.AddTask.Landed.{IsLanded, is_due, add_task-IsLanded, add_task_rescheduled}

abbrev nine : Text → ℕ × ℕ
nine text = (9, 0)

abbrev plan : PlanRow
plan = record {
  id = 1;
  user_id = "u";
  name = b'M' ∷ [];
  color = [];
  weekdays = 1 ∷ [];
  start_time = b'0' ∷ b'9' ∷ b':' ∷ b'0' ∷ b'0' ∷ [];
  notify = true;
  next_alert_at = none;
  alert_claimed_until = none;
}

-- Monday at 16:00; the plan runs next a week on.
abbrev now : ℕ
now = four_o_clock monday

abbrev sunday_text : Text
sunday_text = format_date (monday - 1)

abbrev monday_text : Text
monday_text = format_date (monday + 7)

abbrev task : Task
task = record {
  id = 4;
  plan_id = none;
  user_id = "u";
  title = [];
  status = "todo";
  due_date = some sunday_text;
  week_of = none;
  month_of = none;
  scheduled_at = some (four_o_clock (monday - 1));
  remind = true;
  recurrence = no_rule;
  steps = none;
  reminded_at = some 1;
  reminder_claimed_until = none;
}

abbrev store : Store
store = record { tasks = task ∷ []; history = []; events = []; reminders = [] }

abbrev time : ℕ
time = four_o_clock (monday + 7)

abbrev after : Store
after = record {
  tasks =
      record task {
        plan_id = some 1;
        due_date = some monday_text;
        scheduled_at = some time;
        reminded_at = none;
      }
      ∷ [];
  history =
      record { user_id = "u"; task_id = 4; due_date = sunday_text; outcome = "rescheduled" } ∷ [];
  events =
      record {
        user_id = "u";
        task_id = 4;
        kind = "rescheduled";
        from_val = sunday_text;
        to_val = monday_text;
      }
      ∷ record {
        user_id = "u";
        task_id = 4;
        kind = "planned";
        from_val = [];
        to_val = b'M' ∷ b' ' ∷ 194 ∷ 183 ∷ b' ' ∷ monday_text;
      }
      ∷ [];
  reminders = [];
}

landed : add_task nine kolkata now "u" 1 4 [] (plan ∷ []) store ≡ ok (monday_text, some time, after)
unfolding add_task add_to moved_time note_history note_move write_rescheduled mark_rescheduled
    planned find_plan occurrence get next_one next next_day on weekday start_at start_clock
    find_task is_row update_task has_row date local_day at clock add_date format_date parse_date
    checked_date text_ltb year month day_of_month month_index find_month month_start
    days_before_year days_before_month month_length is_leap
landed = refl

before : find_task "u" 4 store.tasks ≡ some task
unfolding find_task is_row
before = refl

past : text_ltb sunday_text (format_date (local_day kolkata now)) ≡ true
unfolding text_ltb format_date local_day year month day_of_month month_index find_month month_start
    days_before_year days_before_month month_length is_leap
past = refl

add_task-IsLanded_example :
    IsLanded kolkata "u" 1 4 monday_text store after
    × ((start : ℕ) × (occurrence nine kolkata now "u" 1 [] (plan ∷ []) ≡ ok (monday_text, start)))
add_task-IsLanded_example =
    add_task-IsLanded nine kolkata now "u" 1 4 [] (plan ∷ []) store (monday_text, some time, after)
      kolkata-IsSteady landed

add_task_rescheduled_example :
    (has_row "u" 4 sunday_text after.history ≡ true)
    × All (λ row. is_due "u" 4 sunday_text row ≡ true → row.outcome ≡ "rescheduled") after.history
unfolding format_date year month day_of_month month_index find_month month_start days_before_year
    days_before_month month_length is_leap
add_task_rescheduled_example =
    add_task_rescheduled nine kolkata now "u" 1 4 [] sunday_text (plan ∷ []) store
      (monday_text, some time, after) task before refl past refl landed refl
