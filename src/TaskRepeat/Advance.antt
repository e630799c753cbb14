-- ===== src/TaskRepeat/Advance.antt =====
-- `Advance`, `Skip` and `Fit` on the tables that they read and write. A transaction that fails
-- leaves the tables as they were, so an error carries none.
pub mod Series
pub mod Lapse
use text.Mathlib.Text.{◌==◌ as str_eq}
use sajni_api.Prelude.{
  ℕ, zero, suc, ◌+◌, ◌-◌, ◌*◌, ◌/◌, ◌%◌, ◌==◌, Bool, true, false, not, ◌&&◌, ◌||◌, Option, none,
  some, List, [], ◌∷◌, ◌++◌, String, ltb, max, if◌then◌else◌, Result, ok, err, map, ◌>>=◌,
}
use sajni_api.Prelude.Int.{ℤ, pos, pos_part, neg_part}
use sajni_api.Calendar.{date, year, month as month_of, weekday, days_between}
use sajni_api.Calendar.Text.{Text, text_eq, format_date}
use sajni_api.Calendar.Zone.{Zone, utc, day_length, local_day, clock, at}
use sajni_api.Reminder.Rule.{Rule, no_rule, recurring}
use sajni_api.Reminder.Next.{Outcome, occurs, ended, panics}
use sajni_api.TaskRepeat.Rules.{
  Kind, day, week, month, Scope, anchor, Error, not_found, not_repeating, panicked, normalize, next,
}

-- An entry of the steps; `rest` is its other fields.
pub record Step : Type 0 where
  pub text : Text
  pub done : Bool
  pub rest : Text

-- The columns of `tasks` that this package or internal/plan reads or writes; no steps are unreadable
-- ones.
pub record Task : Type 0 where
  pub id : ℕ
  pub plan_id : Option ℕ
  pub user_id : String
  pub title : Text
  pub status : String
  pub due_date : Option Text
  pub week_of : Option Text
  pub month_of : Option Text
  pub scheduled_at : Option ℕ
  pub remind : Bool
  pub recurrence : Rule
  pub steps : Option (List Step)
  pub reminded_at : Option ℕ
  pub reminder_claimed_until : Option ℕ

-- `task_due_history`, `task_events` and `task_reminders`.
pub record Due : Type 0 where
  pub user_id : String
  pub task_id : ℕ
  pub due_date : Text
  pub outcome : String

pub record Event : Type 0 where
  pub user_id : String
  pub task_id : ℕ
  pub kind : String
  pub from_val : Text
  pub to_val : Text

pub record TaskReminder : Type 0 where
  pub id : ℕ
  pub user_id : String
  pub task_id : ℕ
  pub remind_at : ℕ
  pub sent_at : Option ℕ
  pub claimed_until : Option ℕ

pub record Store : Type 0 where
  pub tasks : List Task
  pub history : List Due
  pub events : List Event
  pub reminders : List TaskReminder

pub record Moved : Type 0 where
  pub id : ℕ
  pub user_id : String
  pub title : Text
  pub from : Text
  pub to : Text
  pub blocked : Bool
  pub scheduled_at : Option ℕ
  pub remind : Bool
  pub reminders : List (ℕ × ℕ)

-- `WHERE id=$1 AND user_id=$2`
unfoldable pub is_row : String → ℕ → Task → Bool
is_row uid id task = (task.id == id) && str_eq task.user_id uid

unfoldable pub find_task : String → ℕ → List Task → Option Task
find_task uid id [] = none
find_task uid id (task ∷ tasks) = if is_row uid id task then some task else find_task uid id tasks

unfoldable pub update_task : String → ℕ → (Task → Task) → List Task → List Task
update_task uid id f [] = []
update_task uid id f (task ∷ tasks) =
    (if is_row uid id task then f task else task) ∷ update_task uid id f tasks

-- `sql.NullString`'s String
abbrev pub string : Option Text → Text
string none = []
string (some text) = text

unfoldable pub scope : Task → Scope
scope task = record {
  due = string task.due_date;
  week = string task.week_of;
  month = string task.month_of;
}

-- `dateOf`, and `maxDate` of midnights.
unfoldable pub date_of : Zone → ℕ → ℕ
date_of loc t = at utc (local_day loc t) 0

-- The last instant that a lapse needs behind it: the start of the day, the week or the month.
unfoldable pub not_before : Kind → ℕ → ℕ
not_before day today = today
not_before week today = let d = local_day utc today in at utc (d - (weekday d + 6) % 7) 0
not_before month today = let d = local_day utc today in at utc (date (year d) (month_of d) 1) 0

-- `shiftDays`: the seconds of the clock time are kept, their fraction is not.
unfoldable pub shift_days : Zone → ℤ → ℕ → ℕ
shift_days loc days t =
    at loc (local_day loc t + pos_part days - neg_part days) (clock loc t / 1000000000 * 1000000000)

unfoldable pub untick : Option (List Step) → List Step
untick none = []
untick (some steps) = map {A = Step} (λ s. record s { done = false }) steps

-- The insert into `task_due_history`, where there is no row of the day.
unfoldable pub has_row : String → ℕ → Text → List Due → Bool
has_row uid id from [] = false
has_row uid id from (row ∷ rows) =
    (str_eq row.user_id uid && (row.task_id == id) && text_eq row.due_date from)
    || has_row uid id from rows

unfoldable pub insert_missed : String → ℕ → Text → List Due → List Due
insert_missed uid id from rows =
    if has_row uid id from rows
    then rows
    else rows ++ record { user_id = uid; task_id = id; due_date = from; outcome = "missed" } ∷ []

-- The rows of `task_reminders` of the task, at their new times, and the loop that writes them.
unfoldable pub moved_reminders : Zone → ℤ → String → ℕ → List TaskReminder → List (ℕ × ℕ)
moved_reminders loc days uid id [] = []
moved_reminders loc days uid id (row ∷ rows) =
    let rest = moved_reminders loc days uid id rows in
    if (row.task_id == id) && str_eq row.user_id uid
    then (row.id, shift_days loc days row.remind_at) ∷ rest
    else rest

unfoldable pub write_reminder : ℕ × ℕ → TaskReminder → TaskReminder
write_reminder (rid, time) row =
    if row.id == rid
    then record row { remind_at = time; sent_at = none; claimed_until = none }
    else row

unfoldable pub write_reminders : List (ℕ × ℕ) → List TaskReminder → List TaskReminder
write_reminders [] rows = rows
write_reminders (moved ∷ more) rows = write_reminders more (map (write_reminder moved) rows)

-- The statuses and the event that `Advance` writes.
unfoldable pub new_status : String → String
new_status status = if str_eq status "blocked" then "blocked" else "todo"

unfoldable pub event_of : Bool → String → String
event_of skip status =
    if skip then "skipped" else if not (str_eq status "done") then "missed" else "repeated"

abbrev pub only : Kind → Kind → Text → Option Text
only day day to = some to
only week week to = some to
only month month to = some to
only _ _ to = none

abbrev pub is_day : Kind → Bool
is_day day = true
is_day _ = false

unfoldable pub new_scheduled : Zone → Kind → ℤ → Option ℕ → Option ℕ
new_scheduled loc day days (some t) = some (shift_days loc days t)
new_scheduled loc day days none = none
new_scheduled loc week days scheduled = none
new_scheduled loc month days scheduled = none

-- The update of the row.
unfoldable pub moved_row : Zone → Kind → ℕ → ℕ → Task → Task
moved_row loc kind from to task =
    let text = format_date (local_day utc to) in
    record task {
      due_date = only day kind text;
      week_of = only week kind text;
      month_of = only month kind text;
      scheduled_at =
          new_scheduled loc kind (days_between (local_day utc to) (local_day utc from))
            task.scheduled_at;
      status = new_status task.status;
      steps = some (untick task.steps);
      reminded_at = none;
      reminder_claimed_until = none;
    }

-- `Advance` past the guards: the writes, and what it returns.
unfoldable pub write_move : Zone → Bool → String → ℕ → Kind → ℕ → ℕ → Task → Store → Moved × Store
write_move loc skip uid id kind from to task s =
    let from_text = format_date (local_day utc from) in
    let to_text = format_date (local_day utc to) in
    let days = days_between (local_day utc to) (local_day utc from) in
    let event = event_of skip task.status in
    let moved = moved_reminders loc days uid id s.reminders in
    (
      record {
        id = id;
        user_id = uid;
        title = task.title;
        from = from_text;
        to = to_text;
        blocked = str_eq task.status "blocked";
        scheduled_at = new_scheduled loc kind days task.scheduled_at;
        remind = task.remind;
        reminders = moved;
      },
      record {
        tasks = update_task uid id (moved_row loc kind from to) s.tasks;
        history =
            if str_eq event "missed" && is_day kind
            then insert_missed uid id from_text s.history
            else s.history;
        events =
            s.events
            ++ record {
              user_id = uid;
              task_id = id;
              kind = event;
              from_val = from_text;
              to_val = to_text;
            }
              ∷ [];
        reminders = write_reminders moved s.reminders;
      },
    )

-- The date that the move must reach: skipping moves past the task's own day.
unfoldable pub skip_before : Bool → Kind → ℕ → ℕ → ℕ
skip_before skip kind from earliest =
    if skip && is_day kind then max earliest (from + day_length) else earliest

-- `none` is the return with false, where nothing is written.
abbrev pub Answer : Type 0
Answer = Result Error (Option (Moved × Store))

unfoldable pub advance_from : Zone → Bool → String → ℕ → ℕ → Task → Store → Kind × ℕ → Answer
advance_from loc skip uid id today task s (kind, start) =
    let from = at utc start 0 in
    let earliest = not_before kind (date_of loc today) in
    if not skip && not (ltb from earliest)
    then ok none
    else elim (next task.recurrence kind from (skip_before skip kind from earliest)) [
      | ended ↦ ok none
      | panics ↦ err panicked
      | occurs to ↦ ok (some (write_move loc skip uid id kind from to task s))
    ]

unfoldable pub advance_task : Zone → Bool → String → ℕ → ℕ → Task → Store → Answer
advance_task loc skip uid id today task s =
    if not (recurring task.recurrence) || str_eq task.status "scratched"
    then ok none
    else elim (anchor (scope task)) [
      | none ↦ ok none
      | some start ↦ advance_from loc skip uid id today task s start
    ]

-- `Advance`, at the time `today` in the user's zone `loc`.
unfoldable pub advance : Zone → Bool → String → ℕ → ℕ → Store → Answer
advance loc skip uid id today s = elim (find_task uid id s.tasks) [
  | none ↦ err not_found
  | some task ↦ advance_task loc skip uid id today task s
]

-- `Skip`; the queue that it arms is not part of the tables.
unfoldable pub skip : Zone → String → ℕ → ℕ → Store → Result Error (Moved × Store)
skip loc uid id now s = elim (advance loc true uid id now s) [
  | err e ↦ err e
  | ok none ↦ err not_repeating
  | ok (some moved) ↦ ok moved
]

-- `Encode`: the stored form of a rule that does not repeat is the empty one.
unfoldable pub encode : Rule → Rule
encode rule = if recurring rule then rule else no_rule

-- `Fit`. The write of an unchanged rule, which the source leaves out, changes nothing.
abbrev pub or_none : Result Error Rule → Rule
or_none (ok rule) = encode rule
or_none (err e) = no_rule

unfoldable pub fit_rule : Task → Option Rule → Result Error Rule
fit_rule task none = ok (or_none (normalize task.recurrence (scope task)))
fit_rule task (some rule) = normalize rule (scope task) >>= λ r. ok (encode r)

unfoldable pub fit : String → ℕ → Option Rule → Store → Result Error Store
fit uid id rule s = elim (find_task uid id s.tasks) [
  | none ↦ err not_found
  | some task ↦ fit_rule task rule >>= λ r.
      ok (record s { tasks = update_task uid id (λ t. record t { recurrence = r }) s.tasks })
]
