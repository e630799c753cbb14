-- ===== src/Plan/AddTask.antt =====
-- `AddTask` of internal/plan/plan.go, over the tables of plans and of tasks. A transaction that
-- fails leaves every table as it was, so an error carries none.
pub mod Landed
use text.Mathlib.Text.{◌==◌ as str_eq}
use sajni_api.Prelude.{
  ℕ, ◌+◌, ◌*◌, ◌/◌, ◌==◌, Bool, true, false, not, ◌&&◌, ◌||◌, Option, none, some, List, [], ◌∷◌,
  ◌++◌, map, String, ltb, if◌then◌else◌, Result, ok, err, ◌>>=◌,
}
use sajni_api.Calendar.Text.{Text, text_eq, text_ltb, parse_date, format_date}
use sajni_api.Calendar.Zone.{Zone, local_day, clock, at}
use sajni_api.TaskRepeat.Advance.{Task, Due, Event, Store, find_task, update_task, has_row}
use sajni_api.Plan.{PlanRow, PlanError, no_task, occurrence}
use sajni_api.Plan.Saved.{find_plan}

abbrev pub found_task : Option Task → Result PlanError Task
found_task none = err no_task
found_task (some task) = ok task

-- The day of a date's midnight in the zone; a text that is not a date gives that of Go's zero time.
abbrev pub landing_day : Zone → Option ℕ → ℕ
landing_day loc none = 0
landing_day loc (some d) = local_day loc (at loc d 0)

-- A timed task keeps its hour and minute on the new date.
unfoldable pub moved_time : Zone → Text → Option ℕ → Option ℕ
moved_time loc date none = none
moved_time loc date (some scheduled) =
    some
      (at loc (landing_day loc (parse_date date)) (clock loc scheduled / 60000000000 * 60000000000))

abbrev pub is_open : String → Bool
is_open status = not (str_eq status "done") && not (str_eq status "scratched")

-- The row of `task_due_history`: inserted where there is none, and marked as rescheduled.
unfoldable pub mark_rescheduled : String → ℕ → Text → Due → Due
mark_rescheduled uid id from row =
    if str_eq row.user_id uid && (row.task_id == id) && text_eq row.due_date from
    then record row { outcome = "rescheduled" }
    else row

unfoldable pub write_rescheduled : String → ℕ → Text → List Due → List Due
write_rescheduled uid id from rows = map (mark_rescheduled uid id from) (
    if has_row uid id from rows
    then rows
    else rows
      ++ record { user_id = uid; task_id = id; due_date = from; outcome = "rescheduled" } ∷ [])

-- What a move off a past day writes.
unfoldable pub note_history : String → ℕ → Text → Text → Task → List Due → List Due
note_history uid id date today task rows = elim task.due_date [
  | none ↦ rows
  | some due ↦
      if not (text_eq due date) && text_ltb due today && is_open task.status
      then write_rescheduled uid id due rows
      else rows
]

abbrev event : String → ℕ → String → Text → Text → Event
event uid id kind from to = record {
  user_id = uid;
  task_id = id;
  kind = kind;
  from_val = from;
  to_val = to;
}

unfoldable pub note_move : String → ℕ → Text → Task → List Event → List Event
note_move uid id date task events = elim task.due_date [
  | none ↦ events
  | some due ↦
      if not (text_eq due date) then events ++ event uid id "rescheduled" due date ∷ [] else events
]

-- `scheduled_at IS DISTINCT FROM $5`
abbrev is_other : Option ℕ → Option ℕ → Bool
is_other none none = false
is_other (some t) (some u) = not (t == u)
is_other _ _ = true

-- The update of the row.
unfoldable pub planned : ℕ → Text → Option ℕ → Task → Task
planned plan_id date scheduled task = record task {
  plan_id = some plan_id;
  due_date = some date;
  week_of = none;
  month_of = none;
  scheduled_at = scheduled;
  reminded_at = if is_other task.scheduled_at scheduled then none else task.reminded_at;
}

-- " · "
abbrev dot : Text → Text → Text
dot name date = name ++ b' ' ∷ 194 ∷ 183 ∷ b' ' ∷ date

abbrev plan_name : Option PlanRow → Text
plan_name none = []
plan_name (some row) = row.name

-- The writes of the transaction.
unfoldable pub add_to : Zone → String → ℕ → ℕ → Text → Text → Text → Task → Store → Store
add_to loc uid plan_id id name date today task s = record s {
  tasks = update_task uid id (planned plan_id date (moved_time loc date task.scheduled_at)) s.tasks;
  history = note_history uid id date today task s.history;
  events = note_move uid id date task s.events ++ event uid id "planned" [] (dot name date) ∷ [];
}

-- The reminder that is enqueued after the commit.
abbrev pub reminder : ℕ → Task → Option ℕ → Option ℕ
reminder now task none = none
reminder now task (some time) =
    if task.remind && ltb now time && is_open task.status then some time else none

-- `AddTask`: the date that the task landed on, the reminder that was enqueued, and the tables.
unfoldable pub add_task :
    (Text → ℕ × ℕ)
    → Zone
    → ℕ
    → String
    → ℕ
    → ℕ
    → Text
    → List PlanRow
    → Store
    → Result PlanError (Text × Option ℕ × Store)
add_task scan loc now uid plan_id id text plans s = do
  place ← occurrence scan loc now uid plan_id text plans
  let date = place.0
  task ← found_task (find_task uid id s.tasks)
  let today = format_date (local_day loc now)
  let name = plan_name (find_plan plan_id plans)
  ok (
    date,
    reminder now task (moved_time loc date task.scheduled_at),
    add_to loc uid plan_id id name date today task s,
  )
